-- ===== src/Evdev/Tests.antt =====
-- Two fingers on a trackpad, and a keyboard that is plugged in.
use luna_os_arm.Prelude.{ℕ, pos, ◌≡◌, ◌≢◌, refl, none, some, List, [], ◌∷◌, arith}
use luna_os_arm.Evdev.Keymap.{hid_to_linux_key}
use luna_os_arm.Evdev.Keys.{hid_to_linux_key_injective}
use luna_os_arm.Evdev.{
  EvdevDevice, HidValue, HidDevice, Bridge, blank_device, empty_bridge, feed, device_added,
  max_devices,
}
use luna_os_arm.Evdev.Service.{Happening, matched, valued, main, GoesWell, main-GoesWell}

known : hid_to_linux_key 4 ≢ 0
unfolding hid_to_linux_key luna_os_arm.Evdev.Keymap.hid_keyboard_map
known = omega arith

abbrev usage_a : ℕ
usage_a = 4

hid_to_linux_key_injective_example : usage_a ≡ usage_a
hid_to_linux_key_injective_example = hid_to_linux_key_injective usage_a usage_a known refl

abbrev keyboard : HidDevice
keyboard = record { product = 300; usage_page = 1; usage = 6 }

abbrev pad : HidDevice
pad = record { product = 301; usage_page = 13; usage = 5 }

-- A trackpad is plugged in, a keyboard gets no pipe, and two fingers touch the pad.
abbrev happenings : List Happening
happenings =
    matched pad (some (7, 8))
    ∷ matched keyboard none
    ∷ valued 0 (record { usage_page = 13; usage = 81; val = pos 13 })
    ∷ valued 0 (record { usage_page = 13; usage = 48; val = pos 700 })
    ∷ []

main-GoesWell_example : GoesWell (main happenings)
main-GoesWell_example =
    main-GoesWell happenings (λ p u. (13, refl), (λ p u. absurd (omega arith), tt))
