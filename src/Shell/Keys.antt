-- ===== src/Shell/Keys.antt =====
-- The keys of evdev-bridge/darwin-evdev-bridge.c as `kb_key` of shell/src/luna-shell-main.c
-- takes them.
use luna_os_arm.Prelude.{ℕ, ◌≡◌, ◌≢◌, refl, true, false, not, ◌||◌, ◌==◌, if◌then◌else◌, arith}
use native.Mathlib.Decide.{ℕ_discrete}
use luna_os_arm.Evdev.Keymap.{hid_keyboard_map, hid_to_linux_key}
use luna_os_arm.Evdev.Keys.{hid_to_linux_key_injective}
use luna_os_arm.Shell.Main.{Shell, kb_key}

-- The usages of the keyboard page that the HID tables give to the keys.
abbrev pub usage_escape : ℕ
usage_escape = 41

abbrev pub usage_left_gui : ℕ
usage_left_gui = 227

abbrev pub usage_right_gui : ℕ
usage_right_gui = 231

-- A key code has one usage.
only :
    (usage known code : ℕ)
    → hid_to_linux_key known ≡ code
    → code ≢ 0
    → (hid_to_linux_key usage ≡ code)
    → usage ≡ known
only usage known code at used e = hid_to_linux_key_injective usage known (λ z. used (cc)) cc

at_escape : hid_to_linux_key usage_escape ≡ 1
unfolding hid_to_linux_key hid_keyboard_map
at_escape = refl

at_left : hid_to_linux_key usage_left_gui ≡ 125
unfolding hid_to_linux_key hid_keyboard_map
at_left = refl

at_right : hid_to_linux_key usage_right_gui ≡ 126
unfolding hid_to_linux_key hid_keyboard_map
at_right = refl

-- On the press of a key with the code that the bridge has for a usage of the keyboard page, the
-- shell toggles its launcher for the two GUI keys, hides it for Escape, and for every other
-- usage leaves what is visible as it was.
pub kb_key-hid_to_linux_key :
    (usage : ℕ) (s : Shell)
    → (kb_key (hid_to_linux_key usage) true s).launcher_visible ≡ (
        if (usage == usage_left_gui) || (usage == usage_right_gui)
        then not s.launcher_visible
        else if usage == usage_escape
        then false
        else s.launcher_visible)
unfolding kb_key
kb_key-hid_to_linux_key usage s = elim (ℕ_discrete usage usage_left_gui) [
  | yes left ↦ rw left (simp at_left refl)
  | no nl ↦ elim (ℕ_discrete usage usage_right_gui) [
    | yes right ↦ rw right (simp at_right refl)
    | no nr ↦ elim (ℕ_discrete usage usage_escape) [
      | yes escape ↦ rw escape (simp at_escape refl)
      | no ne ↦ ground (
        arith,
        (λ (e : hid_to_linux_key usage ≡ 125).
            nl (only usage usage_left_gui 125 at_left (omega arith) e)),
        (λ (e : hid_to_linux_key usage ≡ 126).
            nr (only usage usage_right_gui 126 at_right (omega arith) e)),
        (λ (e : hid_to_linux_key usage ≡ 1).
            ne (only usage usage_escape 1 at_escape (omega arith) e)),
      )
    ]
  ]
]
