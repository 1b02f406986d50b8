-- ===== src/Evdev/Keymap.antt =====
-- The key map of evdev-bridge/darwin-evdev-bridge.c, from HID usages to Linux key codes.
use luna_os_arm.Prelude.{ℕ, ltb, if◌then◌else◌, Option, none, some, List, [], ◌∷◌, get_elem?}
use luna_os_arm.Evdev.Codes

-- `hid_keyboard_map`: the designated entries by usage, 0 in between.
unfoldable pub hid_keyboard_map : List ℕ
hid_keyboard_map =
    0 ∷ 0 ∷ 0 ∷ 0 ∷ Codes.key_a ∷ Codes.key_b ∷ Codes.key_c ∷ Codes.key_d ∷ Codes.key_e
    ∷ Codes.key_f ∷ Codes.key_g ∷ Codes.key_h ∷ Codes.key_i ∷ Codes.key_j ∷ Codes.key_k
    ∷ Codes.key_l ∷ Codes.key_m ∷ Codes.key_n ∷ Codes.key_o ∷ Codes.key_p ∷ Codes.key_q
    ∷ Codes.key_r ∷ Codes.key_s ∷ Codes.key_t ∷ Codes.key_u ∷ Codes.key_v ∷ Codes.key_w
    ∷ Codes.key_x ∷ Codes.key_y ∷ Codes.key_z ∷ Codes.key_1 ∷ Codes.key_2 ∷ Codes.key_3
    ∷ Codes.key_4 ∷ Codes.key_5 ∷ Codes.key_6 ∷ Codes.key_7 ∷ Codes.key_8 ∷ Codes.key_9
    ∷ Codes.key_0 ∷ Codes.key_enter ∷ Codes.key_esc ∷ Codes.key_backspace ∷ Codes.key_tab
    ∷ Codes.key_space ∷ Codes.key_minus ∷ Codes.key_equal ∷ Codes.key_leftbrace
    ∷ Codes.key_rightbrace ∷ Codes.key_backslash ∷ 0 ∷ Codes.key_semicolon ∷ Codes.key_apostrophe
    ∷ Codes.key_grave ∷ Codes.key_comma ∷ Codes.key_dot ∷ Codes.key_slash ∷ Codes.key_capslock
    ∷ Codes.key_f1 ∷ Codes.key_f2 ∷ Codes.key_f3 ∷ Codes.key_f4 ∷ Codes.key_f5 ∷ Codes.key_f6
    ∷ Codes.key_f7 ∷ Codes.key_f8 ∷ Codes.key_f9 ∷ Codes.key_f10 ∷ Codes.key_f11 ∷ Codes.key_f12 ∷ 0
    ∷ 0 ∷ 0 ∷ 0 ∷ Codes.key_home ∷ Codes.key_pageup ∷ Codes.key_delete ∷ Codes.key_end
    ∷ Codes.key_pagedown ∷ Codes.key_right ∷ Codes.key_left ∷ Codes.key_down ∷ Codes.key_up ∷ 0 ∷ 0
    ∷ 0 ∷ 0 ∷ 0 ∷ 0 ∷ 0 ∷ 0 ∷ 0 ∷ 0 ∷ 0 ∷ 0 ∷ 0 ∷ 0 ∷ 0 ∷ 0 ∷ 0 ∷ 0 ∷ 0 ∷ 0 ∷ 0 ∷ 0 ∷ 0 ∷ 0 ∷ 0 ∷ 0
    ∷ 0 ∷ 0 ∷ 0 ∷ 0 ∷ 0 ∷ 0 ∷ 0 ∷ 0 ∷ 0 ∷ 0 ∷ 0 ∷ 0 ∷ 0 ∷ 0 ∷ 0 ∷ 0 ∷ 0 ∷ 0 ∷ 0 ∷ 0 ∷ 0 ∷ 0 ∷ 0 ∷ 0
    ∷ 0 ∷ 0 ∷ 0 ∷ 0 ∷ 0 ∷ 0 ∷ 0 ∷ 0 ∷ 0 ∷ 0 ∷ 0 ∷ 0 ∷ 0 ∷ 0 ∷ 0 ∷ 0 ∷ 0 ∷ 0 ∷ 0 ∷ 0 ∷ 0 ∷ 0 ∷ 0 ∷ 0
    ∷ 0 ∷ 0 ∷ 0 ∷ 0 ∷ 0 ∷ 0 ∷ 0 ∷ 0 ∷ 0 ∷ 0 ∷ 0 ∷ 0 ∷ 0 ∷ 0 ∷ 0 ∷ 0 ∷ 0 ∷ 0 ∷ 0 ∷ 0 ∷ 0 ∷ 0 ∷ 0 ∷ 0
    ∷ 0 ∷ 0 ∷ 0 ∷ 0 ∷ 0 ∷ 0 ∷ 0 ∷ 0 ∷ 0 ∷ 0 ∷ 0 ∷ 0 ∷ 0 ∷ 0 ∷ 0 ∷ 0 ∷ 0 ∷ 0 ∷ 0 ∷ 0 ∷ 0 ∷ 0 ∷ 0 ∷ 0
    ∷ 0 ∷ 0 ∷ 0 ∷ 0 ∷ 0 ∷ 0 ∷ 0 ∷ 0 ∷ 0 ∷ 0 ∷ 0 ∷ 0 ∷ 0 ∷ 0 ∷ 0 ∷ 0 ∷ 0 ∷ 0 ∷ 0 ∷ Codes.key_leftctrl
    ∷ Codes.key_leftshift ∷ Codes.key_leftalt ∷ Codes.key_leftmeta ∷ Codes.key_rightctrl
    ∷ Codes.key_rightshift ∷ Codes.key_rightalt ∷ Codes.key_rightmeta ∷ 0 ∷ 0 ∷ 0 ∷ 0 ∷ 0 ∷ 0 ∷ 0
    ∷ 0 ∷ 0 ∷ 0 ∷ 0 ∷ 0 ∷ 0 ∷ 0 ∷ 0 ∷ 0 ∷ 0 ∷ 0 ∷ 0 ∷ 0 ∷ 0 ∷ 0 ∷ 0 ∷ 0 ∷ []

abbrev or_zero : Option ℕ → ℕ
or_zero none = 0
or_zero (some k) = k

-- `hid_to_linux_key`
unfoldable pub hid_to_linux_key : ℕ → ℕ
hid_to_linux_key usage =
    if ltb usage 256 then or_zero (get_elem? hid_keyboard_map usage) else Codes.key_unknown
