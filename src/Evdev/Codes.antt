-- ===== src/Evdev/Codes.antt =====
-- The event codes of evdev-bridge/linux-input-event-codes.h.
use luna_os_arm.Prelude.{ℕ}

abbrev pub ev_syn : ℕ
ev_syn = 0

abbrev pub ev_key : ℕ
ev_key = 1

abbrev pub ev_rel : ℕ
ev_rel = 2

abbrev pub ev_abs : ℕ
ev_abs = 3

abbrev pub ev_msc : ℕ
ev_msc = 4

abbrev pub rel_x : ℕ
rel_x = 0

abbrev pub rel_y : ℕ
rel_y = 1

abbrev pub rel_wheel : ℕ
rel_wheel = 8

abbrev pub abs_x : ℕ
abs_x = 0

abbrev pub abs_y : ℕ
abs_y = 1

abbrev pub abs_mt_slot : ℕ
abs_mt_slot = 47

abbrev pub abs_mt_position_x : ℕ
abs_mt_position_x = 53

abbrev pub abs_mt_position_y : ℕ
abs_mt_position_y = 54

abbrev pub abs_mt_tracking_id : ℕ
abs_mt_tracking_id = 57

abbrev pub btn_left : ℕ
btn_left = 272

abbrev pub btn_right : ℕ
btn_right = 273

abbrev pub btn_middle : ℕ
btn_middle = 274

abbrev pub btn_touch : ℕ
btn_touch = 330

abbrev pub key_unknown : ℕ
key_unknown = 0

abbrev pub key_esc : ℕ
key_esc = 1

abbrev pub key_1 : ℕ
key_1 = 2

abbrev pub key_2 : ℕ
key_2 = 3

abbrev pub key_3 : ℕ
key_3 = 4

abbrev pub key_4 : ℕ
key_4 = 5

abbrev pub key_5 : ℕ
key_5 = 6

abbrev pub key_6 : ℕ
key_6 = 7

abbrev pub key_7 : ℕ
key_7 = 8

abbrev pub key_8 : ℕ
key_8 = 9

abbrev pub key_9 : ℕ
key_9 = 10

abbrev pub key_0 : ℕ
key_0 = 11

abbrev pub key_minus : ℕ
key_minus = 12

abbrev pub key_equal : ℕ
key_equal = 13

abbrev pub key_backspace : ℕ
key_backspace = 14

abbrev pub key_tab : ℕ
key_tab = 15

abbrev pub key_q : ℕ
key_q = 16

abbrev pub key_w : ℕ
key_w = 17

abbrev pub key_e : ℕ
key_e = 18

abbrev pub key_r : ℕ
key_r = 19

abbrev pub key_t : ℕ
key_t = 20

abbrev pub key_y : ℕ
key_y = 21

abbrev pub key_u : ℕ
key_u = 22

abbrev pub key_i : ℕ
key_i = 23

abbrev pub key_o : ℕ
key_o = 24

abbrev pub key_p : ℕ
key_p = 25

abbrev pub key_leftbrace : ℕ
key_leftbrace = 26

abbrev pub key_rightbrace : ℕ
key_rightbrace = 27

abbrev pub key_enter : ℕ
key_enter = 28

abbrev pub key_leftctrl : ℕ
key_leftctrl = 29

abbrev pub key_a : ℕ
key_a = 30

abbrev pub key_s : ℕ
key_s = 31

abbrev pub key_d : ℕ
key_d = 32

abbrev pub key_f : ℕ
key_f = 33

abbrev pub key_g : ℕ
key_g = 34

abbrev pub key_h : ℕ
key_h = 35

abbrev pub key_j : ℕ
key_j = 36

abbrev pub key_k : ℕ
key_k = 37

abbrev pub key_l : ℕ
key_l = 38

abbrev pub key_semicolon : ℕ
key_semicolon = 39

abbrev pub key_apostrophe : ℕ
key_apostrophe = 40

abbrev pub key_grave : ℕ
key_grave = 41

abbrev pub key_leftshift : ℕ
key_leftshift = 42

abbrev pub key_backslash : ℕ
key_backslash = 43

abbrev pub key_z : ℕ
key_z = 44

abbrev pub key_x : ℕ
key_x = 45

abbrev pub key_c : ℕ
key_c = 46

abbrev pub key_v : ℕ
key_v = 47

abbrev pub key_b : ℕ
key_b = 48

abbrev pub key_n : ℕ
key_n = 49

abbrev pub key_m : ℕ
key_m = 50

abbrev pub key_comma : ℕ
key_comma = 51

abbrev pub key_dot : ℕ
key_dot = 52

abbrev pub key_slash : ℕ
key_slash = 53

abbrev pub key_rightshift : ℕ
key_rightshift = 54

abbrev pub key_leftalt : ℕ
key_leftalt = 56

abbrev pub key_space : ℕ
key_space = 57

abbrev pub key_capslock : ℕ
key_capslock = 58

abbrev pub key_f1 : ℕ
key_f1 = 59

abbrev pub key_f2 : ℕ
key_f2 = 60

abbrev pub key_f3 : ℕ
key_f3 = 61

abbrev pub key_f4 : ℕ
key_f4 = 62

abbrev pub key_f5 : ℕ
key_f5 = 63

abbrev pub key_f6 : ℕ
key_f6 = 64

abbrev pub key_f7 : ℕ
key_f7 = 65

abbrev pub key_f8 : ℕ
key_f8 = 66

abbrev pub key_f9 : ℕ
key_f9 = 67

abbrev pub key_f10 : ℕ
key_f10 = 68

abbrev pub key_f11 : ℕ
key_f11 = 87

abbrev pub key_f12 : ℕ
key_f12 = 88

abbrev pub key_home : ℕ
key_home = 102

abbrev pub key_up : ℕ
key_up = 103

abbrev pub key_pageup : ℕ
key_pageup = 104

abbrev pub key_left : ℕ
key_left = 105

abbrev pub key_right : ℕ
key_right = 106

abbrev pub key_end : ℕ
key_end = 107

abbrev pub key_down : ℕ
key_down = 108

abbrev pub key_pagedown : ℕ
key_pagedown = 109

abbrev pub key_delete : ℕ
key_delete = 111

abbrev pub key_rightctrl : ℕ
key_rightctrl = 97

abbrev pub key_rightalt : ℕ
key_rightalt = 100

abbrev pub key_leftmeta : ℕ
key_leftmeta = 125

abbrev pub key_rightmeta : ℕ
key_rightmeta = 126
