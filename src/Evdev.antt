-- ===== src/Evdev.antt =====
-- The HID bridge (evdev-bridge/darwin-evdev-bridge.c): its key map, the devices it keeps and the
-- events that it writes for a HID value. The time of an event is not modelled.
pub mod Codes
pub mod Keymap
pub mod Keys
pub mod Touch
pub mod Service
mod Tests
use luna_os_arm.Prelude.{
  ℕ, zero, suc, ◌+◌, ◌-◌, ◌%◌, ◌^◌, ℤ, pos, negsuc, negate, Bool, true, false, Option, none, some,
  List, [], ◌∷◌, ◌++◌, ◌==◌, ◌&&◌, ◌||◌, ltb, if◌then◌else◌, ◌>>=◌, set, replicate, length, u16,
}
use luna_os_arm.Prelude.Text.{codes, decimal}
use luna_os_arm.Evdev.Keymap.{hid_to_linux_key}

abbrev pub max_devices : ℕ
max_devices = 32

abbrev pub max_contacts : ℕ
max_contacts = 10

-- The HID usage pages and usages that the bridge reads (USB HID Usage Tables).
abbrev pub page_generic_desktop : ℕ
page_generic_desktop = 1

abbrev pub page_keyboard : ℕ
page_keyboard = 7

abbrev pub page_button : ℕ
page_button = 9

abbrev pub page_digitizer : ℕ
page_digitizer = 13

abbrev pub page_apple_vendor : ℕ
page_apple_vendor = 65281

abbrev pub gd_pointer : ℕ
gd_pointer = 1

abbrev pub gd_mouse : ℕ
gd_mouse = 2

abbrev pub gd_keyboard : ℕ
gd_keyboard = 6

abbrev pub gd_x : ℕ
gd_x = 48

abbrev pub gd_y : ℕ
gd_y = 49

abbrev pub gd_wheel : ℕ
gd_wheel = 56

abbrev pub dig_tip_switch : ℕ
dig_tip_switch = 66

abbrev pub dig_contact_identifier : ℕ
dig_contact_identifier = 81

-- `struct input_event` without its time.
pub record InputEvent : Type 0 where
  pub type : ℕ
  pub code : ℕ
  pub value : ℤ

-- `struct evdev_device` without `mt_contact`, which nothing reads or writes.
pub record EvdevDevice : Type 0 where
  pub slot : ℕ
  pub pipe_r : ℕ
  pub pipe_w : ℕ
  pub path : List ℕ
  pub product_id : ℕ
  pub is_keyboard : Bool
  pub is_pointer : Bool
  pub is_touch : Bool
  pub mt_x : List ℤ
  pub mt_y : List ℤ
  pub mt_slot : ℤ

-- What `IOHIDValueGetElement` and its accessors give.
pub record HidValue : Type 0 where
  pub usage_page : ℕ
  pub usage : ℕ
  pub val : ℤ

-- A 32-bit word read as `int32_t`.
abbrev signed : ℕ → ℤ
signed m = if ltb m (2 ^ 31) then pos m else negate (2 ^ 32 - m)

-- `(int32_t)val` of a `CFIndex`.
abbrev pub int32 : ℤ → ℤ
int32 (pos n) = signed (n % 2 ^ 32)
int32 (negsuc n) = signed (2 ^ 32 - 1 - n % 2 ^ 32)

-- `n % 10` of C, which has the sign of `n`.
abbrev pub rem10 : ℤ → ℤ
rem10 (pos n) = pos (n % 10)
rem10 (negsuc n) = negate ((n + 1) % 10)

-- `val ? 1 : 0`
abbrev pub pressed : ℤ → ℤ
pressed (pos zero) = pos 0
pressed (pos (suc n)) = pos 1
pressed (negsuc n) = pos 1

abbrev pub event : ℕ → ℕ → ℤ → InputEvent
event type code value = record { type = type; code = code; value = value }

abbrev pub sync_event : InputEvent
sync_event = event Codes.ev_syn 0 (pos 0)

-- `xs[i] = v` of an array of ten: `none` is a store outside it.
abbrev pub store : List ℤ → ℤ → ℤ → Option (List ℤ)
store xs (pos i) v = if ltb i (length xs) then some (set xs i v) else none
store xs (negsuc i) v = none

abbrev keyboard_events : EvdevDevice → HidValue → List InputEvent
keyboard_events dev v =
    if (v.usage_page == page_keyboard) && dev.is_keyboard
    then if hid_to_linux_key v.usage == Codes.key_unknown
      then []
      else event Codes.ev_key (hid_to_linux_key v.usage) (pressed v.val) ∷ sync_event ∷ []
    else []

abbrev globe_events : HidValue → List InputEvent
globe_events v =
    if (v.usage_page == page_apple_vendor) && (v.usage == 3)
    then event Codes.ev_key Codes.key_leftmeta (pressed v.val) ∷ sync_event ∷ []
    else []

abbrev motion_events : EvdevDevice → HidValue → List InputEvent
motion_events dev v =
    if (v.usage_page == page_generic_desktop) && dev.is_pointer
    then if v.usage == gd_x
      then event Codes.ev_rel Codes.rel_x (int32 v.val) ∷ []
      else if v.usage == gd_y
      then event Codes.ev_rel Codes.rel_y (int32 v.val) ∷ []
      else if v.usage == gd_wheel
      then event Codes.ev_rel Codes.rel_wheel (int32 v.val) ∷ []
      else []
    else []

abbrev button : ℕ → ℕ
button usage =
    if usage == 1 then Codes.btn_left else if usage == 2 then Codes.btn_right else Codes.btn_middle

abbrev button_events : EvdevDevice → HidValue → List InputEvent
button_events dev v =
    if (v.usage_page == page_button) && dev.is_pointer
    then event Codes.ev_key (button v.usage) (pressed v.val) ∷ sync_event ∷ []
    else []

-- The device after a touch value, and the events written: `none` is a store outside an array.
abbrev Touched : Type 0
Touched = Option (EvdevDevice × List InputEvent)

abbrev touch_at : EvdevDevice → ℕ → ℕ → ℤ → Option (List ℤ) → (List ℤ → EvdevDevice) → Touched
touch_at dev mt code val none put = none
touch_at dev mt code val (some xs) put =
    some (put xs, event Codes.ev_abs mt val ∷ event Codes.ev_abs code val ∷ sync_event ∷ [])

abbrev touch : EvdevDevice → HidValue → Touched
touch dev v =
    if v.usage == dig_tip_switch
    then some (dev, event Codes.ev_key Codes.btn_touch (pressed v.val) ∷ sync_event ∷ [])
    else if v.usage == gd_x
    then touch_at dev Codes.abs_mt_position_x Codes.abs_x (int32 v.val)
        (store dev.mt_x dev.mt_slot (int32 v.val)) (λ xs. record dev { mt_x = xs })
    else if v.usage == gd_y
    then touch_at dev Codes.abs_mt_position_y Codes.abs_y (int32 v.val)
        (store dev.mt_y dev.mt_slot (int32 v.val)) (λ ys. record dev { mt_y = ys })
    else if v.usage == dig_contact_identifier
    then some (
      record dev { mt_slot = rem10 (int32 v.val) },
      event Codes.ev_abs Codes.abs_mt_slot (rem10 (int32 v.val)) ∷ sync_event ∷ [],
    )
    else some (dev, sync_event ∷ [])

abbrev pub touch_events : EvdevDevice → HidValue → Touched
touch_events dev v =
    if (v.usage_page == page_digitizer) && dev.is_touch then touch dev v else some (dev, [])

-- What `hid_value_callback` writes before it comes to the digitizer page.
abbrev pub key_and_pointer_events : EvdevDevice → HidValue → List InputEvent
key_and_pointer_events dev v =
    keyboard_events dev v ++ globe_events v ++ motion_events dev v ++ button_events dev v

-- `hid_value_callback`: the device and the events written to its pipe; `none` is a store outside
-- `mt_x` or `mt_y`.
unfoldable pub hid_value_callback : EvdevDevice → HidValue → Option (EvdevDevice × List InputEvent)
hid_value_callback dev v = do
  (dev', out) ← touch_events dev v
  some (dev', key_and_pointer_events dev v ++ out)

-- The values of one device, in the order in which the run loop delivers them.
unfoldable pub feed : EvdevDevice → List HidValue → Option (EvdevDevice × List InputEvent)
feed dev [] = some (dev, [])
feed dev (v ∷ vs) = do
  (dev', out) ← hid_value_callback dev v
  (dev'', more) ← feed dev' vs
  some (dev'', out ++ more)

-- `memset(dev, 0, sizeof(*dev))`
abbrev pub blank_device : EvdevDevice
blank_device = record {
  slot = 0;
  pipe_r = 0;
  pipe_w = 0;
  path = [];
  product_id = 0;
  is_keyboard = false;
  is_pointer = false;
  is_touch = false;
  mt_x = replicate max_contacts (pos 0);
  mt_y = replicate max_contacts (pos 0);
  mt_slot = pos 0;
}

-- `g_devices` and `g_device_count`.
pub record Bridge : Type 0 where
  pub devices : List EvdevDevice
  pub count : ℕ

abbrev pub empty_bridge : Bridge
empty_bridge = record { devices = replicate max_devices blank_device; count = 0 }

-- The properties of a HID device, 0 for one that it does not have.
pub record HidDevice : Type 0 where
  pub product : ℕ
  pub usage_page : ℕ
  pub usage : ℕ

abbrev pub recognised : ℕ → HidDevice → EvdevDevice
recognised slot hid = record blank_device {
  slot = slot;
  product_id = u16 hid.product;
  is_keyboard = (hid.usage_page == page_generic_desktop) && (hid.usage == gd_keyboard);
  is_pointer =
      (hid.usage_page == page_generic_desktop)
      && ((hid.usage == gd_mouse) || (hid.usage == gd_pointer));
  is_touch = hid.usage_page == page_digitizer;
}

abbrev pub node_path : ℕ → List ℕ
node_path slot = codes "/dev/input/event" ++ decimal 10 slot

-- `device_added`, with the result of `pipe`; what it starts to call back is the `some`.
unfoldable pub device_added : HidDevice → Option (ℕ × ℕ) → Bridge → Bridge × Option ℕ
device_added hid fds b =
    if ltb b.count max_devices
    then elim fds [
      | none ↦ (record b { devices = set b.devices b.count (recognised b.count hid) }, none)
      | some (r, w) ↦ (
        record {
          devices = set b.devices b.count (record (recognised b.count hid) {
            pipe_r = r;
            pipe_w = w;
            path = node_path b.count;
          });
          count = b.count + 1;
        },
        some b.count,
      )
    ]
    else (b, none)
