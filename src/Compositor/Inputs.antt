-- ===== src/Compositor/Inputs.antt =====
-- The input devices of the compositor (compositor/src/main.c: server_new_input,
-- handle_keyboard_modifiers, handle_cursor_axis, and the keyboard that handle_keyboard_key asks
-- for). The seat is wlroots': a parameter with its documented behaviour.
pub mod Laws
use luna_os_arm.Prelude.{
  ℕ, ◌+◌, ◌≡◌, Bool, true, false, Option, none, some, List, [], ◌∷◌, ◌++◌, if◌then◌else◌, ◌>>=◌,
}
use luna_os_arm.Compositor.{Server, Action, Symbol, handle_keyboard_key}

-- wlr_seat_set_keyboard and wlr_seat_get_keyboard: the seat has the keyboard that was set last.
pub record Seats : Type 1 where
  pub Seat : Type 0
  pub set_keyboard : ℕ → Seat → Seat
  pub get_keyboard : Seat → Option ℕ
  pub get-set : (k : ℕ) (s : Seat) → get_keyboard (set_keyboard k s) ≡ some k

-- `struct wlr_input_device` by its type.
pub data Device : Type 0 where
  keyboard : ℕ → Device
  pointer : ℕ → Device
  other : ℕ → Device

-- `struct wlr_pointer_axis_event`; a double is the number of its bits.
pub record Axis : Type 0 where
  pub time_msec : ℕ
  pub orientation : ℕ
  pub delta : ℕ
  pub delta_discrete : ℕ
  pub source : ℕ

-- What the handlers ask of wlroots and xkbcommon.
pub data Request : Type 0 where
  context_made : Request
  keymap_made : Request
  keymap_set : ℕ → Request
  keymap_released : Request
  context_released : Request
  repeat_info_set : (keyboard rate delay : ℕ) → Request
  key_listened : ℕ → Request
  modifiers_listened : ℕ → Request
  keyboard_set : ℕ → Request
  pointer_attached : ℕ → Request
  capabilities_set : ℕ → Request
  modifiers_notified : ℕ → Request
  axis_notified : (event : Axis) (direction : ℕ) → Request

-- `WL_SEAT_CAPABILITY_POINTER` and `WL_SEAT_CAPABILITY_KEYBOARD` are the bits 1 and 2.
abbrev pub capabilities : Bool → ℕ
capabilities has_keyboards = 1 + (if has_keyboards then 2 else 0)

-- The case WLR_INPUT_DEVICE_KEYBOARD.
abbrev pub keyboard_requests : ℕ → List Request
keyboard_requests kb =
    context_made
    ∷ keymap_made
    ∷ keymap_set kb
    ∷ keymap_released
    ∷ context_released
    ∷ repeat_info_set kb 25 600
    ∷ key_listened kb
    ∷ modifiers_listened kb
    ∷ keyboard_set kb
    ∷ []

-- `handle_cursor_axis`
unfoldable pub handle_cursor_axis : Axis → List Request
handle_cursor_axis event = axis_notified event 0 ∷ []

-- The events that reach these handlers: `from` is the keyboard that raised one.
pub data Event : Type 0 where
  added : (has_keyboards : Bool) → Device → Event
  modifiers_changed : (from : ℕ) → Event
  axis_moved : Axis → Event

module _ (w : Seats) where
  open w use {Seat, set_keyboard, get_keyboard}

  -- The seat, and whether the server's two keyboard listeners are on the signals of a keyboard.
  pub record Inputs : Type 0 where
    pub seat : Seat
    pub listening : Bool

  -- `server_new_input`: `has_keyboards` is the answer of wl_list_empty on the seat's keyboards. With a
  -- second keyboard wl_signal_add links listeners that are in the lists of the first, which breaks
  -- these: that is `none`. No device is removed.
  unfoldable pub server_new_input :
      (has_keyboards : Bool) → Device → Inputs → Option (Inputs × List Request)
  server_new_input has_keyboards (keyboard kb) s =
      if s.listening
      then none
      else some (
        record { seat = set_keyboard kb s.seat; listening = true },
        keyboard_requests kb ++ (capabilities_set (capabilities has_keyboards) ∷ []),
      )
  server_new_input has_keyboards (pointer n) s =
      some (s, pointer_attached n ∷ capabilities_set (capabilities has_keyboards) ∷ [])
  server_new_input has_keyboards (other n) s =
      some (s, capabilities_set (capabilities has_keyboards) ∷ [])

  abbrev pub notify_modifiers : Option ℕ → Seat → Seat × List Request
  notify_modifiers none s = (s, [])
  notify_modifiers (some kb) s = (set_keyboard kb s, keyboard_set kb ∷ modifiers_notified kb ∷ [])

  -- `handle_keyboard_modifiers`
  unfoldable pub handle_keyboard_modifiers : Seat → Seat × List Request
  handle_keyboard_modifiers s = notify_modifiers (get_keyboard s) s

  unfoldable pub handle : Event → Inputs → Option (Inputs × List Request)
  handle (added has_keyboards device) s = server_new_input has_keyboards device s
  handle (modifiers_changed from) s =
      let (seat, out) = handle_keyboard_modifiers s.seat in some (record s { seat = seat }, out)
  handle (axis_moved event) s = some (s, handle_cursor_axis event)

  unfoldable pub run : List Event → Inputs → Option (Inputs × List Request)
  run [] s = some (s, [])
  run (e ∷ es) s = do (s', out) ← handle e s; (s'', more) ← run es s'; some (s'', out ++ more)

  abbrev pub key_of :
      (pressed : Bool) (state : ℕ → Bool × Bool × List Symbol)
      → Option ℕ
      → Server
      → Server × List Action
  key_of pressed state none server = (server, [])
  key_of pressed state (some kb) server =
      handle_keyboard_key pressed (state kb).0 (state kb).1 (state kb).2 server

  -- `handle_keyboard_key` from its first line: `state` gives for a keyboard whether Super and Shift
  -- are held on it and the key symbols that its xkb state has for the key.
  unfoldable pub handle_key :
      (pressed : Bool) (state : ℕ → Bool × Bool × List Symbol)
      → Seat
      → Server
      → Server × List Action
  handle_key pressed state s server = key_of pressed state (get_keyboard s) server
