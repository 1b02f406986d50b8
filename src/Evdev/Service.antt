-- ===== src/Evdev/Service.antt =====
-- The bridge as it runs (evdev-bridge/darwin-evdev-bridge.c: main): what its run loop delivers, in any
-- order, from the empty table on.
use luna_os_arm.Prelude.{
  ℕ, ◌<◌, ◌≡◌, sym, ◌∙◌, ap, subst, inl, inr, Option, none, some, List, [], ◌∷◌, ◌++◌, map, ◌>>=◌,
  ltb, ltb→lt, set, arith, Bool-cases, length-set, get_elem?, if◌then◌else◌, get_elem?-set_ne,
  get_elem?-set_self, bind-some, length-replicate, get_elem?_of_lt, lt-length_of_get_elem?,
}
use native.Mathlib.Decide.{ℕ_discrete}
use luna_os_arm.Evdev.{
  EvdevDevice, HidValue, InputEvent, HidDevice, Bridge, empty_bridge, blank_device, max_devices,
  device_added, hid_value_callback, touch_events,
}
use luna_os_arm.Evdev.Touch.{
  IsReady, HasContact, GoesOn-cases, touch_events-GoesOn, IsCounted, device_added-IsCounted,
}

-- What the run loop delivers: IOHIDManager matches a device, for which `pipe` answers, or the device
-- in a slot gives a value.
pub data Happening : Type 0 where
  matched : HidDevice → Option (ℕ × ℕ) → Happening
  valued : (slot : ℕ) → HidValue → Happening

-- The events that are written, each with the descriptor of the pipe.
abbrev pub Written : Type 0
Written = List (ℕ × InputEvent)

-- The callback runs on the entry of the table that was registered with it.
abbrev pub deliver : ℕ → HidValue → Bridge → Option EvdevDevice → Option (Bridge × Written)
deliver slot v b none = some (b, [])
deliver slot v b (some dev) = do
  (dev', out) ← hid_value_callback dev v
  some (record b { devices = set b.devices slot dev' }, map (λ e. (dev.pipe_w, e)) out)

-- Only a device that is counted has its callback registered.
unfoldable pub happen : Happening → Bridge → Option (Bridge × Written)
happen (matched hid fds) b = some ((device_added hid fds b).0, [])
happen (valued slot v) b =
    if ltb slot b.count then deliver slot v b (get_elem? b.devices slot) else some (b, [])

unfoldable pub run_from : List Happening → Bridge → Option (Bridge × Written)
run_from [] b = some (b, [])
run_from (h ∷ hs) b = do
  (b', out) ← happen h b
  (b'', more) ← run_from hs b'
  some (b'', out ++ more)

-- `main`: `none` is a store outside the touch arrays of a device.
unfoldable pub main : List Happening → Option (Bridge × Written)
main hs = run_from hs empty_bridge

-- No touch value has a negative contact identifier.
abbrev pub AllHaveContacts : List Happening → Type 0
AllHaveContacts [] = Unit
AllHaveContacts (matched hid fds ∷ hs) = AllHaveContacts hs
AllHaveContacts (valued slot v ∷ hs) = HasContact v × AllHaveContacts hs

touch_events-slot :
    (dev dev' : EvdevDevice) (v : HidValue) (out : List InputEvent)
    → touch_events dev v ≡ some (dev', out)
    → dev'.slot ≡ dev.slot
touch_events-slot dev dev' v out e = ground arith

callback-slot :
    (dev dev' : EvdevDevice) (v : HidValue) (out : List InputEvent)
    → hid_value_callback dev v ≡ some (dev', out)
    → dev'.slot ≡ dev.slot
unfolding hid_value_callback
callback-slot dev dev' v out e =
    let ((dev1, out1), touched, e') = bind-some (touch_events dev v) e in
    let same : dev1 ≡ dev' = cc in
    ap (λ (d : EvdevDevice). d.slot) (sym same) ∙ touch_events-slot dev dev1 v out1 touched

-- A happening leaves no store outside an array, and the table in order.
abbrev pub GoesWell : Option (Bridge × Written) → Type 0
GoesWell none = ⊥
GoesWell (some (b, out)) = IsCounted b

GoesWell-bind :
    (o : Option (Bridge × Written)) (f : Bridge × Written → Option (Bridge × Written))
    → GoesWell o
    → ((b : Bridge) (out : Written) → IsCounted b → GoesWell (f (b, out)))
    → GoesWell (o >>= f)
GoesWell-bind none f g then_well = elim g [ ]
GoesWell-bind (some (b, out)) f g then_well = then_well b out g

set-IsCounted :
    (b : Bridge) (slot : ℕ) (dev dev' : EvdevDevice)
    → IsCounted b
    → slot < b.count
    → get_elem? b.devices slot ≡ some dev
    → dev'.slot ≡ dev.slot
    → IsReady dev'
    → IsCounted (record b { devices = set b.devices slot dev' })
set-IsCounted b slot dev dev' c inside at slots ready = record {
  room = length-set b.devices slot dev' ∙ c.room;
  few = c.few;
  numbered = λ i other lt e. elim (ℕ_discrete slot i) [
    | yes same ↦
        let here =
          get_elem?-set_self b.devices slot dev' (lt-length_of_get_elem? b.devices slot at) in
        let it : dev' ≡ other = cc (here, e, same) in
        subst (λ (x : EvdevDevice). (x.slot ≡ i) × IsReady x) it
          (slots ∙ (c.numbered slot dev inside at).0 ∙ same, ready)
    | no apart ↦ c.numbered i other lt (sym (get_elem?-set_ne b.devices slot i dev' apart) ∙ e)
  ];
}

deliver-GoesWell :
    (slot : ℕ) (v : HidValue) (b : Bridge) (dev : EvdevDevice)
    → IsCounted b
    → HasContact v
    → slot < b.count
    → get_elem? b.devices slot ≡ some dev
    → GoesWell (deliver slot v b (some dev))
unfolding hid_value_callback
deliver-GoesWell slot v b dev c contact inside at =
    let (numbered, ready) = c.numbered slot dev inside at in
    let (dev', out, e, ready') =
      GoesOn-cases (touch_events dev v) (touch_events-GoesOn dev v ready contact) in
    simp e (set-IsCounted b slot dev dev' c inside at (touch_events-slot dev dev' v out e) ready')

valued-GoesWell :
    (slot : ℕ) (v : HidValue) (b : Bridge)
    → IsCounted b
    → HasContact v
    → GoesWell (happen (valued slot v) b)
unfolding happen
valued-GoesWell slot v b c contact = elim (Bool-cases (ltb slot b.count)) [
  | inr out ↦ simp out c
  | inl counted ↦
      let inside = ltb→lt slot b.count counted in
      let (dev, at) = get_elem?_of_lt b.devices slot (omega (arith, c.room, c.few)) in
      simp (counted, at) (deliver-GoesWell slot v b dev c contact inside at)
]

matched-GoesWell :
    (hid : HidDevice) (fds : Option (ℕ × ℕ)) (b : Bridge)
    → IsCounted b
    → GoesWell (happen (matched hid fds) b)
unfolding happen
matched-GoesWell hid fds b c = device_added-IsCounted hid fds b c

run_from-GoesWell :
    (hs : List Happening) (b : Bridge) → IsCounted b → AllHaveContacts hs → GoesWell (run_from hs b)
unfolding run_from
run_from-GoesWell [] b c contacts = c
run_from-GoesWell (matched hid fds ∷ hs) b c contacts =
    GoesWell-bind (happen (matched hid fds) b) _ (matched-GoesWell hid fds b c) (λ b' out c'.
      GoesWell-bind (run_from hs b') _ (run_from-GoesWell hs b' c' contacts) (λ b'' more c''. c''))
run_from-GoesWell (valued slot v ∷ hs) b c contacts =
    GoesWell-bind (happen (valued slot v) b) _ (valued-GoesWell slot v b c contacts.0) (λ b' out c'.
      GoesWell-bind (run_from hs b') _ (run_from-GoesWell hs b' c' contacts.1)
        (λ b'' more c''. c''))

empty-IsCounted : IsCounted empty_bridge
empty-IsCounted = record {
  room = length-replicate max_devices blank_device;
  few = omega arith;
  numbered = λ i dev lt e. absurd (omega arith);
}

-- Devices come, with or without a pipe, and values of any devices, in any order, from the start of
-- the bridge on; no contact identifier is negative as an `int`. Then no store goes outside the
-- touch arrays of a device, and the table of devices is in order in the end.
pub main-GoesWell : (hs : List Happening) → AllHaveContacts hs → GoesWell (main hs)
unfolding main
main-GoesWell hs contacts = run_from-GoesWell hs empty_bridge empty-IsCounted contacts
