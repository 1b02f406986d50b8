-- ===== src/Evdev/Touch.antt =====
-- The touch state of a device: every contact slot lies inside `mt_x` and `mt_y`.
use luna_os_arm.Prelude.{
  ℕ, ◌+◌, ◌<◌, ◌%◌, ℤ, pos, negsuc, ◌≡◌, refl, sym, ◌∙◌, ap, subst, inl, inr, true, ◌&&◌, Option,
  none, some, List, [], ◌∷◌, ◌==◌, ltb, length, set, arith, Bool-cases, length-set, get_elem?,
  get_elem?-set_ne, get_elem?-set_self, Option-cases, ◌≤◌,
}
use native.Mathlib.Decide.{ℕ_discrete}
use luna_os_arm.Evdev.{
  EvdevDevice, HidValue, InputEvent, max_contacts, page_digitizer, dig_contact_identifier,
  dig_tip_switch, gd_x, gd_y, hid_value_callback, feed, int32, rem10, store, touch_events,
  device_added, Bridge, HidDevice, max_devices,
}

-- The arrays have their ten entries, and the current contact is one of them.
pub record IsReady (dev : EvdevDevice) : Type 0 where
  pub contact : ℕ
  pub current : dev.mt_slot ≡ pos contact
  pub bound : contact < max_contacts
  pub xs : length dev.mt_x ≡ max_contacts
  pub ys : length dev.mt_y ≡ max_contacts

-- A contact identifier is not negative as an `int`.
abbrev pub HasContact : HidValue → Type 0
HasContact v =
    v.usage_page ≡ page_digitizer
    → v.usage ≡ dig_contact_identifier
    → (n : ℕ) × (int32 v.val ≡ pos n)

abbrev pub HaveContacts : List HidValue → Type 0
HaveContacts [] = Unit
HaveContacts (v ∷ vs) = HasContact v × HaveContacts vs

-- No store went outside an array, and the device is ready again.
abbrev pub GoesOn : Option (EvdevDevice × List InputEvent) → Type 0
GoesOn none = ⊥
GoesOn (some (dev, out)) = IsReady dev

store_lem :
    (xs : List ℤ) (i : ℤ) (n : ℕ) (v : ℤ)
    → i ≡ pos n
    → n < length xs
    → store xs i v ≡ some (set xs n v)
store_lem xs (pos i) n v e h =
    let same : i ≡ n = cc e in
    let inside : ltb n (length xs) ≡ true = ground arith in simp (same, inside)
store_lem xs (negsuc i) n v e h = cc e

pub touch_events-GoesOn :
    (dev : EvdevDevice) (v : HidValue) → IsReady dev → HasContact v → GoesOn (touch_events dev v)
touch_events-GoesOn dev v r c =
    elim (Bool-cases ((v.usage_page == page_digitizer) && dev.is_touch)) [
      | inr f ↦ simp f r
      | inl t ↦ elim (Bool-cases (v.usage == dig_tip_switch)) [
        | inl tip ↦ simp (t, tip) r
        | inr a ↦ elim (Bool-cases (v.usage == gd_x)) [
          | inl x ↦
              simp
                (
                  t,
                  a,
                  x,
                  store_lem dev.mt_x dev.mt_slot r.contact (int32 v.val) r.current (omega arith),
                )
                (record {
                  contact = r.contact;
                  current = r.current;
                  bound = r.bound;
                  xs = length-set dev.mt_x r.contact (int32 v.val) ∙ r.xs;
                  ys = r.ys;
                })
          | inr b ↦ elim (Bool-cases (v.usage == gd_y)) [
            | inl y ↦
                simp
                  (
                    t,
                    a,
                    b,
                    y,
                    store_lem dev.mt_y dev.mt_slot r.contact (int32 v.val) r.current (omega arith),
                  )
                  (record {
                    contact = r.contact;
                    current = r.current;
                    bound = r.bound;
                    xs = r.xs;
                    ys = length-set dev.mt_y r.contact (int32 v.val) ∙ r.ys;
                  })
            | inr d ↦ elim (Bool-cases (v.usage == dig_contact_identifier)) [
              | inl id ↦
                  let (n, e) = c (ground arith) (ground arith) in
                  simp (t, a, b, d, id)
                    (record {
                      contact = n % 10;
                      current = ap rem10 e;
                      bound = omega arith;
                      xs = r.xs;
                      ys = r.ys;
                    })
              | inr e ↦ simp (t, a, b, d, e) r
            ]
          ]
        ]
      ]
    ]

pub GoesOn-cases :
    (o : Option (EvdevDevice × List InputEvent))
    → GoesOn o
    → (dev : EvdevDevice) × (out : List InputEvent) × (o ≡ some (dev, out)) × IsReady dev
GoesOn-cases none r = elim r [ ]
GoesOn-cases (some (dev, out)) r = (dev, out, refl, r)

-- A touch device that starts ready never stores outside `mt_x` or `mt_y`, whatever values it
-- sends, as long as no contact identifier is negative as an `int`.
pub feed-GoesOn :
    (dev : EvdevDevice) (vs : List HidValue) → IsReady dev → HaveContacts vs → GoesOn (feed dev vs)
unfolding feed hid_value_callback
feed-GoesOn dev [] r c = r
feed-GoesOn dev (v ∷ vs) r c =
    let (dev', out, e, r') =
      GoesOn-cases (touch_events dev v) (touch_events-GoesOn dev v r (c.0)) in
    let (dev'', more, e', r'') = GoesOn-cases (feed dev' vs) (feed-GoesOn dev' vs r' (c.1)) in
    simp (e, e') r''

-- The bridge counts at most 32 devices, its table has room for them, and the device counted as
-- number `i` has slot `i`.
pub record IsCounted (b : Bridge) : Type 0 where
  pub room : length b.devices ≡ max_devices
  pub few : b.count ≤ max_devices
  pub numbered :
      (i : ℕ) (dev : EvdevDevice)
      → i < b.count
      → get_elem? b.devices i ≡ some dev
      → (dev.slot ≡ i) × IsReady dev

put-IsCounted :
    (b : Bridge) (dev : EvdevDevice)
    → IsCounted b
    → b.count < max_devices
    → dev.slot ≡ b.count
    → IsReady dev
    → IsCounted (record { devices = set b.devices b.count dev; count = b.count + 1 })
put-IsCounted b dev c space is_numbered r = record {
  room = length-set b.devices b.count dev ∙ c.room;
  few = omega arith;
  numbered = λ i dev' lt e. elim (ℕ_discrete b.count i) [
    | yes same ↦
        let here = get_elem?-set_self b.devices b.count dev (omega (arith, c.room)) in
        let it : dev ≡ dev' = cc (here, e, same) in
        subst (λ (x : EvdevDevice). (x.slot ≡ i) × IsReady x) it (is_numbered ∙ same, r)
    | no other ↦
        c.numbered i dev' (omega arith) (sym (get_elem?-set_ne b.devices b.count i dev other) ∙ e)
  ];
}

-- `device_added` keeps the table of devices in order, whether the pipe is made or not: at most
-- 32 are counted, the table has room for them, and the device at index `i` below the count has
-- slot `i` and is ready for touch values.
pub device_added-IsCounted :
    (hid : HidDevice) (fds : Option (ℕ × ℕ)) (b : Bridge)
    → IsCounted b
    → IsCounted (device_added hid fds b).0
unfolding device_added
device_added-IsCounted hid fds b c = elim (Bool-cases (ltb b.count max_devices)) [
  | inr f ↦ simp f c
  | inl t ↦ elim (Option-cases fds) [
    | inl fails ↦
        simp (t, fails)
          (record {
            room = length-set b.devices b.count _ ∙ c.room;
            few = c.few;
            numbered = λ i dev lt e.
                c.numbered i dev lt
                  (sym (get_elem?-set_ne b.devices b.count i _ (omega arith)) ∙ e);
          })
    | inr ((r, w), made) ↦
        simp (t, made)
          (put-IsCounted b _ c (ground arith) refl
            (record { contact = 0; current = refl; bound = omega arith; xs = refl; ys = refl }))
  ]
]
