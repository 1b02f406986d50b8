-- ===== src/Evdev/Keys.antt =====
-- The key map is a bijection onto the keys it knows.
use luna_os_arm.Prelude.{
  ℕ, zero, suc, ◌≡◌, ◌≢◌, refl, sym, ◌∙◌, ap, inl, inr, Bool, true, false, not, ◌&&◌, ◌||◌, some,
  List, [], ◌∷◌, ◌==◌, get_elem?, arith, Bool-cases, Option-cases, ltb,
}
use luna_os_arm.Evdev.Codes
use luna_os_arm.Evdev.Keymap.{hid_keyboard_map, hid_to_linux_key}

abbrev has : ℕ → List ℕ → Bool
has k [] = false
has k (x ∷ xs) = (k == x) || has k xs

-- No number but 0 stands in the list twice.
abbrev distinct : List ℕ → Bool
distinct [] = true
distinct (x ∷ xs) = ((x == 0) || not (has x xs)) && distinct xs

has_of-get_elem? : (k : ℕ) (xs : List ℕ) (i : ℕ) → get_elem? xs i ≡ some k → has k xs ≡ true
has_of-get_elem? k [] i e = cc e
has_of-get_elem? k (x ∷ xs) zero e = let same : x ≡ k = cc e in ground arith
has_of-get_elem? k (x ∷ xs) (suc i) e = ground (arith, has_of-get_elem? k xs i e)

distinct_lem :
    (xs : List ℕ) (i j k : ℕ)
    → distinct xs ≡ true
    → k ≢ 0
    → get_elem? xs i ≡ some k
    → get_elem? xs j ≡ some k
    → i ≡ j
distinct_lem [] i j k d pos e f = cc e
distinct_lem (x ∷ xs) zero zero k d pos e f = refl
distinct_lem (x ∷ xs) zero (suc j) k d pos e f =
    let same : x ≡ k = cc e in
    let there = has_of-get_elem? k xs j f in
    let there' : has x xs ≡ true = rw same there in ground arith
distinct_lem (x ∷ xs) (suc i) zero k d pos e f =
    let same : x ≡ k = cc f in
    let there = has_of-get_elem? k xs i e in
    let there' : has x xs ≡ true = rw same there in ground arith
distinct_lem (x ∷ xs) (suc i) (suc j) k d pos e f =
    ap suc (distinct_lem xs i j k (ground arith) pos e f)

hid_keyboard_map-distinct : distinct hid_keyboard_map ≡ true
unfolding hid_keyboard_map
hid_keyboard_map-distinct = refl

found :
    (usage : ℕ)
    → hid_to_linux_key usage ≢ Codes.key_unknown
    → get_elem? hid_keyboard_map usage ≡ some (hid_to_linux_key usage)
unfolding hid_to_linux_key
found usage known = elim (Bool-cases (ltb usage 256)) [
  | inl t ↦ elim (Option-cases (get_elem? hid_keyboard_map usage)) [
    | inl nothing ↦ absurd (known (simp (t, nothing)))
    | inr (k, e) ↦ simp (t, e)
  ]
  | inr f ↦ absurd (known (simp f))
]

-- Two different usages of the keyboard page never have the same Linux key code, unless it is
-- KEY_UNKNOWN.
pub hid_to_linux_key_injective :
    (a b : ℕ)
    → hid_to_linux_key a ≢ Codes.key_unknown
    → hid_to_linux_key a ≡ hid_to_linux_key b
    → a ≡ b
hid_to_linux_key_injective a b known same =
    distinct_lem hid_keyboard_map a b (hid_to_linux_key a) hid_keyboard_map-distinct known
      (found a known) (found b (λ e. known (same ∙ e)) ∙ ap some (sym same))
