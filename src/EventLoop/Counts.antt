-- ===== src/EventLoop/Counts.antt =====
-- Counting the GCD sources of the event loop: those created, those released, those in the array.
use luna_os_arm.Prelude.{
  ℕ, zero, suc, ◌+◌, ◌≡◌, refl, sym, ap, subst, inl, inr, Bool, false, none, some, List, [], ◌∷◌,
  ◌++◌, arith, if◌then◌else◌, length, get_elem?, Bool-cases,
}
use luna_os_arm.EventLoop.{
  Source, Action, created, resumed, write_watched, timer_set, cancelled_src, released, freed,
  called, ticked, update, removed, release_all, has_dispatch,
}

abbrev pub bit : Bool → ℕ
bit b = if b then 1 else 0

abbrev pub is_created : Action → ℕ
is_created (created i d) = 1
is_created (resumed i) = 0
is_created (write_watched i fd) = 0
is_created (timer_set i n m) = 0
is_created (cancelled_src i) = 0
is_created (released i) = 0
is_created freed = 0
is_created (called i f fd m d) = 0
is_created (ticked i f d) = 0

abbrev pub is_released : Action → ℕ
is_released (created i d) = 0
is_released (resumed i) = 0
is_released (write_watched i fd) = 0
is_released (timer_set i n m) = 0
is_released (cancelled_src i) = 0
is_released (released i) = 1
is_released freed = 0
is_released (called i f fd m d) = 0
is_released (ticked i f d) = 0

abbrev pub created_count : List Action → ℕ
created_count [] = 0
created_count (a ∷ out) = is_created a + created_count out

abbrev pub released_count : List Action → ℕ
released_count [] = 0
released_count (a ∷ out) = is_released a + released_count out

pub created_count-++ :
    (a b : List Action) → created_count (a ++ b) ≡ created_count a + created_count b
created_count-++ [] b = omega arith
created_count-++ (x ∷ a) b = omega (arith, created_count-++ a b)

pub released_count-++ :
    (a b : List Action) → released_count (a ++ b) ≡ released_count a + released_count b
released_count-++ [] b = omega arith
released_count-++ (x ∷ a) b = omega (arith, released_count-++ a b)

-- The sources that have a GCD source.
abbrev pub live : List Source → ℕ
live [] = 0
live (src ∷ srcs) = bit (has_dispatch src) + live srcs

pub live-update :
    (srcs : List Source) (i : ℕ) (f : Source → Source) (src : Source)
    → get_elem? srcs i ≡ some src
    → live (update i f srcs) + bit (has_dispatch src) ≡ live srcs + bit (has_dispatch (f src))
live-update [] i f src e = cc e
live-update (x ∷ srcs) zero f src e =
    let same : x ≡ src = cc e in
    subst
      (λ (y : Source).
        live (update 0 f (x ∷ srcs)) + bit (has_dispatch y)
        ≡ live (x ∷ srcs) + bit (has_dispatch (f y)))
      same (omega arith)
live-update (x ∷ srcs) (suc i) f src e = omega (arith, live-update srcs i f src e)

pub update_past :
    (srcs : List Source) (i : ℕ) (f : Source → Source)
    → get_elem? srcs i ≡ none
    → update i f srcs ≡ srcs
update_past [] i f e = refl
update_past (x ∷ srcs) zero f e = cc e
update_past (x ∷ srcs) (suc i) f e = ap (λ l. x ∷ l) (update_past srcs i f e)

pub length-update :
    (srcs : List Source) (i : ℕ) (f : Source → Source) → length (update i f srcs) ≡ length srcs
length-update [] i f = refl
length-update (x ∷ srcs) zero f = refl
length-update (x ∷ srcs) (suc i) f = ap suc (length-update srcs i f)

-- From `n` on, no source of the list has a GCD source.
abbrev pub IsBlank : ℕ → List Source → Type 0
IsBlank n [] = Unit
IsBlank zero (src ∷ srcs) = (has_dispatch src ≡ false) × IsBlank zero srcs
IsBlank (suc n) (src ∷ srcs) = IsBlank n srcs

IsBlank-live : (srcs : List Source) → IsBlank 0 srcs → live srcs ≡ 0
IsBlank-live [] b = refl
IsBlank-live (x ∷ srcs) b = ground (arith, b.0, IsBlank-live srcs (b.1))

pub release_all_lem :
    (n i : ℕ) (srcs : List Source)
    → IsBlank n srcs
    → (released_count (release_all n i srcs) ≡ live srcs)
      × (created_count (release_all n i srcs) ≡ 0)
release_all_lem zero i srcs b = (sym (IsBlank-live srcs b), refl)
release_all_lem (suc n) i [] b = (refl, refl)
release_all_lem (suc n) i (x ∷ srcs) b =
    let rec = release_all_lem n (i + 1) srcs b in
    elim (Bool-cases (has_dispatch x)) [
      | inl t ↦ (simp t (omega (arith, rec.0)), simp t (omega (arith, rec.1)))
      | inr f ↦ (simp f (omega (arith, rec.0)), simp f (omega (arith, rec.1)))
    ]

pub update-IsBlank :
    (n : ℕ) (f : Source → Source) (srcs : List Source)
    → IsBlank n srcs
    → IsBlank (suc n) (update n f srcs)
update-IsBlank n f [] b = tt
update-IsBlank zero f (x ∷ srcs) b = b.1
update-IsBlank (suc n) f (x ∷ srcs) b = update-IsBlank n f srcs b

pub removed-IsBlank :
    (n i : ℕ) (srcs : List Source) → IsBlank n srcs → IsBlank n (update i removed srcs)
removed-IsBlank n i [] b = tt
removed-IsBlank zero zero (x ∷ srcs) b = (refl, b.1)
removed-IsBlank zero (suc i) (x ∷ srcs) b = (b.0, removed-IsBlank zero i srcs (b.1))
removed-IsBlank (suc n) zero (x ∷ srcs) b = b
removed-IsBlank (suc n) (suc i) (x ∷ srcs) b = removed-IsBlank n i srcs b

pub has_dispatch-IsBlank :
    (n : ℕ) (srcs : List Source) (src : Source)
    → IsBlank n srcs
    → get_elem? srcs n ≡ some src
    → has_dispatch src ≡ false
has_dispatch-IsBlank n [] src b e = cc e
has_dispatch-IsBlank zero (x ∷ srcs) src b e =
    let same : x ≡ src = cc e in subst (λ (y : Source). has_dispatch y ≡ false) same (b.0)
has_dispatch-IsBlank (suc n) (x ∷ srcs) src b e = has_dispatch-IsBlank n srcs src b e
