-- ===== src/Compositor/Views.antt =====
-- The list of views of the compositor (compositor/src/main.c): every view once, and a toplevel
-- handle for the views that are mapped.
use luna_os_arm.Prelude.{
  ℕ, ◌≡◌, refl, subst, sym, ◌∙◌, ap, inl, inr, Bool, false, ◌||◌, Option, none, some, List, [], ◌∷◌,
  ◌==◌, if◌then◌else◌, Bool-cases, ==_iff, arith,
}
use luna_os_arm.Compositor.{View, without, change}

abbrev pub has : ℕ → List View → Bool
has id [] = false
has id (v ∷ vs) = (v.id == id) || has id vs

-- The view with an identity.
abbrev pub find : ℕ → List View → Option View
find id [] = none
find id (v ∷ vs) = let rest = find id vs in if v.id == id then some v else rest

-- The identities are distinct, and a view has a toplevel handle exactly if it is mapped.
pub data IsSound : List View → Type 0 where
  empty : IsSound []
  more :
      {v : View} {vs : List View}
      → v.listed ≡ v.mapped
      → has v.id vs ≡ false
      → IsSound vs
      → IsSound (v ∷ vs)

-- A change that keeps this identity.
abbrev pub Keeps : ℕ → (View → View) → Type 0
Keeps id f = (v : View) → v.id ≡ id → (f v).id ≡ id

has-without : (k id : ℕ) (vs : List View) → has k vs ≡ false → has k (without id vs) ≡ false
has-without k id [] h = refl
has-without k id (v ∷ vs) h = elim (Bool-cases (v.id == id)) [
  | inl same ↦ simp same (ground arith)
  | inr other ↦ simp other (ground (arith, has-without k id vs (ground arith)))
]

pub has-without_self : (id : ℕ) (vs : List View) → IsSound vs → has id (without id vs) ≡ false
has-without_self id [] empty = refl
has-without_self id (v ∷ vs) (more good once rest) = elim (Bool-cases (v.id == id)) [
  | inl same ↦ simp same (subst (λ (k : ℕ). has k vs ≡ false) ((==_iff v.id id).0 same) once)
  | inr other ↦ simp other (ground (arith, has-without_self id vs rest))
]

pub without-IsSound : (id : ℕ) (vs : List View) → IsSound vs → IsSound (without id vs)
without-IsSound id [] empty = empty
without-IsSound id (v ∷ vs) (more good once rest) = elim (Bool-cases (v.id == id)) [
  | inl same ↦ simp same rest
  | inr other ↦ simp other (more good (has-without v.id id vs once) (without-IsSound id vs rest))
]

has-change :
    (k id : ℕ) (f : View → View) (vs : List View) → Keeps id f → has k (change id f vs) ≡ has k vs
has-change k id f [] keeps = refl
has-change k id f (v ∷ vs) keeps = elim (Bool-cases (v.id == id)) [
  | inl same ↦ simp same (
      let eq = (==_iff v.id id).0 same in
      ap (λ (j : ℕ). (j == k) || has k vs) (keeps v eq ∙ sym eq))
  | inr other ↦ simp (other, has-change k id f vs keeps) refl
]

-- A change that makes the view that it changes a good one.
pub change-IsSound :
    (id : ℕ) (f : View → View) (vs : List View)
    → Keeps id f
    → ((v : View) → (f v).listed ≡ (f v).mapped)
    → IsSound vs
    → IsSound (change id f vs)
change-IsSound id f [] keeps good empty = empty
change-IsSound id f (v ∷ vs) keeps good (more was once rest) = elim (Bool-cases (v.id == id)) [
  | inl same ↦ simp same (
      more (good v)
        ((let eq = (==_iff v.id id).0 same in
          ap (λ (k : ℕ). has k vs) (keeps v eq ∙ sym eq) ∙ once))
        rest)
  | inr other ↦
      simp other
        (more was (has-change v.id id f vs keeps ∙ once) (change-IsSound id f vs keeps good rest))
]

pub without-change :
    (id : ℕ) (f : View → View) (vs : List View)
    → Keeps id f
    → without id (change id f vs) ≡ without id vs
without-change id f [] keeps = refl
without-change id f (v ∷ vs) keeps = elim (Bool-cases (v.id == id)) [
  | inl same ↦ (let eq = (==_iff v.id id).0 same in let kept = keeps v eq in ground arith)
  | inr other ↦ simp other (ap (λ rest. v ∷ rest) (without-change id f vs keeps))
]

pub change-change :
    (id : ℕ) (f g : View → View) (vs : List View)
    → Keeps id f
    → change id g (change id f vs) ≡ change id (λ v. g (f v)) vs
change-change id f g [] keeps = refl
change-change id f g (v ∷ vs) keeps = elim (Bool-cases (v.id == id)) [
  | inl same ↦ (let eq = (==_iff v.id id).0 same in let kept = keeps v eq in ground arith)
  | inr other ↦ simp other (ap (λ rest. v ∷ rest) (change-change id f g vs keeps))
]

pub find-id : (id : ℕ) (vs : List View) (v : View) → find id vs ≡ some v → v.id ≡ id
find-id id [] v e = cc
find-id id (u ∷ vs) v e = elim (Bool-cases (u.id == id)) [
  | inl same ↦
      (let is : some u ≡ some v = simp same at e in
        let eq : u ≡ v = cc in subst (λ (x : View). x.id ≡ id) eq ((==_iff u.id id).0 same))
  | inr other ↦ find-id id vs v (simp other at e)
]

pub find-IsSound :
    (id : ℕ) (vs : List View) (v : View) → IsSound vs → find id vs ≡ some v → v.listed ≡ v.mapped
find-IsSound id [] v empty e = cc
find-IsSound id (u ∷ vs) v (more good once rest) e = elim (Bool-cases (u.id == id)) [
  | inl same ↦
      (let is : some u ≡ some v = simp same at e in
        let eq : u ≡ v = cc in subst (λ (x : View). x.listed ≡ x.mapped) eq good)
  | inr other ↦ find-IsSound id vs v rest (simp other at e)
]
