-- ===== src/Seatd/Paths.antt =====
-- The paths that seatd-darwin.c opens.
use luna_os_arm.Prelude.{
  ℕ, ◌≡◌, refl, ◌⊎◌, ◌↔◌, inl, inr, true, List, [], ◌∷◌, ◌++◌, arith, Bool-cases,
}
use native.Mathlib.Decide.{ℕ_discrete}
use luna_os_arm.Prelude.Text.{codes, starts_with}
use luna_os_arm.Seatd.{is_allowed}

starts_with_iff : (p s : List ℕ) → (starts_with p s ≡ true) ↔ ((rest : List ℕ) × (s ≡ p ++ rest))
starts_with_iff [] s = (λ e. (s, refl), λ h. refl)
starts_with_iff (p ∷ ps) [] = (λ e. cc, λ h. cc (h.1))
starts_with_iff (p ∷ ps) (c ∷ cs) =
    let rec = starts_with_iff ps cs in
    (
      λ e. elim (ℕ_discrete p c) [
        | yes same ↦ let (rest, eq) = rec.0 (grind arith) in (rest, cc)
        | no other ↦ grind arith
      ],
      λ h.
          let (rest, eq) = h in
          let tail : cs ≡ ps ++ rest = cc eq in
          let first : c ≡ p = cc eq in grind (arith, rec.1 (rest, tail)),
    )

-- A path passes the check of `handle_open_device` exactly if it is `/dev/dri/` or `/dev/input/`
-- with any text behind it, `..` included.
pub is_allowed_iff :
    (path : List ℕ)
    → (is_allowed path ≡ true) ↔ (
        ((rest : List ℕ) × (path ≡ codes "/dev/dri/" ++ rest))
        ⊎ ((rest : List ℕ) × (path ≡ codes "/dev/input/" ++ rest)))
unfolding is_allowed
is_allowed_iff path = (
  λ e. elim (Bool-cases (starts_with (codes "/dev/dri/") path)) [
    | inl t ↦ inl ((starts_with_iff (codes "/dev/dri/") path).0 t)
    | inr f ↦ inr ((starts_with_iff (codes "/dev/input/") path).0 (ground arith))
  ],
  λ h. elim h [
    | inl dri ↦ let t = (starts_with_iff (codes "/dev/dri/") path).1 dri in ground arith
    | inr input ↦ let t = (starts_with_iff (codes "/dev/input/") path).1 input in ground arith
  ],
)
