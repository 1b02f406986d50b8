-- ===== src/Launcher/Columns.antt =====
-- The columns of a launcher that is narrow (shell/src/luna-launcher-wallpaper.c).
use luna_os_arm.Prelude.{
  ℕ, ◌+◌, ◌-◌, ◌*◌, ◌/◌, ◌%◌, ◌^◌, ◌≤◌, ◌<◌, ◌≡◌, refl, subst, inl, inr, true, false, Option, none,
  ltb, ◌>>=◌, sub32, Bool-cases, none_bind, arith,
}
use native.Mathlib.Nat.{div-add-mod', mod-lt}
use luna_os_arm.Shell.Pixels.{mul_int}
use luna_os_arm.Launcher.Draw.{layout, grid_x}

none_left : (c cell n r : ℕ) → ltb c 1 ≡ true → c * cell + r ≡ n → r < cell → n < cell
none_left c cell n r few whole part =
    let zeroed : c ≡ 0 = ground arith in
    let whole' : 0 * cell + r ≡ n = subst (λ (m : ℕ). m * cell + r ≡ n) zeroed whole in omega arith

-- For a width below the margin of 64 the difference wraps around, and so many columns are no `int`
-- wide.
too_many :
    (w cell : ℕ)
    → 0 < cell
    → cell ≤ 2 ^ 30
    → w < 64
    → (ltb (sub32 w 64 / cell) 1 ≡ false) × (mul_int (sub32 w 64 / cell) cell ≡ none)
too_many w cell pos small narrow =
    let n = sub32 w 64 in
    let wrapped : n ≡ w + 2 ^ 32 - 64 = omega arith in
    let whole = div-add-mod' n cell in
    let part = mod-lt n pos in
    (
      elim (Bool-cases (ltb (n / cell) 1)) [
        | inl few ↦
            let less = none_left (n / cell) cell n (n % cell) few whole part in
            absurd (omega (arith, wrapped))
        | inr more ↦ more
      ],
      (let far : 2 ^ 31 ≤ n / cell * cell = omega (arith, wrapped) in ground arith),
    )

-- On a launcher whose width is below 64 and whose height is an `int`, with icons of at most 2^29 pixels, the columns that
-- `ll_configure` computes are so many that the left edge of the columns, when the launcher is
-- drawn, comes to an `int` that overflows.
pub layout-grid_x :
    (display_scale icon_size : ℕ) (hover : Option ℕ) (w h : ℕ)
    → w < 64
    → h < 2 ^ 31
    → icon_size ≤ 2 ^ 29
    → (layout display_scale icon_size hover w h >>= grid_x) ≡ none
unfolding layout
layout-grid_x display_scale icon_size hover w h narrow short small =
    let (many, wide) = too_many w (icon_size + 24) (omega arith) (omega arith) narrow in
    let a : ltb (icon_size + 24) (2 ^ 31) ≡ true = ground arith in
    let b : ltb (icon_size + 36) (2 ^ 31) ≡ true = ground arith in
    let c : ltb w (2 ^ 31) ≡ true = ground arith in
    let d : ltb h (2 ^ 31) ≡ true = ground arith in
    simp (a, b, c, d, many, wide) (none_bind (mul_int w _) (λ pw. refl))
