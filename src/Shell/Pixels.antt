-- ===== src/Shell/Pixels.antt =====
-- Pixels in shared memory, as shell/src/luna-shell-main.c, luna-panel.c and
-- luna-launcher-wallpaper.c write them: `none` is a store outside the mapping, or an `int` that
-- overflows.
use luna_os_arm.Prelude.{
  ℕ, zero, suc, ◌+◌, ◌*◌, ◌^◌, Option, none, some, List, ltb, leb, ◌-◌, if◌then◌else◌, length, set,
  ◌>>=◌,
}

-- The product of two `int`s that are not negative.
abbrev pub mul_int : ℕ → ℕ → Option ℕ
mul_int a b = if ltb (a * b) (2 ^ 31) then some (a * b) else none

-- The inner loop of `fill`: `n` pixels from index `i` on.
unfoldable pub paint : (n : ℕ) → (i c : ℕ) → List ℕ → Option (List ℕ)
paint zero i c px = some px
paint (suc n) i c px =
    let rest = paint n (i + 1) c (set px i c) in if ltb i (length px) then rest else none

-- `fill(px, stride, x, y, w, h, c)`, with `h` rows left.
unfoldable pub fill : (stride x y w : ℕ) → (h : ℕ) → (c : ℕ) → List ℕ → Option (List ℕ)
fill stride x y w zero c px = some px
fill stride x y w (suc h) c px = do
  px' ← paint w (y * stride + x) c px
  fill stride x (y + 1) w h c px'

-- The inner loop of `fill` at an `int` index that may be negative, `i - below`.
unfoldable pub paint_below : (n : ℕ) → (i below c : ℕ) → List ℕ → Option (List ℕ)
paint_below zero i below c px = some px
paint_below (suc n) i below c px =
    let rest = paint_below n (i + 1) below c (set px (i - below) c) in
    if leb below i then (if ltb (i - below) (length px) then rest else none) else none

-- `fill` where the index of the first pixel is `y * stride + x - below`.
unfoldable pub fill_below : (stride x y w : ℕ) → (h : ℕ) → (below c : ℕ) → List ℕ → Option (List ℕ)
fill_below stride x y w zero below c px = some px
fill_below stride x y w (suc h) below c px = do
  px' ← paint_below w (y * stride + x) below c px
  fill_below stride x (y + 1) w h below c px'
