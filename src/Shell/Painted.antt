-- ===== src/Shell/Painted.antt =====
-- What `fill` paints, and when it stays inside the mapping.
use luna_os_arm.Prelude.{
  ℕ, zero, suc, ◌+◌, ◌*◌, ◌≤◌, ◌<◌, ◌≡◌, refl, ◌∙◌, Bool, true, ◌&&◌, Option, none, some, List, ltb,
  leb, if◌then◌else◌, length, set, get_elem?, length-set, get_elem?-set_self, get_elem?-set_ne,
  arith,
}
use native.Mathlib.Decide.{ℕ_discrete, dec_lt}
use luna_os_arm.Shell.Pixels.{paint, fill}

abbrev pub in_rect : (x y w h p q : ℕ) → Bool
in_rect x y w h p q = leb x p && ltb p (x + w) && leb y q && ltb q (y + h)

-- The indices from `i` on got the colour, and nothing else changed.
pub record Painted (i n c : ℕ) (px : List ℕ) (r : Option (List ℕ)) : Type 0 where
  pub out : List ℕ
  pub returns : r ≡ some out
  pub size : length out ≡ length px
  pub pixels :
      (k : ℕ) → get_elem? out k ≡ (if leb i k && ltb k (i + n) then some c else get_elem? px k)

paint-Painted : (n i c : ℕ) (px : List ℕ) → i + n ≤ length px → Painted i n c px (paint n i c px)
unfolding paint
paint-Painted zero i c px h = record {
  out = px;
  returns = refl;
  size = refl;
  pixels = λ k. ground arith;
}
paint-Painted (suc n) i c px h =
    let rest = paint-Painted n (i + 1) c (set px i c) (omega (arith, length-set px i c)) in
    let inside : ltb i (length px) ≡ true = ground arith in
    record {
      out = rest.out;
      returns = simp inside rest.returns;
      size = rest.size ∙ length-set px i c;
      pixels = λ k. elim (ℕ_discrete i k) [
        | yes same ↦ ground (arith, rest.pixels k, get_elem?-set_self px i c (omega arith))
        | no other ↦ ground (arith, rest.pixels k, get_elem?-set_ne px i k c other)
      ];
    }

-- A run of pixels that ends behind the mapping is a store outside it.
paint_outside : (n i c : ℕ) (px : List ℕ) → 0 < n → length px < i + n → paint n i c px ≡ none
unfolding paint
paint_outside zero i c px some_pixels h = absurd (omega arith)
paint_outside (suc n) i c px some_pixels h = elim (dec_lt i (length px)) [
  | no out ↦ ground arith
  | yes inside ↦ elim (dec_lt 0 n) [
    | yes more ↦ ground (arith, paint_outside n (i + 1) c (set px i c) more, length-set px i c)
    | no last ↦ absurd (omega arith)
  ]
]

-- A pixel before a row is not in it, nor one behind it.
row_lt : (stride p q r x : ℕ) → p < stride → q < r → q * stride + p < r * stride + x
row_lt stride p q r x hp lt = grind arith

row_gt : (stride p q r x w : ℕ) → x + w ≤ stride → r < q → r * stride + x + w ≤ q * stride + p
row_gt stride p q r x w fits lt = grind arith

in_row :
    (stride p q r x w : ℕ)
    → p < stride
    → x + w ≤ stride
    → (leb (r * stride + x) (q * stride + p) && ltb (q * stride + p) (r * stride + x + w))
      ≡ in_rect x r w 1 p q
in_row stride p q r x w hp fits = elim (dec_lt q r) [
  | yes lt ↦ ground (arith, row_lt stride p q r x hp lt)
  | no ge ↦ elim (dec_lt r q) [
    | yes gt ↦ ground (arith, row_gt stride p q r x w fits gt)
    | no le ↦ let same : q ≡ r = omega arith in rw same (ground arith)
  ]
]

-- The pixels of the rectangle got the colour, and the other pixels of the rows kept theirs.
pub record Filled (stride x y w h c : ℕ) (px : List ℕ) (r : Option (List ℕ)) : Type 0 where
  pub out : List ℕ
  pub returns : r ≡ some out
  pub size : length out ≡ length px
  pub pixels :
      (p q : ℕ)
      → p < stride
      → get_elem? out (q * stride + p)
        ≡ (if in_rect x y w h p q then some c else get_elem? px (q * stride + p))

row_fits :
    (stride x y w h n : ℕ) → x + w ≤ stride → (y + suc h) * stride ≤ n → y * stride + x + w ≤ n
row_fits stride x y w h n fits room = grind arith

pub fill-Filled :
    (stride x y w h c : ℕ) (px : List ℕ)
    → x + w ≤ stride
    → (y + h) * stride ≤ length px
    → Filled stride x y w h c px (fill stride x y w h c px)
unfolding fill
fill-Filled stride x y w zero c px fits room = record {
  out = px;
  returns = refl;
  size = refl;
  pixels = λ p q hp. ground arith;
}
fill-Filled stride x y w (suc h) c px fits room =
    let first =
      paint-Painted w (y * stride + x) c px (row_fits stride x y w h (length px) fits room) in
    let below : y + 1 + h ≡ y + suc h = omega arith in
    let rest = fill-Filled stride x (y + 1) w h c first.out fits (rw (below, first.size) room) in
    record {
      out = rest.out;
      returns = simp first.returns rest.returns;
      size = rest.size ∙ first.size;
      pixels = λ p q hp. ground (
        arith,
        rest.pixels p q hp,
        first.pixels (q * stride + p),
        in_row stride p q y x w hp fits,
      );
    }

last_row : (stride x y w n : ℕ) → n + stride < (y + suc 0) * stride + x + w → n < y * stride + x + w
last_row stride x y w n h = grind arith

-- A rectangle whose last row ends behind the mapping is a store outside it.
pub fill_outside :
    (stride x y w h c : ℕ) (px : List ℕ)
    → 0 < w
    → length px + stride < (y + suc h) * stride + x + w
    → fill stride x y w (suc h) c px ≡ none
unfolding fill
fill_outside stride x y w zero c px wide over =
    simp (paint_outside w (y * stride + x) c px wide (last_row stride x y w (length px) over))
fill_outside stride x y w (suc k) c px wide over = elim (dec_lt (length px) (y * stride + x + w)) [
  | yes out ↦ simp (paint_outside w (y * stride + x) c px wide out)
  | no inside ↦
      let row = paint-Painted w (y * stride + x) c px (omega arith) in
      let below : y + suc (suc k) ≡ y + 1 + suc k = omega arith in
      simp row.returns
        (fill_outside stride x (y + 1) w k c row.out wide (rw (row.size, ← below) over))
]
