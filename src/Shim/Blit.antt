-- ===== src/Shim/Blit.antt =====
-- `blitToDisplay` copies the rectangle that buffer and display share, and nothing else.
use luna_os_arm.Prelude.{
  ℕ, zero, suc, ◌+◌, ◌-◌, ◌*◌, ◌^◌, ◌≤◌, ◌<◌, ◌≡◌, refl, Bool, true, ◌&&◌, some, arith, ltb, leb,
  if◌then◌else◌, mul32,
}
use native.Mathlib.Decide.{dec_lt}
use luna_os_arm.Shim.{DumbBo, Memory, Surface}
use luna_os_arm.Shim.Display.{bcopy, copy_rows, min_of, pixels, blit_surface}

-- An earlier row lies wholly before a later one.
row_before : (stride y z k : ℕ) → k < stride → y < z → y * stride + k < z * stride
row_before stride y z k hk lt = grind arith

row_after : (stride y z k n : ℕ) → n ≤ stride → z < y → z * stride + n ≤ y * stride + k
row_after stride y z k n hn lt = grind arith

same_row :
    (src dst : ℕ → ℕ) (from base n k : ℕ) (same : Bool)
    → same ≡ true
    → bcopy src from dst base n (base + k)
      ≡ (if (same && same) && ltb k n then src (from + k) else dst (base + k))
same_row src dst from base n k same e =
    let i : base + k - base ≡ k = omega arith in rw (e, i) (ground arith)

bcopy-row :
    (src dst : ℕ → ℕ) (from stride n y z k : ℕ)
    → k < stride
    → n ≤ stride
    → bcopy src from dst (z * stride) n (y * stride + k)
      ≡ (if (leb z y && leb y z) && ltb k n then src (from + k) else dst (y * stride + k))
bcopy-row src dst from stride n y z k hk hn = elim (dec_lt y z) [
  | yes lt ↦ ground (arith, row_before stride y z k hk lt)
  | no ge ↦ elim (dec_lt z y) [
    | yes gt ↦ ground (arith, row_after stride y z k n hn gt)
    | no le ↦
        let e : y ≡ z = omega arith in
        rw e (same_row src dst from (z * stride) n k (leb z z) (ground arith))
  ]
]

copy_rows-at :
    (src : ℕ → ℕ) (pitch stride n : ℕ) (rows : ℕ) (z : ℕ) (dst : ℕ → ℕ) (y k : ℕ)
    → k < stride
    → n ≤ stride
    → copy_rows src pitch stride n rows z dst (y * stride + k) ≡ (
        if (leb z y && ltb y (z + rows)) && ltb k n
        then src (mul32 y pitch + k)
        else dst (y * stride + k))
unfolding copy_rows
copy_rows-at src pitch stride n zero z dst y k hk hn = ground arith
copy_rows-at src pitch stride n (suc rows) z dst y k hk hn = ground (
  arith,
  copy_rows-at src pitch stride n rows (z + 1) (bcopy src (mul32 z pitch) dst (z * stride) n) y k hk
      hn,
  bcopy-row src dst (mul32 z pitch) stride n y z k hk hn,
)

module _ (bo : DumbBo) (m : Memory) (d : Surface) (owns : bo.mem ≡ some m)
    (small : bo.pitch * bo.height ≤ 2 ^ 32) where
  row_offset : (y : ℕ) → y < bo.height → mul32 y bo.pitch ≡ y * bo.pitch
  row_offset y lt = elim (dec_lt 0 bo.pitch) [
    | yes some_width ↦
        let e : y * bo.pitch + bo.pitch ≤ bo.pitch * bo.height = grind arith in omega arith
    | no no_width ↦ let e : bo.pitch ≡ 0 = omega arith in rw e (omega arith)
  ]

  -- A frame of a buffer of at most 4 GiB that owns its memory: in the rows and columns that
  -- buffer and display share, the display holds the buffer's bytes; elsewhere within the stride
  -- of a row it holds what it held; and one frame more is signalled.
  pub blit_surface_lem :
      (y k : ℕ)
      → k < d.stride
      → ((blit_surface bo d).bytes (y * d.stride + k) ≡ (
          if ltb y (min_of bo.height d.height) && ltb k (min_of bo.pitch d.stride)
          then m.bytes (y * bo.pitch + k)
          else d.bytes (y * d.stride + k)))
        × ((blit_surface bo d).swaps ≡ d.swaps + 1)
  unfolding blit_surface
  blit_surface_lem y k hk = (
    ground (
      arith,
      copy_rows-at (pixels bo) bo.pitch d.stride (min_of bo.pitch d.stride)
          (min_of bo.height d.height) 0 d.bytes y k hk (ground arith),
      row_offset y,
    ),
    refl,
  )
