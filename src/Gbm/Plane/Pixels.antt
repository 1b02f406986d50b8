-- ===== src/Gbm/Plane/Pixels.antt =====
-- Where the pixels of a buffer object of graphics/include/darwin-gbm.c lie.
use luna_os_arm.Prelude.{Option, ℕ, ◌+◌, ◌*◌, ◌<◌, ◌^◌, ◌≡◌, ap, sym, ◌∙◌, none, some, arith}
use native.Mathlib.Decide.{dec_lt}
use luna_os_arm.Pitch.{user_pitch}
use luna_os_arm.Pitch.Laws.{user_pitch-kernel_pitch, kernel_pitch_covers_iff}
use luna_os_arm.Device.{Device, Lawful, Dumb}
use luna_os_arm.Gbm.{Bo, alloc_bo}
use luna_os_arm.Gbm.Buffer.{refused, made, alloc_bo-Allocated}
use luna_os_arm.Gbm.Plane.{byte_at, bo_get_offset, bo_get_stride_for_plane, bo_get_bpp}

bo_get_bpp-32 : (bo : Bo) → bo_get_bpp bo ≡ 32
unfolding bo_get_bpp
bo_get_bpp-32 bo = ground arith

byte_at_lem : (bo : Bo) (plane x y c : ℕ) → byte_at bo plane x y c ≡ y * bo.stride + (x * 4 + c)
unfolding bo_get_offset bo_get_stride_for_plane
byte_at_lem bo plane x y c = rw (bo_get_bpp-32 bo) (omega arith)

-- A byte of row `y` lies before the end of `h` rows.
row-lt : (y h k stride : ℕ) → y < h → k < stride → y * stride + k < stride * h
row-lt y h k stride below inside = grind arith

row_before : (y y' k stride : ℕ) → y < y' → k < stride → y * stride + k < y' * stride
row_before y y' k stride below inside = grind arith

-- The row and the place in it are found again.
row_unique :
    (y y' k k' stride : ℕ)
    → k < stride
    → k' < stride
    → y * stride + k ≡ y' * stride + k'
    → (y ≡ y') × (k ≡ k')
row_unique y y' k k' stride inside inside' same = elim (dec_lt y y') [
  | yes less ↦ absurd (omega (arith, row_before y y' k stride less inside))
  | no not_less ↦ elim (dec_lt y' y) [
    | yes more ↦ absurd (omega (arith, row_before y' y k' stride more inside'))
    | no not_more ↦
        (let rows : y ≡ y' = omega arith in (rows, omega (arith, ap (λ (n : ℕ). n * stride) rows)))
  ]
]

covers : (w x c : ℕ) → w * 32 + 7 < 2 ^ 32 → x < w → c < 4 → x * 4 + c < user_pitch w 32
covers w x c small left byte =
    omega (arith, (kernel_pitch_covers_iff w 32).1 small, user_pitch-kernel_pitch w 32)

module _ (d : Device) {IsValid : d.State → Type 0} {live : d.State → ℕ → Option Dumb}
    (law : Lawful d IsValid live) where
  open d use {State}

  stride_size :
      (w h fmt flags : ℕ) (s s' : State) (bo : Bo)
      → IsValid s
      → h < 2 ^ 32
      → alloc_bo d w h fmt flags s ≡ (some bo, s')
      → (bo.stride ≡ user_pitch w 32) × (bo.size ≡ user_pitch w 32 * h)
  stride_size w h fmt flags s s' bo valid small e =
      elim (alloc_bo-Allocated d law w h fmt flags s valid small) [
        | refused nothing v live ↦ (let one : some bo ≡ none = cc in cc)
        | made bo' is v fresh others stride size ↦
            (let one : some bo' ≡ some bo = cc in
              let same : bo' ≡ bo = cc in
              (
                ap (λ (b : Bo). b.stride) (sym same) ∙ stride,
                ap (λ (b : Bo). b.size) (sym same) ∙ size,
              ))
      ]

  -- On any device that keeps the contract of the dumb-buffer ioctls, in a valid state, for a
  -- buffer object that `alloc_bo` made, of a height below 2 ^ 32 and of a width whose row has less
  -- than 2 ^ 32 bits: each of the four bytes of each pixel lies, where the offset, the stride and
  -- the depth that the accessors give put it, inside the buffer.
  pub byte_at-lt-size :
      (w h fmt flags plane x y c : ℕ) (s s' : State) (bo : Bo)
      → IsValid s
      → h < 2 ^ 32
      → w * 32 + 7 < 2 ^ 32
      → alloc_bo d w h fmt flags s ≡ (some bo, s')
      → x < w
      → y < h
      → c < 4
      → byte_at bo plane x y c < bo.size
  byte_at-lt-size w h fmt flags plane x y c s s' bo valid small narrow e left below byte =
      let (stride, size) = stride_size w h fmt flags s s' bo valid small e in
      rw (byte_at_lem bo plane x y c, stride, size)
        (row-lt y h (x * 4 + c) (user_pitch w 32) below (covers w x c narrow left byte))

  -- For such a buffer object no two bytes of pixels lie at one place.
  pub byte_at_injective :
      (w h fmt flags plane x y c x' y' c' : ℕ) (s s' : State) (bo : Bo)
      → IsValid s
      → h < 2 ^ 32
      → w * 32 + 7 < 2 ^ 32
      → alloc_bo d w h fmt flags s ≡ (some bo, s')
      → x < w
      → x' < w
      → c < 4
      → c' < 4
      → byte_at bo plane x y c ≡ byte_at bo plane x' y' c'
      → (x ≡ x') × (y ≡ y') × (c ≡ c')
  byte_at_injective w h fmt flags plane x y c x' y' c' s s' bo valid small narrow e left left' byte
        byte' same =
      let (stride, size) = stride_size w h fmt flags s s' bo valid small e in
      let (rows, places) =
        row_unique y y' (x * 4 + c) (x' * 4 + c') (user_pitch w 32) (covers w x c narrow left byte)
          (covers w x' c' narrow left' byte')
          (rw (byte_at_lem bo plane x y c, byte_at_lem bo plane x' y' c', stride) at same) in
      (omega (arith, places), rows, omega (arith, places))
