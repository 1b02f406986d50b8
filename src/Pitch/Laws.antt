-- ===== src/Pitch/Laws.antt =====
-- What the pitch of a buffer guarantees: alignment, agreement of the two computations, and room
-- for a row, which the 32-bit product can deny.
use luna_os_arm.Prelude.{ℕ, ◌+◌, ◌-◌, ◌*◌, ◌/◌, ◌%◌, ◌^◌, ◌≤◌, ◌<◌, ◌≡◌, ◌↔◌, arith, add32}
use luna_os_arm.Prelude.Bits.{bit_and-not_63}
use luna_os_arm.Pitch.{raw_pitch, user_pitch, kernel_pitch}

pub kernel_pitch-eq :
    (width bpp : ℕ) → kernel_pitch width bpp ≡ (raw_pitch width bpp + 63) / 64 * 64
unfolding kernel_pitch
kernel_pitch-eq width bpp =
    omega (arith, bit_and-not_63 (add32 (raw_pitch width bpp) 63) (omega arith))

-- The pitch that the libraries ask for is the pitch that the kernel extension gives, for every
-- width and depth.
pub user_pitch-kernel_pitch : (width bpp : ℕ) → user_pitch width bpp ≡ kernel_pitch width bpp
unfolding user_pitch
user_pitch-kernel_pitch width bpp = omega (
  arith,
  kernel_pitch-eq width bpp,
  bit_and-not_63 ((add32 (raw_pitch width bpp) 64 + 2 ^ 32 - 1) % 2 ^ 32) (omega arith),
)

-- The kernel's pitch is a multiple of 64, at least the bytes of the row as the 32-bit
-- computation has them, by less than 64 more, and at most 2 ^ 29.
pub kernel_pitch_bounds :
    (width bpp : ℕ)
    → (kernel_pitch width bpp % 64 ≡ 0)
      × (raw_pitch width bpp ≤ kernel_pitch width bpp)
      × (kernel_pitch width bpp < raw_pitch width bpp + 64)
      × (kernel_pitch width bpp ≤ 2 ^ 29)
kernel_pitch_bounds width bpp = let e = kernel_pitch-eq width bpp in omega (arith, e)

-- A row of `width` pixels of `bpp` bits fits into the pitch exactly when `width * bpp + 7` does
-- not reach 2 ^ 32. Where it does, the pitch is too short for its row.
pub kernel_pitch_covers_iff :
    (width bpp : ℕ) → (width * bpp ≤ 8 * kernel_pitch width bpp) ↔ (width * bpp + 7 < 2 ^ 32)
kernel_pitch_covers_iff width bpp =
    let e = kernel_pitch-eq width bpp in (λ h. omega (arith, e), λ h. omega (arith, e))
