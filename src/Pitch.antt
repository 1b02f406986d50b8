-- ===== src/Pitch.antt =====
-- The row pitch of a buffer, as the kernel extension (drm-shim/kern/IODRMShim.cpp) and the
-- libraries (drm-shim/user/libdrm-darwin.c, graphics/include/darwin-gbm.c) compute it.
pub mod Laws
mod Tests
use luna_os_arm.Prelude.{ℕ, ◌+◌, ◌/◌, bit_and, add32, sub32, mul32, not32}

-- `ALIGN_UP(x, a)`: `(((x) + (a) - 1u) & ~((a) - 1u))`.
unfoldable pub align_up : ℕ → ℕ → ℕ
align_up x a = bit_and (sub32 (add32 x a) 1) (not32 (sub32 a 1))

abbrev pub pitch_align : ℕ
pitch_align = 64

-- `(width * bpp + 7) / 8`
abbrev pub raw_pitch : ℕ → ℕ → ℕ
raw_pitch width bpp = add32 (mul32 width bpp) 7 / 8

-- What `drmModeCreateDumbBuffer` and `alloc_bo` put into `req.pitch`.
unfoldable pub user_pitch : ℕ → ℕ → ℕ
unfolding align_up
user_pitch width bpp = align_up (raw_pitch width bpp) pitch_align

-- What `ioctl_create_dumb` puts into `bo->pitch`: `(bo->pitch + 63) & ~63u`.
unfoldable pub kernel_pitch : ℕ → ℕ → ℕ
kernel_pitch width bpp = bit_and (add32 (raw_pitch width bpp) 63) (not32 63)
