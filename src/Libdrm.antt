-- ===== src/Libdrm.antt =====
-- libdrm-darwin (drm-shim/user/libdrm-darwin.c): the wrappers round the ioctls of a device.
-- `drmOpen`, `drmClose`, `drmModeMapBuffer`'s message and the free functions only call the system.
pub mod Modes
pub mod Crtc
pub mod Dumb
pub mod OnShim
pub mod Memory
mod Tests
use luna_os_arm.Prelude.{
  ℕ, ℤ, pos, negate, Option, none, some, List, [], ◌∷◌, ◌==◌, if◌then◌else◌, replicate,
}
use luna_os_arm.Errno
use luna_os_arm.Pitch.{user_pitch}
use luna_os_arm.Drm.{Version, FbCmd, CreateDumb, PrimeHandle}
use luna_os_arm.Device.{Device, bpp_or_32}

-- What a wrapper gives: its outputs, or `-errno` with the outputs as they were.
pub data Reply {ℓ} (A : Type ℓ) : Type ℓ where
  ok : A → Reply A
  failed : ℕ → Reply A

-- The `int` that a wrapper returns.
abbrev pub status {ℓ} : {A : Type ℓ} → Reply A → ℤ
status (ok a) = pos 0
status (failed e) = negate e

-- `if (ioctl(…) < 0) return -errno;` and the outputs after it.
abbrev pub reply {ℓ} : {A : Type ℓ} → ℕ → A → Reply A
reply e a = if e == 0 then ok a else failed e

-- The capabilities of `drmGetCap`.
abbrev pub cap_dumb_buffer : ℕ
cap_dumb_buffer = 1

abbrev pub cap_prime : ℕ
cap_prime = 5

abbrev pub cap_timestamp_monotonic : ℕ
cap_timestamp_monotonic = 6

abbrev pub cap_addfb2_modifiers : ℕ
cap_addfb2_modifiers = 16

abbrev pub prime_cap_export : ℕ
prime_cap_export = 2

-- `drmGetCap`: the value, and what it returns.
unfoldable pub get_cap : ℕ → ℕ × ℤ
get_cap capability =
    if capability == cap_dumb_buffer
    then (1, pos 0)
    else if capability == cap_prime
    then (prime_cap_export, pos 0)
    else if capability == cap_timestamp_monotonic
    then (1, pos 0)
    else if capability == cap_addfb2_modifiers
    then (0, pos 0)
    else (0, negate Errno.inval)

-- The outputs of `drmModeCreateDumbBuffer`.
pub record NewDumb : Type 0 where
  pub handle : ℕ
  pub pitch : ℕ
  pub size : ℕ

-- The request that `drmModeCreateDumbBuffer` sends.
unfoldable pub dumb_request : ℕ → ℕ → ℕ → ℕ → CreateDumb
dumb_request width height bpp flags = record {
  height = height;
  width = width;
  bpp = bpp_or_32 bpp;
  flags = flags;
  handle = 0;
  pitch = user_pitch width (bpp_or_32 bpp);
  size = 0;
}

module _ (d : Device) where
  open d use {State}

  -- `drmGetVersion`
  abbrev pub get_version : Version → State → ℕ × Version × State
  get_version ver s = d.version ver s

  -- `drmModeCreateDumbBuffer`
  unfoldable pub create_dumb_buffer : ℕ → ℕ → ℕ → ℕ → State → Reply NewDumb × State
  unfolding dumb_request
  create_dumb_buffer width height bpp flags s =
      let (e, req, s') = d.create_dumb (dumb_request width height bpp flags) s in
      (reply e (record { handle = req.handle; pitch = req.pitch; size = req.size }), s')

  -- `drmModeMapDumbBuffer`
  unfoldable pub map_dumb_buffer : ℕ → State → Reply ℕ × State
  map_dumb_buffer handle s =
      let (e, req, s') = d.map_dumb (record { handle = handle; offset = 0 }) s in
      (reply e req.offset, s')

  -- `drmModeDestroyDumbBuffer`
  unfoldable pub destroy_dumb_buffer : ℕ → State → Reply (Unit {0}) × State
  destroy_dumb_buffer handle s = let (e, s') = d.destroy_dumb handle s in (reply e tt, s')

  -- `drmModeMapBuffer`
  unfoldable pub map_buffer : ℕ → ℕ → State → Option ℕ
  map_buffer offset size s = d.mmap size offset s

  -- `drmCloseBufferHandle`
  unfoldable pub close_buffer_handle : ℕ → State → Reply (Unit {0}) × State
  close_buffer_handle handle s = let (e, s') = d.gem_close handle s in (reply e tt, s')

  -- `drmPrimeHandleToFD`
  unfoldable pub prime_handle_to_fd : ℕ → ℕ → State → Reply ℤ × State
  prime_handle_to_fd handle flags s =
      let (e, req, s') =
        d.prime_handle_to_fd (record { handle = handle; flags = flags; fd = pos 0 }) s in
      (reply e req.fd, s')

  -- `drmPrimeFDToHandle`
  unfoldable pub prime_fd_to_handle : ℤ → State → Reply ℕ × State
  prime_fd_to_handle prime_fd s =
      let (e, req, s') = d.prime_fd_to_handle (record { handle = 0; flags = 0; fd = prime_fd }) s in
      (reply e req.handle, s')

  -- `drmModeAddFB`
  unfoldable pub add_fb : ℕ → ℕ → ℕ → ℕ → ℕ → ℕ → State → Reply ℕ × State
  add_fb width height depth bpp pitch bo_handle s =
      let (e, req, s') =
        d.add_fb
          (record {
            fb_id = 0;
            width = width;
            height = height;
            pitch = pitch;
            bpp = bpp;
            depth = depth;
            handle = bo_handle;
          })
          s in
      (reply e req.fb_id, s')

  -- `drmModeRmFB`
  unfoldable pub rm_fb : ℕ → State → Reply (Unit {0}) × State
  rm_fb buf_id s = let (e, s') = d.rm_fb buf_id s in (reply e tt, s')
