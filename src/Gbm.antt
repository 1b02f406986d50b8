-- ===== src/Gbm.antt =====
-- The buffer objects of graphics/include/darwin-gbm.c on a device. `calloc` always succeeds; a
-- pointer is optional, and user data and callbacks are numbers.
pub mod Surface
pub mod Buffer
pub mod Leaks
pub mod Swap
pub mod OnShim
pub mod Plane
mod Tests
use luna_os_arm.Prelude.{
  ℕ, ◌+◌, ℤ, pos, negsuc, Bool, true, false, Option, none, some, List, [], ◌∷◌, ◌++◌, ◌==◌, ◌||◌,
  if◌then◌else◌,
}
use luna_os_arm.Pitch.{user_pitch}
use luna_os_arm.Drm.{CreateDumb}
use luna_os_arm.Device.{Device}

abbrev pub format_argb8888 : ℕ
format_argb8888 = 0x34325241

abbrev pub format_xrgb8888 : ℕ
format_xrgb8888 = 0x34325258

abbrev pub format_abgr8888 : ℕ
format_abgr8888 = 0x34324241

abbrev pub format_rgba8888 : ℕ
format_rgba8888 = 0x34324152

abbrev pub mod_linear : ℕ
mod_linear = 0

abbrev pub use_scanout : ℕ
use_scanout = 1

abbrev pub use_rendering : ℕ
use_rendering = 4

-- The test that `fmt_bpp` and `gbm_device_is_format_supported` share.
abbrev pub is_8888 : ℕ → Bool
is_8888 f =
    (f == format_argb8888)
    || ((f == format_xrgb8888) || ((f == format_abgr8888) || (f == format_rgba8888)))

-- `fmt_bpp`: both branches are 32.
unfoldable pub fmt_bpp : ℕ → ℕ
fmt_bpp f = if is_8888 f then 32 else 32

-- `gbm_device_is_format_supported`
unfoldable pub is_format_supported : ℕ → ℕ
is_format_supported f = if is_8888 f then 1 else 0

-- `struct gbm_bo`
pub record Bo : Type 0 where
  pub width : ℕ
  pub height : ℕ
  pub stride : ℕ
  pub format : ℕ
  pub flags : ℕ
  pub modifier : ℕ
  pub gem_handle : ℕ
  pub fb_id : ℕ
  pub map_offset : ℕ
  pub size : ℕ
  pub mapped : Option ℕ
  pub user_data : Option ℕ
  pub user_data_destroy : Option ℕ

-- The request of `alloc_bo`.
unfoldable pub bo_request : ℕ → ℕ → ℕ → CreateDumb
unfolding fmt_bpp
bo_request w h fmt = record {
  height = h;
  width = w;
  bpp = fmt_bpp fmt;
  flags = 0;
  handle = 0;
  pitch = user_pitch w (fmt_bpp fmt);
  size = 0;
}

-- What `gbm_bo_destroy` does besides its ioctls.
pub data Effect : Type 0 where
  user_data_destroyed : ℕ → ℕ → Effect
  unmapped : ℕ → ℕ → Effect

-- `if (bo->user_data && bo->user_data_destroy) bo->user_data_destroy(bo, bo->user_data)`
abbrev pub user_effect : Option ℕ → Option ℕ → List Effect
user_effect none f = []
user_effect (some u) none = []
user_effect (some u) (some f) = user_data_destroyed f u ∷ []

-- `if (bo->map && bo->map != MAP_FAILED) munmap(bo->map, bo->size)`
abbrev pub map_effect : Option ℕ → ℕ → List Effect
map_effect none size = []
map_effect (some p) size = unmapped p size ∷ []

-- The calls of `gbm_bo_destroy` before its ioctls.
abbrev pub destroy_effects : Bo → List Effect
destroy_effects bo = user_effect bo.user_data bo.user_data_destroy ++ map_effect bo.mapped bo.size

module _ (d : Device) where
  open d use {State}

  -- `alloc_bo`; a failing MAP_DUMB leaves the offset 0.
  unfoldable pub alloc_bo : ℕ → ℕ → ℕ → ℕ → State → Option Bo × State
  alloc_bo w h fmt flags s =
      let (e, req, s') = d.create_dumb (bo_request w h fmt) s in
      let (e', mreq, s'') = d.map_dumb (record { handle = req.handle; offset = 0 }) s' in
      if e == 0
      then (
        some (record {
          width = w;
          height = h;
          stride = req.pitch;
          format = fmt;
          flags = flags;
          modifier = mod_linear;
          gem_handle = req.handle;
          fb_id = 0;
          map_offset = if e' == 0 then mreq.offset else 0;
          size = req.size;
          mapped = none;
          user_data = none;
          user_data_destroy = none;
        }),
        s'',
      )
      else (none, s')

  -- `gbm_bo_create`
  abbrev pub bo_create : ℕ → ℕ → ℕ → ℕ → State → Option Bo × State
  bo_create w h fmt flags s = alloc_bo w h fmt flags s

  -- `gbm_bo_create_with_modifiers`
  abbrev pub bo_create_with_modifiers : ℕ → ℕ → ℕ → List ℕ → State → Option Bo × State
  bo_create_with_modifiers w h fmt modifiers s = alloc_bo w h fmt use_rendering s

  -- `gbm_bo_destroy`: DESTROY_DUMB and then GEM_CLOSE of the same handle.
  unfoldable pub bo_destroy : Bo → State → List Effect × State
  bo_destroy bo s =
      let (_, s') = d.destroy_dumb bo.gem_handle s in
      let (_, s'') = d.gem_close bo.gem_handle s' in (destroy_effects bo, s'')

  -- `gbm_bo_map`: the stride and the address, and the buffer object, which keeps the mapping.
  unfoldable pub bo_map : Bo → State → Option (ℕ × ℕ) × Bo
  bo_map bo s = elim bo.mapped [
    | some p ↦ (some (bo.stride, p), bo)
    | none ↦ elim (d.mmap bo.size bo.map_offset s) [
      | none ↦ (none, bo)
      | some p ↦ (some (bo.stride, p), record bo { mapped = some p })
    ]
  ]

  -- `gbm_bo_get_fd`
  unfoldable pub bo_get_fd : Bo → State → ℤ × State
  bo_get_fd bo s =
      let (e, p, s') =
        d.prime_handle_to_fd (record { handle = bo.gem_handle; flags = 0; fd = pos 0 }) s in
      (if e == 0 then p.fd else negsuc 0, s')

-- `gbm_bo_set_user_data`
abbrev pub bo_set_user_data : Bo → Option ℕ → Option ℕ → Bo
bo_set_user_data bo u f = record bo { user_data = u; user_data_destroy = f }
