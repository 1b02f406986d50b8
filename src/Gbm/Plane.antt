-- ===== src/Gbm/Plane.antt =====
-- What a client of graphics/include/darwin-gbm.c learns of a buffer object: its one plane, and the
-- device that it was made on.
pub mod Pixels
use luna_os_arm.Prelude.{
  ℕ, ◌+◌, ◌*◌, ◌/◌, ◌<◌, ◌^◌, ◌≡◌, refl, ap, sym, ◌∙◌, subst, Bool, true, false, Option, none, some,
  List, [], ◌∷◌, arith, take, if◌then◌else◌,
}
use luna_os_arm.Prelude.Text.{codes}
use luna_os_arm.Pitch.{user_pitch}
use luna_os_arm.Device.{Device, Lawful}
use luna_os_arm.Gbm.{Bo, fmt_bpp, alloc_bo, bo_create_with_modifiers, bo_get_fd}
use luna_os_arm.Gbm.Surface.{Surface, surface_create_with_modifiers}
use luna_os_arm.Gbm.Buffer.{backing, Allocated, alloc_bo-Allocated}
use luna_os_arm.Prelude.{ℤ}

-- `struct gbm_device`
pub record GbmDevice : Type 0 where
  pub fd : ℕ
  pub backend : List ℕ

-- `gbm_create_device`: without memory from calloc it writes through NULL. strncpy leaves room for
-- the zero at the end of the 32 bytes.
unfoldable pub create_device : (calloc : Bool) → ℕ → Option GbmDevice
create_device calloc fd =
    if calloc
    then some (record { fd = fd; backend = take 31 (codes "darwin-iomobilefb-arm64") })
    else none

-- `gbm_device_get_format_modifier_plane_count`
abbrev pub format_modifier_plane_count : (format modifier : ℕ) → ℕ
format_modifier_plane_count format modifier = 1

-- `gbm_bo_import`: NULL.
abbrev pub bo_import : (type buffer usage : ℕ) → Option Bo
bo_import type buffer usage = none

-- `gbm_bo_get_plane_count`
abbrev pub bo_get_plane_count : Bo → ℕ
bo_get_plane_count bo = 1

-- `gbm_bo_get_stride_for_plane`
unfoldable pub bo_get_stride_for_plane : Bo → (plane : ℕ) → ℕ
bo_get_stride_for_plane bo plane = bo.stride

-- `gbm_bo_get_offset`
unfoldable pub bo_get_offset : Bo → (plane : ℕ) → ℕ
bo_get_offset bo plane = 0

-- `gbm_bo_get_bpp`
unfoldable pub bo_get_bpp : Bo → ℕ
unfolding fmt_bpp
bo_get_bpp bo = fmt_bpp bo.format

-- `gbm_bo_get_handle`: the member u32 of the union.
unfoldable pub bo_get_handle : Bo → ℕ
bo_get_handle bo = bo.gem_handle

-- `gbm_bo_get_handle_for_plane`
unfoldable pub bo_get_handle_for_plane : Bo → (plane : ℕ) → ℕ
unfolding bo_get_handle
bo_get_handle_for_plane bo plane = bo_get_handle bo

module _ (d : Device) where
  open d use {State}

  -- `gbm_bo_create_with_modifiers2`, which drops its flags.
  abbrev pub bo_create_with_modifiers2 :
      ℕ → ℕ → ℕ → (modifiers : List ℕ) (flags : ℕ) → State → Option Bo × State
  bo_create_with_modifiers2 w h fmt modifiers flags s =
      bo_create_with_modifiers d w h fmt modifiers s

  -- `gbm_bo_get_fd_for_plane`
  abbrev pub bo_get_fd_for_plane : Bo → (plane : ℕ) → State → ℤ × State
  bo_get_fd_for_plane bo plane s = bo_get_fd d bo s

  -- `gbm_surface_create_with_modifiers2`, which drops its flags.
  abbrev pub surface_create_with_modifiers2 :
      ℕ → ℕ → ℕ → (modifiers : List ℕ) (flags : ℕ) → State → Option Surface × State
  surface_create_with_modifiers2 w h fmt modifiers flags s =
      surface_create_with_modifiers d w h fmt modifiers s

-- The byte `c` of the pixel at `x` and `y`, where the accessors say that it lies.
abbrev pub byte_at : Bo → (plane x y c : ℕ) → ℕ
byte_at bo plane x y c =
    bo_get_offset bo plane + y * bo_get_stride_for_plane bo plane + x * (bo_get_bpp bo / 8) + c
