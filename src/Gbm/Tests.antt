-- ===== src/Gbm/Tests.antt =====
-- A surface of 64 by 4 pixels on the shim.
use luna_os_arm.Prelude.{
  ℕ, negsuc, ◌≡◌, ◌<◌, refl, ◌⊎◌, false, Option, none, some, [], ◌∷◌, arith, length,
}
use luna_os_arm.Device.{Device, Lawful}
use luna_os_arm.Shim.{Shim, started}
use luna_os_arm.Shim.Device.{shim_device, shim_lawful, started-Loaded, Loaded, live_dumb}
use luna_os_arm.Gbm.{Bo, alloc_bo, bo_destroy, bo_map, bo_get_fd, format_xrgb8888}
use luna_os_arm.Gbm.Surface.{
  Surface, new_surface, lock_front_buffer, has_free_buffers, surface_create, surface_destroy,
}
use luna_os_arm.Gbm.Leaks.{Owns, surface_create_lem, surface_create_destroy}
use luna_os_arm.Gbm.Plane.{byte_at}
use luna_os_arm.Gbm.Plane.Pixels.{byte_at-lt-size}
use luna_os_arm.Gbm.OnShim.{shim_cannot_share}

abbrev contiguous : ℕ → Option ℕ
contiguous size = some 8192

abbrev dev : Device
dev = shim_device contiguous (λ size offset. some offset)

abbrev law : Lawful dev Loaded live_dumb
law = shim_lawful contiguous (λ size offset. some offset)

abbrev idle : Shim
idle = started none

idle-IsValid : Loaded (some idle)
idle-IsValid = started-Loaded none

abbrev bo : Bo
bo = record {
  width = 64;
  height = 4;
  stride = 256;
  format = format_xrgb8888;
  flags = 5;
  modifier = 0;
  gem_handle = 1;
  fb_id = 0;
  map_offset = 4194304;
  size = 1024;
  mapped = none;
  user_data = none;
  user_data_destroy = none;
}

abbrev bo2 : Bo
bo2 = record bo { gem_handle = 2; map_offset = 8388608 }

abbrev surf : Surface
surf = new_surface 64 4 format_xrgb8888 5 (bo ∷ bo2 ∷ [])

created : (surface_create dev 64 4 format_xrgb8888 5 (some idle)).0 ≡ some surf
unfolding surface_create luna_os_arm.Gbm.Surface.make_bos alloc_bo
    luna_os_arm.Shim.Dispatch.drm_ioctl luna_os_arm.Shim.Buffers.ioctl_create_dumb
    luna_os_arm.Shim.alloc_handle luna_os_arm.Shim.first_free luna_os_arm.Shim.empty_table
    luna_os_arm.Pitch.kernel_pitch luna_os_arm.Shim.Buffers.ioctl_map_dumb
    luna_os_arm.Gbm.bo_request luna_os_arm.Shim.find_bo
created = refl

surface_create_lem_example :
    let (o, s') = surface_create dev 64 4 format_xrgb8888 5 (some idle) in
    ((o ≡ none) × Loaded s' × ((k : ℕ) → live_dumb s' k ≡ live_dumb (some idle) k))
    ⊎ ((surf : Surface) × (o ≡ some surf)
        × (length surf.bos ≡ 2)
        × (surf.locked ≡ false)
        × Owns dev law (some idle) 64 4 surf.bos s')
surface_create_lem_example =
    surface_create_lem dev law 64 4 format_xrgb8888 5 (some idle) idle-IsValid (omega arith)

surface_create_destroy_example :
    live_dumb (surface_destroy dev surf (surface_create dev 64 4 format_xrgb8888 5 (some idle)).1) 2
    ≡ live_dumb (some idle) 2
surface_create_destroy_example =
    surface_create_destroy dev law 64 4 format_xrgb8888 5 (some idle) surf idle-IsValid
      (omega arith) created 2

shim_cannot_share_example :
    (bo_map dev bo (some idle) ≡ (none, bo))
    × (bo_get_fd dev bo (some idle) ≡ (negsuc 0, some idle))
shim_cannot_share_example =
    shim_cannot_share contiguous (λ size offset. some offset) bo (some idle) refl

allocated :
    alloc_bo dev 64 4 format_xrgb8888 5 (some idle)
    ≡ (some bo, (alloc_bo dev 64 4 format_xrgb8888 5 (some idle)).1)
unfolding alloc_bo luna_os_arm.Shim.Dispatch.drm_ioctl luna_os_arm.Shim.Buffers.ioctl_create_dumb
    luna_os_arm.Shim.alloc_handle luna_os_arm.Shim.first_free luna_os_arm.Shim.empty_table
    luna_os_arm.Pitch.kernel_pitch luna_os_arm.Shim.Buffers.ioctl_map_dumb
    luna_os_arm.Gbm.bo_request luna_os_arm.Shim.find_bo
allocated = refl

-- The last byte of the last pixel.
byte_at-lt-size_example : byte_at bo 0 63 3 3 < bo.size
byte_at-lt-size_example =
    byte_at-lt-size dev law 64 4 format_xrgb8888 5 0 63 3 3 (some idle)
      (alloc_bo dev 64 4 format_xrgb8888 5 (some idle)).1 bo idle-IsValid (omega arith)
      (omega arith) allocated (omega arith) (omega arith) (omega arith)
