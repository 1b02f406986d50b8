-- ===== src/Libdrm/Tests.antt =====
-- The library on the shim, with a screen of 64 by 4 pixels.
use luna_os_arm.Prelude.{ℕ, ◌≡◌, refl, Option, none, some}
use luna_os_arm.Device.{Device, Lawful}
use luna_os_arm.Shim.{Shim, DumbBo, Memory, empty_bo, started, find_bo}
use luna_os_arm.Shim.Device.{shim_device, shim_lawful, Loaded, live_dumb}
use luna_os_arm.Libdrm.{ok, NewDumb, create_dumb_buffer}

abbrev contiguous : ℕ → Option ℕ
contiguous size = some 8192

abbrev dev : Device
dev = shim_device contiguous (λ size offset. some offset)

abbrev law : Lawful dev Loaded live_dumb
law = shim_lawful contiguous (λ size offset. some offset)

abbrev idle : Shim
idle = started none

abbrev new_dumb : NewDumb
new_dumb = record { handle = 1; pitch = 256; size = 1024 }

created : (create_dumb_buffer dev 64 4 32 0 (some idle)).0 ≡ ok new_dumb
unfolding create_dumb_buffer luna_os_arm.Shim.Dispatch.drm_ioctl
    luna_os_arm.Shim.Buffers.ioctl_create_dumb luna_os_arm.Shim.alloc_handle
    luna_os_arm.Shim.first_free luna_os_arm.Shim.empty_table luna_os_arm.Pitch.kernel_pitch
created = refl
