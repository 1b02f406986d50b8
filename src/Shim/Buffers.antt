-- ===== src/Shim/Buffers.antt =====
-- The handlers of IODRMShim.cpp that make, map and close dumb buffers.
use luna_os_arm.Prelude.{ℕ, ◌*◌, ◌^◌, true, false, Option, none, some, ◌==◌, if◌then◌else◌, u64}
use luna_os_arm.Pitch.{kernel_pitch}
use luna_os_arm.Drm.{CreateDumb, MapDumb, FbCmd}
use luna_os_arm.Shim.{Shim, DumbBo, Memory, find_bo, alloc_handle, put_bo}
use luna_os_arm.Errno

-- The fields that `ioctl_create_dumb` writes before it asks for memory.
abbrev pub new_bo : CreateDumb → ℕ → DumbBo
new_bo req handle =
    let bpp = (if req.bpp == 0 then 32 else req.bpp) in
    let pitch = kernel_pitch req.width bpp in
    record {
      handle = handle;
      width = req.width;
      height = req.height;
      pitch = pitch;
      bpp = bpp;
      size = u64 (pitch * req.height);
      mem = none;
      in_use = true;
    }

-- The zeroed memory at a physical address.
abbrev pub zeroed : ℕ → Memory
zeroed physical = record { physical = physical; bytes = λ _. 0 }

-- `ioctl_create_dumb`. `contiguous` is inTaskWithPhysicalMask: the physical address of a new
-- descriptor of a size, or `none`.
unfoldable pub ioctl_create_dumb : (ℕ → Option ℕ) → CreateDumb → Shim → ℕ × CreateDumb × Shim
ioctl_create_dumb contiguous req s =
    let handle = alloc_handle s in
    let bo = new_bo req handle in
    let made = record req { handle = handle; pitch = bo.pitch; size = bo.size } in
    if handle == 0 then (Errno.nomem, req, s) else elim (contiguous bo.size) [
      | none ↦ (Errno.nomem, req, put_bo s handle (record bo { in_use = false }))
      | some physical ↦ (0, made, put_bo s handle (record bo { mem = some (zeroed physical) }))
    ]

-- `ioctl_map_dumb`
unfoldable pub ioctl_map_dumb : MapDumb → Shim → ℕ × MapDumb
ioctl_map_dumb req s = elim (find_bo s req.handle) [
  | none ↦ (Errno.inval, req)
  | some _ ↦ (0, record req { offset = u64 (req.handle * 2 ^ 22) })
]

-- `drm_mmap`
abbrev pub drm_mmap : Shim → ℕ
drm_mmap s = Errno.notsup

-- `ioctl_addfb`: the handle is the framebuffer's id.
unfoldable pub ioctl_addfb : FbCmd → ℕ × FbCmd
ioctl_addfb fb = (0, record fb { fb_id = fb.handle })

-- `ioctl_gem_close`: the descriptor is released and the slot is free again.
unfoldable pub ioctl_gem_close : ℕ → Shim → ℕ × Shim
ioctl_gem_close handle s = elim (find_bo s handle) [
  | none ↦ (0, s)
  | some bo ↦ (0, put_bo s handle (record bo { mem = none; in_use = false }))
]

-- `ioctl_destroy_dumb`
unfoldable pub ioctl_destroy_dumb : ℕ → Shim → ℕ × Shim
ioctl_destroy_dumb handle s = ioctl_gem_close handle s
