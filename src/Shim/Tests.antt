-- ===== src/Shim/Tests.antt =====
-- The shim on a display of 64 by 4 pixels, with one buffer in its table.
use luna_os_arm.Prelude.{
  ℕ, ◌+◌, ◌*◌, ◌≡◌, refl, Option, none, some, List, [], ◌∷◌, length, replicate, arith, true, false,
  if◌then◌else◌,
}
use luna_os_arm.Drm.{CreateDumb, create_dumb, gem_close}
use luna_os_arm.Errno
use luna_os_arm.Drm.{rm_fb}
use luna_os_arm.Drm.Layout.{user_number, mode_rmfb}
use luna_os_arm.Drm.Layout.Tests.{encoding}
use luna_os_arm.Shim.Switch.{switch, command_of, is_served, switch-user_number}
use luna_os_arm.Device.{Lawful}
use luna_os_arm.Shim.{Shim, DumbBo, Memory, Surface, empty_bo, started, find_bo, max_dumb_bos}
use luna_os_arm.Shim.Buffers.{ioctl_create_dumb, ioctl_gem_close, ioctl_destroy_dumb}
use luna_os_arm.Shim.Display.{blit_surface}
use luna_os_arm.Shim.Dispatch.{handle_ioctl, run}
use luna_os_arm.Shim.Live.{Created, ioctl_create_dumb-Created}
use luna_os_arm.Shim.Valid.{IsValid, run-IsValid}
use luna_os_arm.Shim.Refine.{Move, handle_ioctl-Move}
use luna_os_arm.Shim.Reuse.{destroy_create_close}
use luna_os_arm.Shim.Blit.{blit_surface_lem}
use luna_os_arm.Shim.Device.{shim_device, shim_lawful, Loaded, live_dumb}

abbrev memory : Memory
memory = record { physical = 4096; bytes = λ i. i }

-- 10 MiB: more than the room between two map offsets.
abbrev bo : DumbBo
bo = record {
  handle = 1;
  width = 1024;
  height = 2560;
  pitch = 4096;
  bpp = 32;
  size = 10485760;
  mem = some memory;
  in_use = true;
}

abbrev bo2 : DumbBo
bo2 = record bo { handle = 2 }

unfoldable table : List DumbBo
table = bo ∷ bo2 ∷ replicate 254 empty_bo

abbrev loaded : Shim
loaded = record (started none) {
  display_width = 64;
  display_height = 4;
  bos = table;
  next_handle = 3;
}

table-length : length table ≡ max_dumb_bos
unfolding table
table-length = refl

bo-found : find_bo loaded 1 ≡ some bo
unfolding find_bo table
bo-found = refl

bo2-found : find_bo loaded 2 ≡ some bo2
unfolding find_bo table
bo2-found = refl

abbrev contiguous : ℕ → Option ℕ
contiguous size = some 8192

abbrev request : CreateDumb
request = record { height = 4; width = 64; bpp = 32; flags = 0; handle = 0; pitch = 0; size = 0 }

abbrev screen : Surface
screen = record { bytes = λ i. 0; stride = 256; width = 64; height = 4; swaps = 0 }

run-IsValid_example :
    IsValid
      (run (started none) ((contiguous, create_dumb request) ∷ (contiguous, gem_close 1) ∷ []))
run-IsValid_example =
    run-IsValid none ((contiguous, create_dumb request) ∷ (contiguous, gem_close 1) ∷ [])
      (omega arith, (tt, tt))

handle_ioctl-Move_example :
    Move
      (create_dumb request)
      (find_bo loaded)
      (find_bo (handle_ioctl contiguous (create_dumb request) loaded).2)
handle_ioctl-Move_example = handle_ioctl-Move contiguous (create_dumb request) loaded table-length

shim_lawful_example : Lawful (shim_device contiguous (λ size offset. some offset)) Loaded live_dumb
shim_lawful_example = shim_lawful contiguous (λ size offset. some offset)

ioctl_create_dumb-Created_example :
    Created contiguous request loaded (ioctl_create_dumb contiguous request loaded)
ioctl_create_dumb-Created_example = ioctl_create_dumb-Created contiguous request loaded table-length

destroy_create_close_example :
    let destroyed = (ioctl_destroy_dumb 1 loaded).1 in
    let (e, r', created) = ioctl_create_dumb contiguous request destroyed in
    (e ≡ 0) × (r'.handle ≡ 1) × (find_bo (ioctl_gem_close 1 created).1 1 ≡ none)
destroy_create_close_example =
    destroy_create_close contiguous request loaded 1 table-length (bo, bo-found)
      (λ k lo hi. absurd (omega arith)) (λ size. cc)

blit_surface_lem_example :
    ((blit_surface bo screen).bytes (3 * 256 + 7) ≡ 3 * 4096 + 7)
    × ((blit_surface bo screen).swaps ≡ 1)
blit_surface_lem_example = blit_surface_lem bo memory screen refl (omega arith) 3 7 (omega arith)

switch-user_number_example :
    (switch encoding (user_number encoding mode_rmfb)
      ≡ (if is_served mode_rmfb then some mode_rmfb else none))
    × (is_served mode_rmfb ≡ false
        → handle_ioctl contiguous (rm_fb 5) loaded ≡ (Errno.notty, rm_fb 5, loaded))
unfolding command_of
switch-user_number_example = switch-user_number encoding contiguous (rm_fb 5) mode_rmfb loaded refl
