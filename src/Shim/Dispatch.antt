-- ===== src/Shim/Dispatch.antt =====
-- `drm_ioctl` of IODRMShim.cpp: the dispatch of a request, and runs of requests.
use luna_os_arm.Prelude.{ℕ, Option, none, some, List, [], ◌∷◌}
use luna_os_arm.Errno
use luna_os_arm.Drm.{
  Request, version, get_resources, get_connector, get_encoder, get_crtc, set_crtc, add_fb, rm_fb,
  create_dumb, map_dumb, destroy_dumb, gem_close, prime_handle_to_fd, prime_fd_to_handle, other,
}
use luna_os_arm.Shim.{Shim}
use luna_os_arm.Shim.Buffers.{
  ioctl_create_dumb, ioctl_map_dumb, ioctl_addfb, ioctl_gem_close, ioctl_destroy_dumb,
}
use luna_os_arm.Shim.Display.{ioctl_setcrtc}
use luna_os_arm.Shim.Query.{
  ioctl_version, ioctl_getresources, ioctl_getconnector, ioctl_getencoder, ioctl_getcrtc,
}

-- The `switch` of `drm_ioctl`: the errno, the request as the handler leaves it, and the new state.
-- A command that the switch does not name is ENOTTY.
unfoldable pub handle_ioctl : (ℕ → Option ℕ) → Request → Shim → ℕ × Request × Shim
handle_ioctl contiguous (version v) s = (0, version (ioctl_version v), s)
handle_ioctl contiguous (get_resources r) s = (0, get_resources (ioctl_getresources r s), s)
handle_ioctl contiguous (get_connector c) s = (0, get_connector (ioctl_getconnector c s), s)
handle_ioctl contiguous (get_encoder e) s = (0, get_encoder (ioctl_getencoder e), s)
handle_ioctl contiguous (get_crtc c) s = (0, get_crtc (ioctl_getcrtc c s), s)
handle_ioctl contiguous (set_crtc c) s = let (e, s') = ioctl_setcrtc c s in (e, set_crtc c, s')
handle_ioctl contiguous (add_fb f) s = let (e, f') = ioctl_addfb f in (e, add_fb f', s)
handle_ioctl contiguous (create_dumb r) s =
    let (e, r', s') = ioctl_create_dumb contiguous r s in (e, create_dumb r', s')
handle_ioctl contiguous (map_dumb r) s = let (e, r') = ioctl_map_dumb r s in (e, map_dumb r', s)
handle_ioctl contiguous (destroy_dumb h) s =
    let (e, s') = ioctl_destroy_dumb h s in (e, destroy_dumb h, s')
handle_ioctl contiguous (gem_close h) s = let (e, s') = ioctl_gem_close h s in (e, gem_close h, s')
handle_ioctl contiguous (rm_fb b) s = (Errno.notty, rm_fb b, s)
handle_ioctl contiguous (prime_handle_to_fd p) s = (Errno.notty, prime_handle_to_fd p, s)
handle_ioctl contiguous (prime_fd_to_handle p) s = (Errno.notty, prime_fd_to_handle p, s)
handle_ioctl contiguous (other n) s = (Errno.notty, other n, s)

-- `drm_ioctl`: without a shim the device does not answer.
unfoldable pub drm_ioctl : (ℕ → Option ℕ) → Request → Option Shim → ℕ × Request × Option Shim
unfolding handle_ioctl
drm_ioctl contiguous req none = (Errno.nxio, req, none)
drm_ioctl contiguous req (some s) =
    let (e, req', s') = handle_ioctl contiguous req s in (e, req', some s')

-- The state after requests from any processes in the order in which they took the lock, each with
-- the allocator as it was then.
unfoldable pub run : Shim → List ((ℕ → Option ℕ) × Request) → Shim
run s [] = s
run s ((contiguous, req) ∷ rs) = run (handle_ioctl contiguous req s).2 rs
