-- ===== src/Gbm/OnShim.antt =====
-- darwin-gbm.c on the kernel extension of IODRMShim.cpp.
use luna_os_arm.Prelude.{ℕ, negsuc, ◌≡◌, refl, Option, none, some, arith}
use luna_os_arm.Shim.{Shim}
use luna_os_arm.Shim.Dispatch.{drm_ioctl}
use luna_os_arm.Shim.Device.{shim_device}
use luna_os_arm.Gbm.{Bo, bo_map, bo_get_fd}

-- On the shim, there or not, a buffer object that is not mapped cannot be mapped, wherever the kernel
-- would place the mapping, and none can be exported, which leaves the state of the shim as it was.
pub shim_cannot_share :
    (c : ℕ → Option ℕ) (place : (size offset : ℕ) → Option ℕ) (bo : Bo) (s : Option Shim)
    → bo.mapped ≡ none
    → (bo_map (shim_device c place) bo s ≡ (none, bo))
      × (bo_get_fd (shim_device c place) bo s ≡ (negsuc 0, s))
unfolding bo_map bo_get_fd drm_ioctl
shim_cannot_share c place bo none e = (ground arith, refl)
shim_cannot_share c place bo (some s) e = (ground arith, refl)
