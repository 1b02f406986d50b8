-- ===== src/Libdrm/OnShim.antt =====
-- libdrm-darwin.c on the kernel extension of IODRMShim.cpp.
use luna_os_arm.Prelude.{
  ℕ, ℤ, pos, ◌≡◌, refl, ◌⊎◌, inl, inr, Option, some, List, [], ◌∷◌, arith, Bool-cases,
}
use mathlib.Core.Option
use luna_os_arm.Errno
use luna_os_arm.Drm.{Crtc, ModeInfo}
use luna_os_arm.Shim.{Shim, DumbBo, find_bo}
use luna_os_arm.Shim.Buffers.{ioctl_addfb}
use luna_os_arm.Shim.Table.{find_bo_range}
use luna_os_arm.Shim.Dispatch.{drm_ioctl}
use luna_os_arm.Shim.Device.{shim_device}
use luna_os_arm.Shim.Display.{ioctl_setcrtc, blit_to_display}
use luna_os_arm.Shim.Query.{ioctl_getresources, ioctl_getconnector, native_mode, ioctl_getcrtc}
use luna_os_arm.Libdrm.{
  ok, failed, get_cap, cap_prime, prime_cap_export, prime_handle_to_fd, prime_fd_to_handle, add_fb,
  rm_fb,
}
use luna_os_arm.Libdrm.Modes.{ModeCrtc, ModeConnector, get_resources, get_connector}
use luna_os_arm.Libdrm.Crtc.{get_crtc, set_crtc, valid_flag, mode_or_blank}

-- `drmModeGetResources` on the shim finds one CRTC, one connector and one encoder, each with id 1,
-- and a size up to the display's.
pub get_resources-shim :
    (c : ℕ → Option ℕ) (place : (size offset : ℕ) → Option ℕ) (s : Shim)
    → (get_resources (shim_device c place) (some s)).0
      ≡ some (record {
        count_crtcs = 1;
        count_connectors = 1;
        count_encoders = 1;
        crtcs = some (1 ∷ []);
        connectors = some (1 ∷ []);
        encoders = some (1 ∷ []);
        min_width = 1;
        max_width = s.display_width;
        min_height = 1;
        max_height = s.display_height;
      })
unfolding get_resources drm_ioctl ioctl_getresources
get_resources-shim c place s = refl

-- `drmModeGetConnector` on the shim finds a connected panel whose one mode is the native mode.
pub get_connector-shim :
    (c : ℕ → Option ℕ) (place : (size offset : ℕ) → Option ℕ) (id : ℕ) (s : Shim)
    → (m : ModeConnector) × ((get_connector (shim_device c place) id (some s)).0 ≡ some m)
      × (m.modes ≡ some (native_mode s ∷ []))
      × (m.count_modes ≡ 1)
      × (m.connection ≡ 1)
      × (m.encoder_id ≡ 1)
unfolding get_connector drm_ioctl ioctl_getconnector
get_connector-shim c place id s = (_, refl, refl, refl, refl, refl)

-- `drmGetCap` says that buffers can be exported, and no export and no import ever succeeds.
pub prime_unsupported :
    (c : ℕ → Option ℕ) (place : (size offset : ℕ) → Option ℕ) (s : Shim)
    → (get_cap cap_prime ≡ (prime_cap_export, pos 0))
      × ((handle flags : ℕ)
          → (prime_handle_to_fd (shim_device c place) handle flags (some s)).0 ≡ failed Errno.notty)
      × ((fd : ℤ) → (prime_fd_to_handle (shim_device c place) fd (some s)).0 ≡ failed Errno.notty)
unfolding get_cap prime_handle_to_fd prime_fd_to_handle drm_ioctl
prime_unsupported c place s = (refl, λ h f. refl, λ fd. refl)

-- Every framebuffer that `drmModeAddFB` makes on the shim has its buffer's handle for an id, and
-- `drmModeRmFB` of it fails and changes nothing.
pub add_fb-rm_fb :
    (c : ℕ → Option ℕ) (place : (size offset : ℕ) → Option ℕ)
    (width height depth bpp pitch handle : ℕ) (s : Shim)
    → (add_fb (shim_device c place) width height depth bpp pitch handle (some s)
        ≡ (ok handle, some s))
      × (rm_fb (shim_device c place) handle (some s) ≡ (failed Errno.notty, some s))
unfolding add_fb rm_fb drm_ioctl ioctl_addfb
add_fb-rm_fb c place width height depth bpp pitch handle s = (refl, refl)

ioctl_setcrtc-live :
    (req : Crtc) (s : Shim) (b : DumbBo)
    → find_bo s req.fb_id ≡ some b
    → ((((ioctl_setcrtc req s).0 ≡ 0) ⊎ ((ioctl_setcrtc req s).0 ≡ Errno.io)))
      × ((ioctl_setcrtc req s).1.current_fb_id ≡ req.fb_id)
unfolding ioctl_setcrtc
ioctl_setcrtc-live req s b live =
    let range = find_bo_range s req.fb_id live in
    elim (Bool-cases (blit_to_display b s).0) [
      | inl done ↦ (inl (ground arith), ground arith)
      | inr broken ↦ (inr (ground arith), ground arith)
    ]

-- After `drmModeSetCrtc` of a live buffer `drmModeGetCrtc` names that buffer, with a valid mode.
-- The call is 0 or -EIO, and the buffer is recorded in both cases.
pub set_crtc-get_crtc :
    (c : ℕ → Option ℕ) (place : (size offset : ℕ) → Option ℕ) (crtc fb x y n : ℕ)
    (cs : Option (List ℕ)) (mode : Option ModeInfo) (s : Shim) (b : DumbBo)
    → find_bo s fb ≡ some b
    → let (r, shown) = set_crtc (shim_device c place) crtc fb x y cs n mode (some s) in
      ((r ≡ ok tt) ⊎ (r ≡ failed Errno.io))
      × (Option.map (λ (m : ModeCrtc). m.buffer_id) (get_crtc (shim_device c place) crtc shown).0
          ≡ some fb)
      × (Option.map (λ (m : ModeCrtc). m.mode_valid) (get_crtc (shim_device c place) crtc shown).0
          ≡ some 1)
unfolding set_crtc get_crtc drm_ioctl ioctl_getcrtc
set_crtc-get_crtc c place crtc fb x y n cs mode s b live =
    let req : Crtc = record {
      set_connectors = cs;
      count_connectors = n;
      crtc_id = crtc;
      fb_id = fb;
      x = x;
      y = y;
      gamma_size = 0;
      mode_valid = valid_flag mode;
      mode = mode_or_blank mode;
    } in
    let shown = ioctl_setcrtc-live req s b live in
    (elim shown.0 [ inl z ↦ inl (rw z) | inr z ↦ inr (rw z) ], rw (shown.1), refl)
