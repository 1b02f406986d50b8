-- ===== src/Shim/Refine.antt =====
-- The shim refines a finite map from handles to buffers.
use luna_os_arm.Prelude.{ℕ, ◌≡◌, refl, ◌≢◌, ◌⊎◌, inl, inr, Option, none, some, arith, length}
use luna_os_arm.Drm.{
  Request, version, get_resources, get_connector, get_encoder, get_crtc, set_crtc, add_fb, rm_fb,
  create_dumb, map_dumb, destroy_dumb, gem_close, prime_handle_to_fd, prime_fd_to_handle, other,
  CreateDumb,
}
use luna_os_arm.Shim.{Shim, DumbBo, find_bo, max_dumb_bos}
use luna_os_arm.Shim.Buffers.{ioctl_create_dumb, ioctl_gem_close, ioctl_destroy_dumb}
use luna_os_arm.Shim.Display.{ioctl_setcrtc}
use luna_os_arm.Shim.Dispatch.{handle_ioctl}
use luna_os_arm.Shim.Live.{
  Created, full, refused, granted, made_bo, ioctl_create_dumb-Created, find_bo-ioctl_gem_close,
  bos-ioctl_setcrtc, find_bo_of_bos,
}

-- The live buffers.
abbrev pub Buffers : Type 0
Buffers = ℕ → Option DumbBo

-- What a request may do to them: nothing, a new buffer at a handle that was not live, or the end
-- of one handle.
pub data Move (req : Request) (v w : Buffers) : Type 0 where
  keep : ((h : ℕ) → w h ≡ v h) → Move req v w
  gain :
      (r : CreateDumb) (h physical : ℕ)
      → req ≡ create_dumb r
      → v h ≡ none
      → w h ≡ some (made_bo r h physical)
      → ((k : ℕ) → k ≢ h → w k ≡ v k)
      → Move req v w
  lose :
      (h : ℕ)
      → (req ≡ destroy_dumb h) ⊎ (req ≡ gem_close h)
      → w h ≡ none
      → ((k : ℕ) → k ≢ h → w k ≡ v k)
      → Move req v w

create-Move :
    (c : ℕ → Option ℕ) (r : CreateDumb) (s : Shim) (out : ℕ × CreateDumb × Shim)
    → Created c r s out
    → Move (create_dumb r) (find_bo s) (find_bo out.2)
create-Move c r s out (full e all) = keep (λ h. rw e)
create-Move c r s out (refused no_memory e e' same n) = keep same
create-Move c r s out (granted h p got e e' free below new same n) = gain r h p refl free new same

close-Move :
    (req : Request) (s : Shim) (h : ℕ)
    → length s.bos ≡ max_dumb_bos
    → (req ≡ destroy_dumb h) ⊎ (req ≡ gem_close h)
    → Move req (find_bo s) (find_bo (ioctl_gem_close h s).1)
close-Move req s h n which =
    lose h which (ground (arith, find_bo-ioctl_gem_close s h h n))
      (λ k ne. ground (arith, find_bo-ioctl_gem_close s h k n))

-- On a table of 256 slots a request leaves the live buffers as they were, or is a CREATE_DUMB that
-- adds one zeroed buffer at a handle that was not live, or is a DESTROY_DUMB or GEM_CLOSE that ends
-- the handle it names. No other handle changes.
pub handle_ioctl-Move :
    (contiguous : ℕ → Option ℕ) (req : Request) (s : Shim)
    → length s.bos ≡ max_dumb_bos
    → Move req (find_bo s) (find_bo (handle_ioctl contiguous req s).2)
unfolding handle_ioctl ioctl_destroy_dumb
handle_ioctl-Move c (version _) s n = keep (λ h. refl)
handle_ioctl-Move c (get_resources _) s n = keep (λ h. refl)
handle_ioctl-Move c (get_connector _) s n = keep (λ h. refl)
handle_ioctl-Move c (get_encoder _) s n = keep (λ h. refl)
handle_ioctl-Move c (get_crtc _) s n = keep (λ h. refl)
handle_ioctl-Move c (set_crtc r) s n =
    keep (λ h. find_bo_of_bos s (ioctl_setcrtc r s).1 h (bos-ioctl_setcrtc r s))
handle_ioctl-Move c (add_fb _) s n = keep (λ h. refl)
handle_ioctl-Move c (rm_fb _) s n = keep (λ h. refl)
handle_ioctl-Move c (create_dumb r) s n =
    create-Move c r s (ioctl_create_dumb c r s) (ioctl_create_dumb-Created c r s n)
handle_ioctl-Move c (map_dumb _) s n = keep (λ h. refl)
handle_ioctl-Move c (destroy_dumb h) s n = close-Move (destroy_dumb h) s h n (inl refl)
handle_ioctl-Move c (gem_close h) s n = close-Move (gem_close h) s h n (inr refl)
handle_ioctl-Move c (prime_handle_to_fd _) s n = keep (λ h. refl)
handle_ioctl-Move c (prime_fd_to_handle _) s n = keep (λ h. refl)
handle_ioctl-Move c (other _) s n = keep (λ h. refl)
