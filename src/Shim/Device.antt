-- ===== src/Shim/Device.antt =====
-- The shim behind /dev/dri/card0: `drm_ioctl` at each command, and the contract that its clients
-- rely on.
use luna_os_arm.Prelude.{
  ℕ, ◌<◌, ◌^◌, ◌≡◌, refl, ap, ◌≢◌, ◌⊎◌, inl, inr, Option, none, some, arith, ◌==◌, if◌then◌else◌,
}
use mathlib.Core.Option
use native.Mathlib.Decide.{ℕ_discrete}
use luna_os_arm.Pitch.{kernel_pitch}
use luna_os_arm.Pitch.Laws.{kernel_pitch_bounds}
use luna_os_arm.Device.{Device, Lawful, Dumb, asked, bpp_or_32}
use luna_os_arm.Drm.{
  Request, version, get_resources, get_connector, get_encoder, get_crtc, set_crtc, add_fb, rm_fb,
  create_dumb, map_dumb, destroy_dumb, gem_close, prime_handle_to_fd, prime_fd_to_handle, Version,
  CardRes, Connector, Encoder, Crtc, FbCmd, CreateDumb, MapDumb, PrimeHandle,
}
use luna_os_arm.Shim.{Shim, DumbBo, Framebuffer, find_bo, started}
use luna_os_arm.Shim.Buffers.{new_bo, ioctl_create_dumb, ioctl_destroy_dumb, drm_mmap}
use luna_os_arm.Shim.Dispatch.{drm_ioctl}
use luna_os_arm.Shim.Valid.{IsValid, started-IsValid, handle_ioctl-IsValid, u64-small}
use luna_os_arm.Shim.Live.{
  Created, full, refused, granted, made_bo, ioctl_create_dumb-Created, find_bo-ioctl_gem_close,
}

-- A structure read back from the request that it was sent in.
module _ (contiguous : ℕ → Option ℕ) where
  abbrev call {ℓ} :
      {A : Type ℓ} → (A → Request) → (Request → A) → A → Option Shim → ℕ × A × Option Shim
  call send back a s = let (e, req, s') = drm_ioctl contiguous (send a) s in (e, back req, s')

  abbrev plain : Request → Option Shim → ℕ × Option Shim
  plain send s = let (e, _, s') = drm_ioctl contiguous send s in (e, s')

-- The structure of each command, `d` where the request is another's.
abbrev as_version : Version → Request → Version
as_version d (version v) = v
as_version d _ = d

abbrev as_resources : CardRes → Request → CardRes
as_resources d (get_resources r) = r
as_resources d _ = d

abbrev as_connector : Connector → Request → Connector
as_connector d (get_connector r) = r
as_connector d _ = d

abbrev as_encoder : Encoder → Request → Encoder
as_encoder d (get_encoder r) = r
as_encoder d _ = d

abbrev as_crtc : Crtc → Request → Crtc
as_crtc d (get_crtc r) = r
as_crtc d (set_crtc c) = c
as_crtc d _ = d

abbrev as_fb : FbCmd → Request → FbCmd
as_fb d (add_fb r) = r
as_fb d _ = d

abbrev as_create : CreateDumb → Request → CreateDumb
as_create d (create_dumb r) = r
as_create d _ = d

abbrev as_map : MapDumb → Request → MapDumb
as_map d (map_dumb r) = r
as_map d _ = d

abbrev as_prime : PrimeHandle → Request → PrimeHandle
as_prime d (prime_handle_to_fd r) = r
as_prime d (prime_fd_to_handle p) = p
as_prime d _ = d

-- mmap of the device: the hook `drm_mmap` first, and only when it does not refuse, the place that the
-- kernel finds for the mapping.
abbrev mapped : ((size offset : ℕ) → Option ℕ) → (size offset : ℕ) → Option Shim → Option ℕ
mapped place size offset none = none
mapped place size offset (some s) = if drm_mmap s == 0 then place size offset else none

-- The device that `drm_cdevsw` registers; `place` is where the kernel maps.
abbrev pub shim_device :
    (contiguous : ℕ → Option ℕ) → (place : (size offset : ℕ) → Option ℕ) → Device
shim_device contiguous place = record {
  State = Option Shim;
  version = λ r s. call contiguous version (as_version r) r s;
  get_resources = λ r s. call contiguous get_resources (as_resources r) r s;
  get_connector = λ r s. call contiguous get_connector (as_connector r) r s;
  get_encoder = λ r s. call contiguous get_encoder (as_encoder r) r s;
  get_crtc = λ r s. call contiguous get_crtc (as_crtc r) r s;
  set_crtc = λ r s. call contiguous set_crtc (as_crtc r) r s;
  add_fb = λ r s. call contiguous add_fb (as_fb r) r s;
  rm_fb = λ b s. plain contiguous (rm_fb b) s;
  create_dumb = λ r s. call contiguous create_dumb (as_create r) r s;
  map_dumb = λ r s. call contiguous map_dumb (as_map r) r s;
  destroy_dumb = λ h s. plain contiguous (destroy_dumb h) s;
  gem_close = λ h s. plain contiguous (gem_close h) s;
  prime_handle_to_fd = λ r s. call contiguous prime_handle_to_fd (as_prime r) r s;
  prime_fd_to_handle = λ r s. call contiguous prime_fd_to_handle (as_prime r) r s;
  mmap = mapped place;
}

abbrev pub Loaded : Option Shim → Type 0
Loaded none = Unit {0}
Loaded (some s) = IsValid s

abbrev pub dumb_of : DumbBo → Dumb
dumb_of b = record { width = b.width; height = b.height; pitch = b.pitch; size = b.size }

abbrev pub live_dumb : Option Shim → ℕ → Option Dumb
live_dumb none h = none
live_dumb (some s) h = Option.map dumb_of (find_bo s h)

asked-size : (r : CreateDumb) (k : ℕ) → r.height < 2 ^ 32 → (new_bo r k).size ≡ (asked r).size
asked-size r k small =
    u64-small (kernel_pitch r.width (bpp_or_32 r.bpp)) r.height
      (kernel_pitch_bounds r.width (bpp_or_32 r.bpp)).3 small

dumb_of-made_bo : (r : CreateDumb) (k p : ℕ) → r.height < 2 ^ 32 → dumb_of (made_bo r k p) ≡ asked r
dumb_of-made_bo r k p small = rw (asked-size r k small)

module _ (c : ℕ → Option ℕ) (place : (size offset : ℕ) → Option ℕ) where
  created_valid :
      (r : CreateDumb) (s : Option Shim)
      → Loaded s
      → r.height < 2 ^ 32
      → Loaded ((shim_device c place).create_dumb r s).2
  unfolding drm_ioctl
  created_valid r none v small = tt
  created_valid r (some s) v small = handle_ioctl-IsValid c (create_dumb r) s small v

  -- What a client may rely on when it creates a buffer.
  abbrev CreateLaw : CreateDumb → Option Shim → (ℕ × CreateDumb × Option Shim) → Type 0
  CreateLaw r s out =
      ((out.0 ≢ 0) × ((h : ℕ) → live_dumb out.2 h ≡ live_dumb s h))
      ⊎ ((out.0 ≡ 0)
          × (out.1.pitch ≡ (asked r).pitch)
          × (out.1.size ≡ (asked r).size)
          × (live_dumb s out.1.handle ≡ none)
          × ((h : ℕ)
              → live_dumb out.2 h ≡ (if h == out.1.handle then some (asked r) else live_dumb s h)))

  outcome_law :
      (r : CreateDumb) (s : Shim) (out : ℕ × CreateDumb × Shim)
      → r.height < 2 ^ 32
      → Created c r s out
      → CreateLaw r (some s) (out.0, out.1, some out.2)
  outcome_law r s out small (full e all) =
      inl (λ z. omega (arith, ap (λ (q : ℕ × CreateDumb × Shim). q.0) e), λ h. rw e)
  outcome_law r s out small (refused no_memory e e' same n) =
      inl (λ z. omega arith, λ h. rw (same h))
  outcome_law r s out small (granted k p got e e' free below new same n) = inr (
    e,
    rw e',
    rw e' (asked-size r k small),
    (let i : out.1.handle ≡ k = rw e' in rw (i, free)),
    λ h. elim (ℕ_discrete h k) [
      | yes it ↦ ground (arith, dumb_of-made_bo r k p small)
      | no ne ↦ ground (arith, same h ne)
    ],
  )

  create_law :
      (r : CreateDumb) (s : Option Shim)
      → Loaded s
      → r.height < 2 ^ 32
      → CreateLaw r s ((shim_device c place).create_dumb r s)
  unfolding drm_ioctl
  create_law r none v small = inl (λ z. omega arith, λ h. refl)
  create_law r (some s) v small =
      outcome_law r s (ioctl_create_dumb c r s) small (ioctl_create_dumb-Created c r s v.slots)

  destroyed_valid :
      (h : ℕ) (s : Option Shim) → Loaded s → Loaded ((shim_device c place).destroy_dumb h s).1
  unfolding drm_ioctl
  destroyed_valid h none v = tt
  destroyed_valid h (some s) v = handle_ioctl-IsValid c (destroy_dumb h) s tt v

  closed_valid :
      (h : ℕ) (s : Option Shim) → Loaded s → Loaded ((shim_device c place).gem_close h s).1
  unfolding drm_ioctl
  closed_valid h none v = tt
  closed_valid h (some s) v = handle_ioctl-IsValid c (gem_close h) s tt v

  closed_law :
      (h k : ℕ) (s : Option Shim)
      → Loaded s
      → live_dumb ((shim_device c place).gem_close h s).1 k
        ≡ (if k == h then none else live_dumb s k)
  unfolding drm_ioctl
  closed_law h k none v = ground arith
  closed_law h k (some s) v = ground (arith, find_bo-ioctl_gem_close s h k v.slots)

  destroyed_law :
      (h k : ℕ) (s : Option Shim)
      → Loaded s
      → live_dumb ((shim_device c place).destroy_dumb h s).1 k
        ≡ (if k == h then none else live_dumb s k)
  unfolding drm_ioctl ioctl_destroy_dumb
  destroyed_law h k none v = ground arith
  destroyed_law h k (some s) v = ground (arith, find_bo-ioctl_gem_close s h k v.slots)

  map_law : (r : MapDumb) (s : Option Shim) → Loaded s → ((shim_device c place).map_dumb r s).2 ≡ s
  unfolding drm_ioctl
  map_law r none v = refl
  map_law r (some s) v = refl

-- The shim keeps the contract of the dumb-buffer ioctls, where the valid states are those that keep
-- the table's invariant, and the live buffers those that the table finds: a creation adds the buffer
-- asked for at a handle that was free or changes nothing, a close ends its handle and no other.
pub shim_lawful :
    (c : ℕ → Option ℕ) (place : (size offset : ℕ) → Option ℕ)
    → Lawful (shim_device c place) Loaded live_dumb
shim_lawful c place = record {
  create_valid = created_valid c place;
  create_law = create_law c place;
  map_keeps = map_law c place;
  destroy_valid = destroyed_valid c place;
  destroy_law = destroyed_law c place;
  close_valid = closed_valid c place;
  close_law = closed_law c place;
}

-- The shim that has just started keeps the invariant of the contract.
pub started-Loaded : (fb : Option Framebuffer) → Loaded (some (started fb))
started-Loaded fb = started-IsValid fb
