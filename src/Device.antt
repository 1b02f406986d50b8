-- ===== src/Device.antt =====
-- /dev/dri/card0 as its clients see it: the ioctls that libdrm-darwin.c and darwin-gbm.c issue and
-- mmap, as operations on a device state. An operation gives the errno, 0 for success, the structure
-- as the kernel leaves it, and the new state.
pub mod Laws
use luna_os_arm.Prelude.{
  ℕ, ◌+◌, ◌*◌, ◌<◌, ◌^◌, ◌≡◌, ◌≢◌, ◌⊎◌, Option, none, some, ◌==◌, if◌then◌else◌,
}
use luna_os_arm.Pitch.{kernel_pitch}
use luna_os_arm.Drm.{
  Version, CardRes, Connector, Encoder, Crtc, FbCmd, CreateDumb, MapDumb, PrimeHandle,
}

pub record Device : Type 1 where
  pub State : Type 0
  pub version : Version → State → ℕ × Version × State
  pub get_resources : CardRes → State → ℕ × CardRes × State
  pub get_connector : Connector → State → ℕ × Connector × State
  pub get_encoder : Encoder → State → ℕ × Encoder × State
  pub get_crtc : Crtc → State → ℕ × Crtc × State
  pub set_crtc : Crtc → State → ℕ × Crtc × State
  pub add_fb : FbCmd → State → ℕ × FbCmd × State
  pub rm_fb : ℕ → State → ℕ × State
  pub create_dumb : CreateDumb → State → ℕ × CreateDumb × State
  pub map_dumb : MapDumb → State → ℕ × MapDumb × State
  pub destroy_dumb : ℕ → State → ℕ × State
  pub gem_close : ℕ → State → ℕ × State
  pub prime_handle_to_fd : PrimeHandle → State → ℕ × PrimeHandle × State
  pub prime_fd_to_handle : PrimeHandle → State → ℕ × PrimeHandle × State
  -- `mmap(NULL, size, PROT_READ | PROT_WRITE, MAP_SHARED, fd, offset)`: the address, `none` for
  -- MAP_FAILED.
  pub mmap : ℕ → ℕ → State → Option ℕ

-- What a client can know of a buffer.
pub record Dumb : Type 0 where
  pub width : ℕ
  pub height : ℕ
  pub pitch : ℕ
  pub size : ℕ

-- `bpp ? bpp : 32`
abbrev pub bpp_or_32 : ℕ → ℕ
bpp_or_32 bpp = if bpp == 0 then 32 else bpp

-- The buffer that a creation asks for.
abbrev pub asked : CreateDumb → Dumb
asked r =
    let pitch = kernel_pitch r.width (bpp_or_32 r.bpp) in
    record { width = r.width; height = r.height; pitch = pitch; size = pitch * r.height }

-- The contract of the dumb-buffer ioctls in the valid states: the live buffers are a map from handles, a
-- creation adds the buffer asked for at a handle that was not live or changes nothing, and a close
-- ends its handle and no other.
pub record Lawful (d : Device) (IsValid : d.State → Type 0) (live : d.State → ℕ → Option Dumb)
    : Type 0 where
  pub create_valid :
      (r : CreateDumb) (s : d.State) → IsValid s → r.height < 2 ^ 32 → IsValid (d.create_dumb r s).2
  pub create_law :
      (r : CreateDumb) (s : d.State)
      → IsValid s
      → r.height < 2 ^ 32
      → (((d.create_dumb r s).0 ≢ 0) × ((h : ℕ) → live (d.create_dumb r s).2 h ≡ live s h))
        ⊎ (((d.create_dumb r s).0 ≡ 0)
            × ((d.create_dumb r s).1.pitch ≡ (asked r).pitch)
            × ((d.create_dumb r s).1.size ≡ (asked r).size)
            × (live s (d.create_dumb r s).1.handle ≡ none)
            × ((h : ℕ)
                → live (d.create_dumb r s).2 h
                  ≡ (if h == (d.create_dumb r s).1.handle then some (asked r) else live s h)))
  pub map_keeps : (r : MapDumb) (s : d.State) → IsValid s → (d.map_dumb r s).2 ≡ s
  pub destroy_valid : (h : ℕ) (s : d.State) → IsValid s → IsValid (d.destroy_dumb h s).1
  pub destroy_law :
      (h k : ℕ) (s : d.State)
      → IsValid s
      → live (d.destroy_dumb h s).1 k ≡ (if k == h then none else live s k)
  pub close_valid : (h : ℕ) (s : d.State) → IsValid s → IsValid (d.gem_close h s).1
  pub close_law :
      (h k : ℕ) (s : d.State)
      → IsValid s
      → live (d.gem_close h s).1 k ≡ (if k == h then none else live s k)
