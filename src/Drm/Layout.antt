-- ===== src/Drm/Layout.antt =====
-- The ioctl structures as they lie in memory, and the command numbers made from their sizes: as the
-- kernel extension declares them (drm-shim/kern/IODRMShim.cpp) and as its clients see them
-- (drm-shim/include/drm_darwin.h). The layout is that of the arm64 ABI: each field at the next
-- multiple of its alignment.
pub mod Agree
pub mod Tests
use Prim.Native.Nat.{max}
use luna_os_arm.Prelude.{
  ℕ, ◌+◌, ◌-◌, ◌*◌, ◌/◌, ◌%◌, ◌^◌, ◌<◌, ◌≡◌, Bool, true, false, List, [], ◌∷◌, ◌++◌, replicate,
}

-- `nested` is a struct of a known size and alignment.
pub data Field : Type 0 where
  uint16 : Field
  uint32 int32 : Field
  uint64 size_t pointer : Field
  chars : (count : ℕ) → Field
  nested : (size align : ℕ) → Field

abbrev pub size : Field → ℕ
size uint16 = 2
size uint32 = 4
size int32 = 4
size uint64 = 8
size size_t = 8
size pointer = 8
size (chars n) = n
size (nested n a) = n

abbrev pub align : Field → ℕ
align (chars n) = 1
align (nested n a) = a
align f = size f

abbrev pub round_up : ℕ → ℕ → ℕ
round_up n a = (n + a - 1) / a * a

-- The offsets of the fields, and the first byte after them.
abbrev pub offsets : ℕ → List Field → List ℕ
offsets at [] = []
offsets at (f ∷ fs) = round_up at (align f) ∷ offsets (round_up at (align f) + size f) fs

abbrev pub end : ℕ → List Field → ℕ
end at [] = at
end at (f ∷ fs) = end (round_up at (align f) + size f) fs

abbrev pub alignment : List Field → ℕ
alignment [] = 1
alignment (f ∷ fs) = max (align f) (alignment fs)

-- `sizeof`
abbrev pub size_of : List Field → ℕ
size_of fs = round_up (end 0 fs) (alignment fs)

-- The commands that both declare, `DRM_IOCTL_` left out.
pub data Command : Type 0 where
  version gem_close prime_handle_to_fd prime_fd_to_handle : Command
  mode_getresources mode_getcrtc mode_setcrtc mode_getencoder mode_getconnector : Command
  mode_addfb mode_rmfb mode_create_dumb mode_map_dumb mode_destroy_dumb : Command

abbrev words : ℕ → List Field
words n = replicate n uint32

abbrev halves : ℕ → List Field
halves n = replicate n uint16

abbrev longs : ℕ → List Field
longs n = replicate n uint64

-- `struct drm_mode_info`, which both declare alike.
abbrev pub mode_info : List Field
mode_info = uint32 ∷ halves 5 ++ (halves 5 ++ (words 3 ++ (chars 32 ∷ [])))

abbrev mode : Field
mode = nested (size_of mode_info) (alignment mode_info)

-- The argument of each command in IODRMShim.cpp.
unfoldable pub kernel_struct : Command → List Field
kernel_struct version =
    int32 ∷ int32 ∷ int32 ∷ size_t ∷ pointer ∷ size_t ∷ pointer ∷ size_t ∷ pointer ∷ []
kernel_struct gem_close = uint32 ∷ uint32 ∷ []
kernel_struct prime_handle_to_fd = uint32 ∷ uint32 ∷ int32 ∷ []
kernel_struct prime_fd_to_handle = uint32 ∷ uint32 ∷ int32 ∷ []
kernel_struct mode_getresources = longs 4 ++ (words 4 ++ words 4)
kernel_struct mode_getcrtc = uint64 ∷ words 3 ++ (words 4 ++ (mode ∷ []))
kernel_struct mode_setcrtc = uint64 ∷ words 3 ++ (words 4 ++ (mode ∷ []))
kernel_struct mode_getencoder = words 3 ++ words 2
kernel_struct mode_getconnector = longs 4 ++ (words 3 ++ (words 4 ++ (words 4 ++ words 1)))
kernel_struct mode_addfb = words 7
kernel_struct mode_rmfb = uint32 ∷ []
kernel_struct mode_create_dumb = words 6 ++ (uint64 ∷ [])
kernel_struct mode_map_dumb = uint32 ∷ uint32 ∷ uint64 ∷ []
kernel_struct mode_destroy_dumb = uint32 ∷ []

-- The argument of each command in drm_darwin.h.
unfoldable pub user_struct : Command → List Field
user_struct version =
    int32 ∷ int32 ∷ int32 ∷ uint64 ∷ pointer ∷ uint64 ∷ pointer ∷ uint64 ∷ pointer ∷ []
user_struct gem_close = uint32 ∷ uint32 ∷ []
user_struct prime_handle_to_fd = uint32 ∷ uint32 ∷ int32 ∷ uint32 ∷ []
user_struct prime_fd_to_handle = uint32 ∷ uint32 ∷ int32 ∷ uint32 ∷ []
user_struct mode_getresources = longs 4 ++ (words 4 ++ words 4)
user_struct mode_getcrtc =
    uint64 ∷ uint32 ∷ uint32 ∷ uint32 ∷ words 2 ++ (uint32 ∷ uint32 ∷ mode ∷ [])
user_struct mode_setcrtc =
    uint64 ∷ uint32 ∷ uint32 ∷ uint32 ∷ words 2 ++ (uint32 ∷ uint32 ∷ mode ∷ [])
user_struct mode_getencoder = words 3 ++ words 2
user_struct mode_getconnector = longs 4 ++ (words 3 ++ (words 4 ++ (words 4 ++ words 1)))
user_struct mode_addfb = words 7
user_struct mode_rmfb = uint32 ∷ []
user_struct mode_create_dumb = words 4 ++ (words 2 ++ (uint64 ∷ []))
user_struct mode_map_dumb = uint32 ∷ uint32 ∷ uint64 ∷ []
user_struct mode_destroy_dumb = uint32 ∷ []

-- The number of a command within the group 'd', alike in both files.
unfoldable pub nr : Command → ℕ
nr version = 0x00
nr gem_close = 0x9
nr prime_handle_to_fd = 0x2d
nr prime_fd_to_handle = 0x2e
nr mode_getresources = 0xa0
nr mode_getcrtc = 0xa1
nr mode_setcrtc = 0xa2
nr mode_getencoder = 0xa6
nr mode_getconnector = 0xa7
nr mode_addfb = 0xae
nr mode_rmfb = 0xaf
nr mode_create_dumb = 0xb2
nr mode_map_dumb = 0xb3
nr mode_destroy_dumb = 0xb4

-- `DRM_IOW` or `DRM_IOWR`.
pub data Direction : Type 0 where
  write write_read : Direction

unfoldable pub direction : Command → Direction
direction gem_close = write
direction _ = write_read

-- _IOW and _IOWR of <sys/ioccom.h>: a command number has the direction, the size of the argument in
-- 13 bits, the group and the number, of 8 bits each.
pub record Encoding : Type 0 where
  pub ioc : Direction → (group number size : ℕ) → ℕ
  pub same_size :
      (d : Direction) (g n a b : ℕ)
      → g < 2 ^ 8
      → n < 2 ^ 8
      → ioc d g n a ≡ ioc d g n b
      → a % 2 ^ 13 ≡ b % 2 ^ 13
  pub same_number :
      (d e : Direction) (g n m a b : ℕ)
      → g < 2 ^ 8
      → n < 2 ^ 8
      → m < 2 ^ 8
      → ioc d g n a ≡ ioc e g m b
      → n ≡ m

unfoldable pub kernel_number : Encoding → Command → ℕ
unfolding direction nr kernel_struct
kernel_number e c = e.ioc (direction c) b'd' (nr c) (size_of (kernel_struct c))

unfoldable pub user_number : Encoding → Command → ℕ
unfolding direction nr user_struct
user_number e c = e.ioc (direction c) b'd' (nr c) (size_of (user_struct c))
