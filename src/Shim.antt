-- ===== src/Shim.antt =====
-- The kernel extension IODRMShimArm64 (drm-shim/kern/IODRMShim.cpp): its state and its table of
-- dumb buffers. Each handler runs under `fLock`, hence as one step on the state.
pub mod Buffers
pub mod Display
pub mod Query
pub mod Dispatch
pub mod Switch
pub mod Table
pub mod Live
pub mod Valid
pub mod Refine
pub mod Reuse
pub mod Blit
pub mod Device
mod Tests
use luna_os_arm.Prelude.{
  ℕ, zero, suc, ◌+◌, ◌-◌, Bool, true, false, Option, none, some, List, [], ◌∷◌, ◌||◌, ltb, ◌==◌,
  if◌then◌else◌, get_elem?, set, replicate,
}

abbrev pub max_dumb_bos : ℕ
max_dumb_bos = 256

-- An IOBufferMemoryDescriptor: its physical address and its bytes.
pub record Memory : Type 0 where
  pub physical : ℕ
  pub bytes : ℕ → ℕ

pub record DumbBo : Type 0 where
  pub handle : ℕ
  pub width : ℕ
  pub height : ℕ
  pub pitch : ℕ
  pub bpp : ℕ
  pub size : ℕ
  pub mem : Option Memory
  pub in_use : Bool

-- What `bzero(fBOs, sizeof(fBOs))` leaves in each slot.
abbrev pub empty_bo : DumbBo
empty_bo = record {
  handle = 0;
  width = 0;
  height = 0;
  pitch = 0;
  bpp = 0;
  size = 0;
  mem = none;
  in_use = false;
}

-- The display's IOSurface, and how many frames have been signalled.
pub record Surface : Type 0 where
  pub bytes : ℕ → ℕ
  pub stride : ℕ
  pub width : ℕ
  pub height : ℕ
  pub swaps : ℕ

-- An IOMobileFramebuffer; `layer` is what IOMobileFramebufferGetLayerDefaultSurface gives.
pub record Framebuffer : Type 0 where
  pub layer : Option Surface

pub record Shim : Type 0 where
  pub framebuffer : Option Framebuffer
  pub display_width : ℕ
  pub display_height : ℕ
  pub bos : List DumbBo
  pub next_handle : ℕ
  pub current_fb_id : ℕ

-- `bzero(fBOs, sizeof(fBOs))`
unfoldable pub empty_table : List DumbBo
empty_table = replicate max_dumb_bos empty_bo

-- The members that `start` sets before it probes the display.
abbrev pub started : Option Framebuffer → Shim
started fb = record {
  framebuffer = fb;
  display_width = 0;
  display_height = 0;
  bos = empty_table;
  next_handle = 1;
  current_fb_id = 0;
}

-- The slot `fBOs[handle - 1]`, if its buffer is in use.
abbrev pub if_in_use : Option DumbBo → Option DumbBo
if_in_use none = none
if_in_use (some b) = if b.in_use then some b else none

unfoldable pub find_bo : Shim → ℕ → Option DumbBo
find_bo s handle =
    if handle == 0 || ltb max_dumb_bos handle
    then none
    else if_in_use (get_elem? s.bos (handle - 1))

-- The loop of `allocHandle` from index `i`.
unfoldable pub first_free : List DumbBo → ℕ → ℕ
first_free [] i = 0
first_free (b ∷ bs) i = let rest = first_free bs (i + 1) in if b.in_use then rest else i + 1

unfoldable pub alloc_handle : Shim → ℕ
alloc_handle s = first_free s.bos 0

-- A write to `fBOs[handle - 1]`.
abbrev pub put_bo : Shim → ℕ → DumbBo → Shim
put_bo s handle b = record s { bos = set s.bos (handle - 1) b }
