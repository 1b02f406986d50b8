-- ===== src/Shim/Display.antt =====
-- `ioctl_setcrtc`, `blitToDisplay`, `probeDisplay` and `start` of IODRMShim.cpp.
use luna_os_arm.Prelude.{
  ℕ, zero, suc, ◌+◌, ◌*◌, ◌-◌, Bool, true, false, Option, none, some, ◌==◌, ◌&&◌, ltb, leb,
  if◌then◌else◌, u32, mul32,
}
use luna_os_arm.Drm.{Crtc}
use luna_os_arm.Shim.{Shim, DumbBo, Surface, Framebuffer, find_bo, started}
use luna_os_arm.Errno

-- `bcopy(src + from, dst + to, n)`, for regions that do not overlap.
abbrev pub bcopy : (ℕ → ℕ) → ℕ → (ℕ → ℕ) → ℕ → ℕ → (ℕ → ℕ)
bcopy src from dst to n k = if leb to k && ltb k (to + n) then src (from + (k - to)) else dst k

-- The row loop of `blitToDisplay`, from row `y`, with `rows` rows left. The offset into the source
-- is a product of two `uint32_t`, the offset into the display is a `size_t`.
unfoldable pub copy_rows : (ℕ → ℕ) → ℕ → ℕ → ℕ → (rows : ℕ) → (y : ℕ) → (ℕ → ℕ) → (ℕ → ℕ)
copy_rows src pitch stride bytes zero y dst = dst
copy_rows src pitch stride bytes (suc rows) y dst =
    copy_rows src pitch stride bytes rows (y + 1) (bcopy src (mul32 y pitch) dst (y * stride) bytes)

abbrev pub min_of : ℕ → ℕ → ℕ
min_of a b = if ltb a b then a else b

-- The bytes behind `bo->virt_addr`.
abbrev pub pixels : DumbBo → (ℕ → ℕ)
pixels bo = elim bo.mem [ none ↦ λ _. 0 | some m ↦ m.bytes ]

unfoldable pub blit_surface : DumbBo → Surface → Surface
blit_surface bo d = record d {
  bytes =
      copy_rows (pixels bo) bo.pitch d.stride (min_of bo.pitch d.stride) (min_of bo.height d.height)
        0 d.bytes;
  swaps = d.swaps + 1;
}

-- `blitToDisplay`; the flag is `kIOReturnSuccess`.
unfoldable pub blit_to_display : DumbBo → Shim → Bool × Shim
blit_to_display bo s = elim s.framebuffer [
  | none ↦ (true, s)
  | some fb ↦ elim fb.layer [
    | none ↦ (false, s)
    | some d ↦
        (true, record s { framebuffer = some (record fb { layer = some (blit_surface bo d) }) })
  ]
]

-- `ioctl_setcrtc`: the blit's failure is reported, and the id is recorded all the same.
unfoldable pub ioctl_setcrtc : Crtc → Shim → ℕ × Shim
ioctl_setcrtc req s = if req.fb_id == 0 then (0, s) else elim (find_bo s req.fb_id) [
  | none ↦ (Errno.inval, s)
  | some bo ↦
      let (done, s') = blit_to_display bo s in
      (if done then 0 else Errno.io, record s' { current_fb_id = req.fb_id })
]

-- What the I/O registry and IOMobileFramebufferGetDisplaySize say of the display.
pub record Probe : Type 0 where
  pub properties : Option (ℕ × ℕ)
  pub display_size : Option (ℕ × ℕ)

-- `probeDisplay`, for a framebuffer that is there.
unfoldable pub probe_display : Probe → Shim → Bool × Shim
probe_display p s = elim p.properties [
  | some (w, h) ↦ (true, record s { display_width = u32 w; display_height = u32 h })
  | none ↦ elim p.display_size [
    | some (w, h) ↦
        if ltb 0 w
        then (true, record s { display_width = u32 w; display_height = u32 h })
        else (false, s)
    | none ↦ (false, s)
  ]
]

-- The resolution that `start` falls back on.
abbrev pub with_default : Shim → Shim
with_default s = record s { display_width = 1920; display_height = 1080 }

-- The part of `start` that finds the display's resolution.
unfoldable pub find_display : Probe → Shim → Shim
unfolding probe_display
find_display p s = elim s.framebuffer [
  | none ↦ with_default s
  | some fb ↦ let (ok, s') = probe_display p s in if ok then s' else with_default s'
]

-- `start`: its result, and what `gShim` points at. `major` is cdevsw_add's result, `none` if it is
-- negative; `node` tells whether devfs_make_node made the device node.
unfoldable pub start : Option Framebuffer → Probe → Option ℕ → Bool → Bool × Option Shim
unfolding find_display
start fb p major node =
    let shim = find_display p (started fb) in
    elim major [ none ↦ (false, some shim) | some _ ↦ (node, some shim) ]

-- `stop`: every buffer's memory is released, and `gShim` is null.
abbrev pub stop : Shim → Option Shim
stop s = none
