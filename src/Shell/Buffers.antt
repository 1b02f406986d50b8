-- ===== src/Shell/Buffers.antt =====
-- The panel and the wallpaper that shell/src/luna-shell-main.c draws for an output: the shared
-- memory, what is painted into it, and what is asked of the compositor. What shm_open, ftruncate
-- and mmap give is an argument; `none` is undefined behaviour, as in Shell.Pixels.
use luna_os_arm.Prelude.{
  ℕ, zero, suc, ◌+◌, ◌-◌, ◌/◌, Bool, Option, none, some, List, [], ◌∷◌, ◌++◌, if◌then◌else◌,
  replicate, ◌>>=◌,
}
use luna_os_arm.Shell.Pixels.{mul_int, fill}

abbrev pub default_scale : ℕ
default_scale = 2

abbrev pub panel_h_logical : ℕ
panel_h_logical = 36

abbrev pub c_panel_bg : ℕ
c_panel_bg = 0xE6101010

abbrev pub c_accent : ℕ
c_accent = 0xFF4A90D9

abbrev pub c_launcher : ℕ
c_launcher = 0x22FFFFFF

-- `struct luna_output`, with a width and a height that are not negative.
pub record Output : Type 0 where
  pub width : ℕ
  pub height : ℕ
  pub scale : ℕ
  pub name : List ℕ

-- What the system answers while one buffer is made.
pub record Shm : Type 0 where
  pub shm_fd : Option ℕ
  pub truncates : Bool
  pub maps : Bool

pub data Layer : Type 0 where
  background : Layer
  top : Layer
  overlay : Layer

pub data Action : Type 0 where
  opened : ℕ → Action
  unlinked : Action
  closed : ℕ → Action
  mapped : ℕ → Action
  unmapped : ℕ → Action
  -- A new wl_surface with its layer surface.
  layer_surface : Layer → Action
  anchored : Action
  -- `set_size(0, h)`
  sized : ℕ → Action
  -- `set_exclusive_zone`; `none` is -1.
  exclusive_zone : Option ℕ → Action
  pool_created : ℕ → Action
  pool_destroyed : Action
  buffer_destroyed : Action
  buffer_created : (width height stride : ℕ) → Action
  buffer_scale : ℕ → Action
  attached : Action
  attached_null : Action
  -- `wl_surface_commit` without a buffer.
  initial_commit : Action
  -- `ack_configure`
  acknowledged : Action
  -- `set_keyboard_interactivity`
  interactive : Bool → Action
  -- A surface with its layer surface.
  surface_destroyed : Action
  -- `munmap` of MAP_FAILED.
  unmapped_failed : Action
  damaged : (width height : ℕ) → Action
  -- `wl_surface_commit` with these pixels in the buffer.
  committed : List ℕ → Action

-- `create_shm_file`: the descriptor, `none` for -1.
unfoldable pub create_shm_file : Shm → Option ℕ × List Action
create_shm_file shm = elim shm.shm_fd [
  | none ↦ (none, [])
  | some fd ↦
      if shm.truncates
      then (some fd, opened fd ∷ unlinked ∷ [])
      else (none, opened fd ∷ unlinked ∷ closed fd ∷ [])
]

-- The three rectangles of `create_panel_for_output`.
unfoldable pub paint_panel : (w h scale : ℕ) → List ℕ → Option (List ℕ)
paint_panel w h scale px = do
  px' ← fill w 0 0 w h c_panel_bg px
  px'' ← fill w 0 (h - scale) w scale c_accent px'
  lw ← mul_int 100 scale
  fill w 0 0 lw h c_launcher px''

-- `gradient`, with the colour of each row: it is computed in floating point.
unfoldable pub gradient : (ℕ → ℕ → ℕ) → (w h : ℕ) → (rows : ℕ) → (y : ℕ) → List ℕ → Option (List ℕ)
gradient shade w h zero y px = some px
gradient shade w h (suc rows) y px = do
  px' ← fill w 0 y w 1 (shade h y) px
  gradient shade w h rows (y + 1) px'

-- The calls after the pixels are painted.
abbrev pub hand_over : ℕ → (size w h stride scale : ℕ) → List ℕ → List Action
hand_over fd size w h stride scale px =
    pool_created size
    ∷ buffer_created w h stride
    ∷ buffer_scale scale
    ∷ attached
    ∷ damaged w h
    ∷ committed px
    ∷ pool_destroyed
    ∷ unmapped size
    ∷ closed fd
    ∷ []

-- What both functions do with a descriptor: map it, paint, and hand the buffer over.
abbrev pub show_buffer :
    Shm
    → ℕ
    → (size w h stride scale : ℕ) → List Action
    → (List ℕ → Option (List ℕ))
    → Option (List Action)
show_buffer shm fd size w h stride scale surface paint_px =
    if shm.maps
    then (paint_px (replicate (size / 4) 0) >>= λ px.
        some (mapped size ∷ surface ++ hand_over fd size w h stride scale px))
    else some (closed fd ∷ [])

abbrev pub after : List Action → Option (List Action) → Option (List Action)
after acts none = none
after acts (some more) = some (acts ++ more)

abbrev pub with_file : Option ℕ × List Action → (ℕ → Option (List Action)) → Option (List Action)
with_file (none, acts) show = some acts
with_file (some fd, acts) show = after acts (show fd)

abbrev pub panel_surface : List Action
panel_surface =
    layer_surface top
    ∷ anchored
    ∷ sized panel_h_logical
    ∷ exclusive_zone (some panel_h_logical)
    ∷ []

-- `create_panel_for_output`
unfoldable pub create_panel_for_output : Shm → Output → Option (List Action)
create_panel_for_output shm out = do
  phys_h ← mul_int panel_h_logical out.scale
  stride ← mul_int out.width 4
  size ← mul_int stride phys_h
  with_file (create_shm_file shm) (λ fd.
      show_buffer shm fd size out.width phys_h stride out.scale panel_surface
        (paint_panel out.width phys_h out.scale))

abbrev pub wallpaper_surface : List Action
wallpaper_surface = layer_surface background ∷ anchored ∷ exclusive_zone none ∷ []

-- `create_wallpaper_for_output`
unfoldable pub create_wallpaper_for_output : (ℕ → ℕ → ℕ) → Shm → Output → Option (List Action)
create_wallpaper_for_output shade shm out = do
  stride ← mul_int out.width 4
  size ← mul_int stride out.height
  with_file (create_shm_file shm) (λ fd.
      show_buffer shm fd size out.width out.height stride out.scale wallpaper_surface
        (gradient shade out.width out.height out.height 0))
