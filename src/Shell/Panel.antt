-- ===== src/Shell/Panel.antt =====
-- The panel of shell/src/luna-panel.c: its shared memory, what it draws, and the zones in which a
-- click hits something. What shm_open, ftruncate and mmap give, the text of the clock and the
-- configuration are arguments. `none` is undefined behaviour: a store outside the mapping or
-- through a pointer that no longer is one, an `int` that overflows in the size of the buffer, or a
-- call with a buffer that is NULL or was destroyed.
use luna_os_arm.Prelude.{
  ℕ, zero, suc, ◌+◌, ◌-◌, ◌*◌, ◌/◌, Bool, true, false, Option, none, some, List, [], ◌∷◌, ◌++◌, ltb,
  leb, if◌then◌else◌, length, replicate, ◌>>=◌,
}
use luna_os_arm.Shell.Pixels.{mul_int, fill, fill_below}
use luna_os_arm.Shell.Buffers.{Shm, Layer, Action}

-- The fields of `struct luna_shell_config` that the panel reads.
pub record Config : Type 0 where
  pub panel_height : ℕ
  pub panel_bg_color : ℕ
  pub panel_fg_color : ℕ
  pub panel_accent_color : ℕ
  pub font_size : ℕ

-- `struct luna_toplevel`
pub record Toplevel : Type 0 where
  pub title : List ℕ
  pub app_id : List ℕ
  pub activated : Bool

-- The pointer to the pixels: a mapping that is there, with what is in it, one that is unmapped,
-- and the other values it takes.
pub data Pixels : Type 0 where
  null : Pixels
  map_failed : Pixels
  dangling : Pixels
  memory : List ℕ → Pixels

pub record Zone : Type 0 where
  pub x : ℕ
  pub w : ℕ

-- `struct luna_panel`; `shm_fd` is `none` for a negative one, `buffer` tells whether the
-- pointers to the pool and the buffer are set, `zone_toplevels` has the entries below `zone_toplevel_count`.
pub record Panel : Type 0 where
  pub width : ℕ
  pub height : ℕ
  pub phys_w : ℕ
  pub phys_h : ℕ
  pub scale : ℕ
  pub configured : Bool
  pub dirty : Bool
  pub pixels : Pixels
  pub size : ℕ
  pub shm_fd : Option ℕ
  pub buffer : Bool
  pub zone_launcher : Zone
  pub zone_toplevels : List Zone

-- `output->scale > 0 ? output->scale : 1`
abbrev pub scale_of : ℕ → ℕ
scale_of s = if ltb 0 s then s else 1

abbrev pub no_zone : Zone
no_zone = record { x = 0; w = 0 }

-- `luna_panel_create`: `calloc` leaves the descriptor 0.
unfoldable pub panel_create : Config → (output_scale : ℕ) → Panel × List Action
panel_create cfg output_scale = (
  record {
    width = 0;
    height = cfg.panel_height;
    phys_w = 0;
    phys_h = 0;
    scale = scale_of output_scale;
    configured = false;
    dirty = false;
    pixels = null;
    size = 0;
    shm_fd = some 0;
    buffer = false;
    zone_launcher = no_zone;
    zone_toplevels = [];
  },
  Action.layer_surface Layer.top
      ∷ Action.anchored
      ∷ Action.sized cfg.panel_height
      ∷ Action.exclusive_zone (some cfg.panel_height)
      ∷ Action.interactive false
      ∷ Action.initial_commit
      ∷ [],
)

-- The mapping that `mmap` makes; behind an object that was not truncated there is no memory.
abbrev pub mapping : Shm → ℕ → Pixels
mapping shm size = memory (if shm.truncates then replicate (size / 4) 0 else [])

-- `create_shm` once the size is known, with what shm_open gives; nothing looks at the result of
-- `ftruncate`.
abbrev pub create_shm_of :
    Option ℕ → Shm → (phys_w phys_h stride size : ℕ) → Panel → Panel × List Action
create_shm_of none shm phys_w phys_h stride size p = (record p { size = size; shm_fd = none }, [])
create_shm_of (some fd) shm phys_w phys_h stride size p =
    if shm.maps
    then (
      record p { size = size; shm_fd = some fd; pixels = mapping shm size; buffer = true },
      Action.opened fd
          ∷ Action.unlinked
          ∷ Action.mapped size
          ∷ Action.pool_created size
          ∷ Action.buffer_created phys_w phys_h stride
          ∷ [],
    )
    else (
      record p { size = size; shm_fd = some fd; pixels = map_failed },
      Action.opened fd ∷ Action.unlinked ∷ Action.closed fd ∷ [],
    )

-- `create_shm`
unfoldable pub create_shm : Shm → Panel → Option (Panel × List Action)
create_shm shm p = do
  stride ← mul_int p.phys_w 4
  size ← mul_int stride p.phys_h
  some (create_shm_of shm.shm_fd shm p.phys_w p.phys_h stride size p)

-- `(ph - fsize) / 2 + fsize / 4`, the first row of a text: a difference, where the second number is
-- not zero only for a text that may begin above the panel.
abbrev pub text_top : (ph fsize : ℕ) → ℕ × ℕ
text_top ph fsize =
    if leb fsize ph then ((ph - fsize) / 2 + fsize / 4, 0) else (fsize / 4, (fsize - ph) / 2)

-- `draw_text_stub` with `n` characters left.
unfoldable pub draw_text_stub :
    (stride x top : ℕ) → (n : ℕ) → (color fsize : ℕ) → List ℕ → Option (List ℕ)
draw_text_stub stride x top zero color fsize px = some px
draw_text_stub stride x top (suc n) color fsize px = do
  px' ← fill stride x top (fsize / 2 - 1) (fsize / 2) color px
  draw_text_stub stride (x + fsize / 2) top n color fsize px'

-- The same at an index that may be negative.
unfoldable pub draw_text_below :
    (stride x top below : ℕ) → (n : ℕ) → (color fsize : ℕ) → List ℕ → Option (List ℕ)
draw_text_below stride x top below zero color fsize px = some px
draw_text_below stride x top below (suc n) color fsize px = do
  px' ← fill_below stride x top (fsize / 2 - 1) (fsize / 2) below color px
  draw_text_below stride (x + fsize / 2) top below n color fsize px'

-- `draw_text_stub` at the column `x.0 - x.1` and the row `top.0 - top.1`.
abbrev pub draw_text :
    (stride : ℕ) → (x top : ℕ × ℕ) → (n color fsize : ℕ) → List ℕ → Option (List ℕ)
draw_text stride (x, zero) (top, zero) n color fsize px =
    draw_text_stub stride x top n color fsize px
draw_text stride (x, left) (top, up) n color fsize px =
    draw_text_below stride x top (up * stride + left) n color fsize px

-- `tl->title[0] ? tl->title : tl->app_id`
abbrev pub label : Toplevel → List ℕ
label tl = elim tl.title [ [] ↦ tl.app_id | c ∷ cs ↦ tl.title ]

-- The loop over the windows: the pixels, and the zones from number `count` on.
unfoldable pub draw_toplevels :
    Config
    → (pw ph sc : ℕ) → (top : ℕ × ℕ) → (count x : ℕ) → List Toplevel
    → List ℕ
    → Option (List ℕ × List Zone)
draw_toplevels cfg pw ph sc top count x [] px = some (px, [])
draw_toplevels cfg pw ph sc top count x (tl ∷ tls) px =
    if ltb count 32
    then (do
      px' ←
          fill pw x (4 * sc) (140 * sc) (ph - 8 * sc)
            (if tl.activated then 0x33FFFFFF else 0x11FFFFFF) px
      px'' ←
          draw_text pw (x + 8 * sc, 0) top (length (label tl)) cfg.panel_fg_color
            (cfg.font_size * sc) px'
      (out, zones) ← draw_toplevels cfg pw ph sc top (count + 1) (x + (140 * sc + 4 * sc)) tls px''
      some (out, record { x = x / sc; w = 140 * sc / sc } ∷ zones))
    else some (px, [])

-- `pw - cw - 8 * sc`, as a difference
abbrev pub clock_x : (pw sc fsize len : ℕ) → ℕ × ℕ
clock_x pw sc fsize len =
    let cw = (len * (fsize / 2) + 16) * sc in
    if leb (cw + 8 * sc) pw then (pw - cw - 8 * sc, 0) else (0, cw + 8 * sc - pw)

-- The line at the row `ph - sc`.
abbrev pub bottom_line : (pw ph sc c : ℕ) → List ℕ → Option (List ℕ)
bottom_line pw ph sc c px =
    if leb sc ph
    then fill pw 0 (ph - sc) pw sc c px
    else fill_below pw 0 0 pw sc ((sc - ph) * pw) c px

-- What `luna_panel_render` draws: the pixels and the zones of the windows.
unfoldable pub draw :
    Config → (pw ph sc : ℕ) → List Toplevel → (clk : List ℕ) → List ℕ → Option (List ℕ × List Zone)
draw cfg pw ph sc tls clk px =
    let fsize = cfg.font_size * sc in
    let top = text_top ph fsize in
    (do
      px1 ← fill pw 0 0 pw ph cfg.panel_bg_color px
      px2 ← bottom_line pw ph sc cfg.panel_accent_color px1
      px3 ← fill pw (8 * sc) (4 * sc) (80 * sc) (ph - 8 * sc) 0x224A90D9 px2
      px4 ← draw_text pw (8 * sc + 8 * sc, 0) top 4 cfg.panel_fg_color fsize px3
      px5 ← fill pw (8 * sc + (80 * sc + 8 * sc)) (8 * sc) sc (ph - 16 * sc) 0x33FFFFFF px4
      (px6, zones) ←
          draw_toplevels cfg pw ph sc top 0 (8 * sc + (80 * sc + 8 * sc) + 8 * sc) tls px5
      px7 ←
          draw_text pw (clock_x pw sc fsize (length clk)) top (length clk) cfg.panel_fg_color fsize
            px6
      some (px7, zones))

-- The panel with what a render leaves.
abbrev pub rendered : Panel → Pixels → List Zone → Panel
rendered p px zones = record p {
  pixels = px;
  zone_launcher = record { x = 8 * p.scale / p.scale; w = 80 * p.scale / p.scale };
  zone_toplevels = zones;
  dirty = false;
}

-- Behind MAP_FAILED there is no pixel, so that a store there is undefined; without one the buffer is
-- attached, which is NULL unless there was one before, which was destroyed. A pointer dangles
-- when its buffer was destroyed, too.
abbrev pub render_on :
    Config → List Toplevel → List ℕ → Panel → Pixels → Option (Panel × List Action)
render_on cfg tls clk p null = some (p, [])
render_on cfg tls clk p map_failed = if p.buffer then none else (do
  (out, zones) ← draw cfg p.phys_w p.phys_h p.scale tls clk []
  some (
    rendered p map_failed zones,
    Action.attached_null
        ∷ Action.damaged p.phys_w p.phys_h
        ∷ Action.buffer_scale p.scale
        ∷ Action.initial_commit
        ∷ [],
  ))
render_on cfg tls clk p dangling = none
render_on cfg tls clk p (memory px) = do
  (out, zones) ← draw cfg p.phys_w p.phys_h p.scale tls clk px
  some (
    rendered p (memory out) zones,
    Action.attached
        ∷ Action.damaged p.phys_w p.phys_h
        ∷ Action.buffer_scale p.scale
        ∷ Action.committed out
        ∷ [],
  )

-- `luna_panel_render`
unfoldable pub panel_render : Config → List Toplevel → List ℕ → Panel → Option (Panel × List Action)
panel_render cfg tls clk p = if p.configured then render_on cfg tls clk p p.pixels else some (p, [])

abbrev pub is_null : Pixels → Bool
is_null null = true
is_null p = false

-- `munmap(p->pixels, p->size)`
abbrev pub unmap : Pixels → ℕ → List Action
unmap null size = []
unmap map_failed size = Action.unmapped_failed ∷ []
unmap dangling size = Action.unmapped size ∷ []
unmap (memory px) size = Action.unmapped size ∷ []

abbrev pub close_fd : Option ℕ → List Action
close_fd none = []
close_fd (some fd) = Action.closed fd ∷ []

-- The old buffer is given back when a size comes.
abbrev pub give_back : Panel → Panel × List Action
give_back p = if is_null p.pixels then (p, []) else (
  record p { pixels = dangling },
  unmap p.pixels p.size ++ (Action.buffer_destroyed ∷ Action.pool_destroyed ∷ close_fd p.shm_fd),
)

-- A mapping that failed left no buffer, or one that was destroyed: wl_buffer_destroy of it is
-- undefined.
abbrev pub can_give_back : Pixels → Option (Unit {0})
can_give_back null = some tt
can_give_back map_failed = none
can_give_back dangling = none
can_give_back (memory px) = some tt

-- `ls_configure`; the result of `create_shm` is not looked at.
unfoldable pub ls_configure :
    Config
    → List Toplevel
    → List ℕ
    → (output_scale : ℕ) → Shm
    → (w h : ℕ) → Panel
    → Option (Panel × List Action)
ls_configure cfg tls clk output_scale shm w h p = do
  phys_w ← mul_int w (scale_of output_scale)
  phys_h ← mul_int h (scale_of output_scale)
  ok ← can_give_back p.pixels
  let (old, freed) = give_back (record p {
    width = w;
    height = h;
    scale = scale_of output_scale;
    phys_w = phys_w;
    phys_h = phys_h;
  })
  (made, got) ← create_shm shm old
  (shown, drawn) ← panel_render cfg tls clk (record made { configured = true })
  some (shown, (Action.acknowledged ∷ freed) ++ got ++ drawn)

-- `luna_panel_destroy`
unfoldable pub panel_destroy : Panel → List Action
panel_destroy p =
    unmap p.pixels p.size
    ++ (if p.buffer then Action.buffer_destroyed ∷ Action.pool_destroyed ∷ [] else [])
    ++ close_fd p.shm_fd
    ++ (Action.surface_destroyed ∷ [])
