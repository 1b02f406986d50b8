-- ===== src/Launcher/Draw.antt =====
-- What the launcher draws (`launcher_render` of shell/src/luna-launcher-wallpaper.c), as pixels of
-- shared memory. `none` is a store outside the mapping or an `int` that overflows. A width or height
-- of 2^31 or more, which `ll_configure` stores in an `int`, is left out: `layout` gives none. What may
-- begin left of or above the launcher is a difference, a pair of numbers.
use luna_os_arm.Prelude.{
  ℕ, ◌+◌, ◌-◌, ◌*◌, ◌/◌, ◌%◌, ◌^◌, Bool, false, Option, none, some, List, [], ◌∷◌, ◌++◌, ◌==◌, ltb,
  leb, if◌then◌else◌, length, take, min, sub32, ◌>>=◌,
}
use luna_os_arm.Prelude.Text.{codes}
use luna_os_arm.Shell.Pixels.{mul_int, fill_below}
use luna_os_arm.Shell.Panel.{draw_text_below}
use luna_os_arm.Launcher.{App}

-- The geometry of `struct luna_launcher`; `hover_idx` is `none` for -1.
pub record Grid : Type 0 where
  pub width : ℕ
  pub height : ℕ
  pub scale : ℕ
  pub cols : ℕ
  pub cell_w : ℕ
  pub cell_h : ℕ
  pub icon_size : ℕ
  pub hover_idx : Option ℕ

-- A number that is an `int`, and a sum of two.
abbrev pub as_int : ℕ → Option ℕ
as_int a = if ltb a (2 ^ 31) then some a else none

abbrev pub add_int : ℕ → ℕ → Option ℕ
add_int a b = as_int (a + b)

-- The geometry that `ll_configure` computes; `w - 64` is unsigned.
unfoldable pub layout : (display_scale icon_size : ℕ) → Option ℕ → (w h : ℕ) → Option Grid
layout display_scale icon_size hover w h = do
  cell_w ← add_int icon_size 24
  cell_h ← add_int icon_size 36
  width ← as_int w
  height ← as_int h
  let cols = sub32 w 64 / cell_w
  some (record {
    width = width;
    height = height;
    scale = if ltb display_scale 1 then 1 else display_scale;
    cols = if ltb cols 1 then 1 else cols;
    cell_w = cell_w;
    cell_h = cell_h;
    icon_size = icon_size;
    hover_idx = hover;
  })

abbrev builtin : List ℕ → List ℕ → List ℕ → ℕ → App
builtin name exec icon color = record {
  name = name;
  exec = exec;
  icon_name = icon;
  accent_color = color;
}

-- `BUILTIN_APPS`
unfoldable pub builtin_apps : List App
builtin_apps =
    builtin (codes "Terminal") (codes "foot") (codes "terminal") 0xFF2D8CFF
    ∷ builtin (codes "Files") (codes "luna-files") (codes "file-manager") 0xFF4CAF50
    ∷ builtin (codes "Text Editor") (codes "luna-editor") (codes "text-editor") 0xFFFF9800
    ∷ builtin (codes "Settings") (codes "luna-settings") (codes "preferences") 0xFF607D8B
    ∷ []

-- `(a - b) / 2`, as a difference.
abbrev pub half_of : ℕ → ℕ → ℕ × ℕ
half_of a b = if leb b a then ((a - b) / 2, 0) else (0, (b - a) / 2)

abbrev pub shift : ℕ × ℕ → ℕ × ℕ → ℕ × ℕ
shift (a, b) (c, d) = (a + c, b + d)

-- `a * b * c`
abbrev pub product : ℕ → ℕ → ℕ → Option ℕ
product a b c = do ab ← mul_int a b; mul_int ab c

-- The left edge of the columns.
abbrev pub grid_x : Grid → Option (ℕ × ℕ)
grid_x l = do
  w ← mul_int l.width l.scale
  cells ← product l.cols l.cell_w l.scale
  some (half_of w cells)

-- The left edge of the cell of application `i`, for the left edge `gx`, and its top edge.
abbrev pub cell_x : Grid → (gx : ℕ × ℕ) → ℕ → Option (ℕ × ℕ)
cell_x l gx i = do across ← product (i % l.cols) l.cell_w l.scale; some (shift gx (across, 0))

abbrev pub cell_y : Grid → ℕ → Option ℕ
cell_y l i = do
  gy ← mul_int 72 l.scale
  down ← product (i / l.cols) l.cell_h l.scale
  add_int gy down

-- Whether the loop goes on with application `i`.
abbrev pub row_fits : Grid → ℕ → Option Bool
row_fits l i = do
  cy ← cell_y l i
  cell ← mul_int l.cell_h l.scale
  bottom ← add_int cy cell
  h ← mul_int l.height l.scale
  some (leb bottom h)

-- A byte of a colour, 30 brighter in `uint8_t`.
abbrev brighter : (color bit : ℕ) → ℕ
brighter color bit = (color / 2 ^ bit % 256 + 30) % 256

abbrev is_at : Option ℕ → ℕ → Bool
is_at none i = false
is_at (some j) i = j == i

abbrev icon_color : Grid → ℕ → App → ℕ
icon_color l i app =
    if is_at l.hover_idx i
    then 0xFF000000
      + brighter app.accent_color 16 * 2 ^ 16
      + brighter app.accent_color 8 * 2 ^ 8
      + brighter app.accent_color 0
    else app.accent_color

-- `lfill`
abbrev lfill : (stride : ℕ) → (x y : ℕ × ℕ) → (w h c : ℕ) → List ℕ → Option (List ℕ)
lfill stride x y w h c px = fill_below stride x.0 y.0 w h (y.1 * stride + x.1) c px

-- `ltext`
abbrev ltext : (stride : ℕ) → (x y : ℕ × ℕ) → List ℕ → (color fs : ℕ) → List ℕ → Option (List ℕ)
ltext stride x y text color fs px =
    draw_text_below stride x.0 (y.0 + fs / 4) (y.1 * stride + x.1) (min (length text) 30) color fs
      px

-- One turn of the loop of `launcher_render`.
unfoldable pub draw_app : Grid → (gx : ℕ × ℕ) → (i : ℕ) → App → List ℕ → Option (List ℕ)
draw_app l gx i app px = do
  fsize ← mul_int 14 l.scale
  stride ← mul_int l.width l.scale
  size ← mul_int l.icon_size l.scale
  cell ← mul_int l.cell_w l.scale
  cx ← cell_x l gx i
  cy ← cell_y l i
  px1 ← lfill stride (shift cx (half_of cell size)) (cy, 0) size size (icon_color l i app) px
  px2 ←
      ltext stride (shift cx (half_of cell (20 * l.scale))) (shift (cy, 0) (half_of size fsize))
        (take 1 app.name) 0xFFFFFFFF (fsize * 2) px1
  ltext stride cx (cy + size + 4 * l.scale, 0) app.name 0xFFDDDDDD (11 * l.scale) px2

-- The loop of `launcher_render` from application `i` on.
unfoldable pub draw_apps : Grid → (gx : ℕ × ℕ) → (i : ℕ) → List App → List ℕ → Option (List ℕ)
draw_apps l gx i [] px = some px
draw_apps l gx i (app ∷ apps) px = do
  fits ← row_fits l i
  if fits then (do px' ← draw_app l gx i app px; draw_apps l gx (i + 1) apps px') else some px

-- `launcher_render` of a launcher that is configured and has its memory.
unfoldable pub draw_launcher : Grid → List App → List ℕ → Option (List ℕ)
draw_launcher l apps px = do
  w ← mul_int l.width l.scale
  h ← mul_int l.height l.scale
  fsize ← mul_int 14 l.scale
  low ← mul_int 72 l.scale
  px1 ← lfill w (0, 0) (0, 0) w h 0xE6050510 px
  px2 ←
      ltext w (half_of w (12 * (fsize / 2))) (20 * l.scale, 0) (codes "Applications") 0xFFEEEEEE
        fsize px1
  gx ← grid_x l
  px3 ← draw_apps l gx 0 (builtin_apps ++ apps) px2
  ltext w (half_of w (26 * (11 * l.scale / 2))) (h, 20 * l.scale) (codes "Super or Esc to close")
      0x55EEEEEE (11 * l.scale) px3
