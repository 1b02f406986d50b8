-- ===== src/Shell/Drawn.antt =====
-- What stands in the panel that shell/src/luna-shell-main.c draws, and on which outputs it draws
-- outside its memory.
use luna_os_arm.Prelude.{
  ℕ, zero, suc, ◌+◌, ◌-◌, ◌*◌, ◌/◌, ◌^◌, ◌≤◌, ◌<◌, ◌≡◌, refl, ◌∙◌, subst, inl, inr, true, Option,
  none, some, List, [], ◌∷◌, ltb, leb, if◌then◌else◌, ◌>>=◌, length, get_elem?, replicate,
  length-replicate, Bool-cases, arith,
}
use luna_os_arm.Shell.Pixels.{mul_int, fill}
use luna_os_arm.Shell.Painted.{fill-Filled, fill_outside}
use luna_os_arm.Shell.Buffers.{
  Output, Shm, Action, c_panel_bg, c_accent, c_launcher, paint_panel, create_shm_file,
  create_panel_for_output,
}

-- The colour of a pixel of the panel.
abbrev pub panel_colour : (sc p q : ℕ) → ℕ
panel_colour sc p q =
    if ltb p (100 * sc) then c_launcher else if leb (35 * sc) q then c_accent else c_panel_bg

-- The launcher button fits on the output.
pub record IsPainted (w sc : ℕ) (r : Option (List ℕ)) : Type 0 where
  pub out : List ℕ
  pub returns : r ≡ some out
  pub pixels :
      (p q : ℕ) → p < w → q < 36 * sc → get_elem? out (q * w + p) ≡ some (panel_colour sc p q)

pub mul_int-some : (a b : ℕ) → a * b < 2 ^ 31 → mul_int a b ≡ some (a * b)
mul_int-some a b h = ground arith

pub small : (w sc : ℕ) → 0 < w → w * 4 * (36 * sc) < 2 ^ 31 → 100 * sc < 2 ^ 31
small zero sc wide h = absurd (omega arith)
small (suc k) sc wide h =
    let split : suc k * 4 * (36 * sc) ≡ 144 * sc + k * (144 * sc) = grind arith in
    omega (arith, split)

pub small_stride : (w sc : ℕ) → 0 < sc → w * 4 * (36 * sc) < 2 ^ 31 → w * 4 < 2 ^ 31
small_stride w zero some_scale h = absurd (omega arith)
small_stride w (suc k) some_scale h =
    let split : w * 4 * (36 * suc k) ≡ 144 * w + 144 * (w * k) = grind arith in omega (arith, split)

all_rows : (w sc n rows : ℕ) → n ≡ w * (36 * sc) → rows ≡ 36 * sc → rows * w ≤ n
all_rows w sc n rows size all = rw all (grind arith)

pub paint_panel-IsPainted :
    (w sc : ℕ) (px : List ℕ)
    → 0 < sc
    → 100 * sc ≤ w
    → w * 4 * (36 * sc) < 2 ^ 31
    → length px ≡ w * (36 * sc)
    → IsPainted w sc (paint_panel w (36 * sc) sc px)
unfolding paint_panel
paint_panel-IsPainted w sc px hs fits bound size =
    let bg =
      fill-Filled w 0 0 w (36 * sc) c_panel_bg px (omega arith)
        (all_rows w sc (length px) (0 + 36 * sc) size (omega arith)) in
    let line =
      fill-Filled w 0 (36 * sc - sc) w sc c_accent bg.out (omega arith)
        (all_rows w sc (length bg.out) (36 * sc - sc + sc) (bg.size ∙ size) (omega arith)) in
    let button = fill-Filled w 0 0 (100 * sc) (36 * sc) c_launcher line.out (omega arith) (
      all_rows w sc (length line.out) (0 + 36 * sc) (line.size ∙ (bg.size ∙ size)) (omega arith)) in
    record {
      out = button.out;
      returns =
          simp (bg.returns, line.returns, mul_int-some 100 sc (small w sc (omega arith) bound))
            button.returns;
      pixels =
          λ p q hp hq. ground (arith, button.pixels p q hp, line.pixels p q hp, bg.pixels p q hp);
    }

-- The answers of a system that makes the buffer.
abbrev pub works : ℕ → Shm
works fd = record { shm_fd = some fd; truncates = true; maps = true }

-- The pixel that was there when the surface was committed.
abbrev pub committed_pixel : List Action → ℕ → Option ℕ
committed_pixel [] k = none
committed_pixel (Action.committed px ∷ acts) k = get_elem? px k
committed_pixel (a ∷ acts) k = committed_pixel acts k

quarter : (n m : ℕ) → m ≡ n * 4 → m / 4 ≡ n
quarter n m e = rw e (omega arith)

bytes : (w sc : ℕ) → w * 4 * (36 * sc) ≡ w * (36 * sc) * 4
bytes w sc = grind arith

pub room : (w sc : ℕ) → w * 4 * (36 * sc) / 4 ≡ w * (36 * sc)
room w sc = quarter (w * (36 * sc)) (w * 4 * (36 * sc)) (bytes w sc)

-- The panel of an output that is wide enough for the launcher button, when the system makes its
-- buffer and no `int` overflows: the buffer is committed, and each of its pixels has the colour
-- of the button, of the accent line or of the rest.
pub panel_drawn :
    (fd : ℕ) (out : Output) (p q : ℕ)
    → 0 < out.scale
    → 100 * out.scale ≤ out.width
    → out.width * 4 * (36 * out.scale) < 2 ^ 31
    → p < out.width
    → q < 36 * out.scale
    → (create_panel_for_output (works fd) out >>= λ acts. committed_pixel acts (q * out.width + p))
      ≡ some (panel_colour out.scale p q)
unfolding create_panel_for_output create_shm_file
panel_drawn fd out p q hs fits bound hp hq =
    let w = out.width in
    let sc = out.scale in
    let n = w * (36 * sc) in
    let fine = paint_panel-IsPainted w sc (replicate n 0) hs fits bound (length-replicate n 0) in
    let phys_h = mul_int-some 36 sc (omega (arith, small w sc (omega arith) bound)) in
    let stride = mul_int-some w 4 (small_stride w sc hs bound) in
    let bytes_fit = mul_int-some (w * 4) (36 * sc) bound in
    simp (phys_h, stride, bytes_fit, room w sc, fine.returns) (fine.pixels p q hp hq)

button_runs_over :
    (w sc h n : ℕ)
    → n ≡ w * (36 * sc)
    → suc h ≡ 36 * sc
    → w < 100 * sc
    → n + w < (0 + suc h) * w + 0 + 100 * sc
button_runs_over w sc h n size rows narrow = rw rows (grind arith)

paint_panel_narrow :
    (w sc : ℕ) (px : List ℕ)
    → 0 < sc
    → 0 < w
    → w < 100 * sc
    → length px ≡ w * (36 * sc)
    → paint_panel w (36 * sc) sc px ≡ none
unfolding paint_panel
paint_panel_narrow w sc px hs some_width narrow size =
    let bg =
      fill-Filled w 0 0 w (36 * sc) c_panel_bg px (omega arith)
        (all_rows w sc (length px) (0 + 36 * sc) size (omega arith)) in
    let line =
      fill-Filled w 0 (36 * sc - sc) w sc c_accent bg.out (omega arith)
        (all_rows w sc (length bg.out) (36 * sc - sc + sc) (bg.size ∙ size) (omega arith)) in
    let rows : suc (36 * sc - 1) ≡ 36 * sc = omega arith in
    let over = fill_outside w 0 0 (100 * sc) (36 * sc - 1) c_launcher line.out (omega arith) (
      button_runs_over w sc (36 * sc - 1) (length line.out) (line.size ∙ (bg.size ∙ size)) rows
        narrow) in
    let over' : fill w 0 0 (100 * sc) (36 * sc) c_launcher line.out ≡ none =
      subst (λ (r : ℕ). fill w 0 0 (100 * sc) r c_launcher line.out ≡ none) rows over in
    elim (Bool-cases (ltb (100 * sc) (2 ^ 31))) [
      | inl fine ↦ simp (bg.returns, line.returns, fine) over'
      | inr much ↦ simp (bg.returns, line.returns, much) refl
    ]

-- The panel of an output narrower than the launcher button, when the system makes its buffer and
-- no `int` overflows: the code stores outside the mapping.
pub panel_narrow :
    (fd : ℕ) (out : Output)
    → 0 < out.scale
    → 0 < out.width
    → out.width < 100 * out.scale
    → out.width * 4 * (36 * out.scale) < 2 ^ 31
    → create_panel_for_output (works fd) out ≡ none
unfolding create_panel_for_output create_shm_file
panel_narrow fd out hs some_width narrow bound =
    let w = out.width in
    let sc = out.scale in
    let n = w * (36 * sc) in
    let phys_h = mul_int-some 36 sc (omega (arith, small w sc some_width bound)) in
    let stride = mul_int-some w 4 (small_stride w sc hs bound) in
    let bytes_fit = mul_int-some (w * 4) (36 * sc) bound in
    simp (
      phys_h,
      stride,
      bytes_fit,
      room w sc,
      paint_panel_narrow w sc (replicate n 0) hs some_width narrow (length-replicate n 0),
    )
