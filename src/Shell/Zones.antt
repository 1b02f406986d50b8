-- ===== src/Shell/Zones.antt =====
-- The zones of the panel of shell/src/luna-panel.c: where its buttons are, in logical pixels.
use luna_os_arm.Prelude.{
  ℕ, zero, suc, ◌+◌, ◌-◌, ◌*◌, ◌/◌, ◌≤◌, ◌<◌, ◌≡◌, refl, ◌∙◌, true, ◌&&◌, Option, none, some, List,
  ltb, leb, if◌then◌else◌, length, get_elem?, arith,
}
use native.Mathlib.Nat.{mul-div_cancel}
use luna_os_arm.Shell.Buffers.{Action}
use luna_os_arm.Shell.Panel.{
  Config, Toplevel, Zone, Panel, Pixels, panel_render, text_top, clock_x, draw,
}
use luna_os_arm.Shell.Windows.{
  toplevel_zone, labels_fit, fill-Buffer, draw_text_stub-Buffer, Windows, draw_toplevels-Windows,
}

-- What the panel is to be large enough for: its launcher button, the windows, their labels and the
-- clock, in its rows of physical pixels.
pub record IsRoomy (cfg : Config) (tls : List Toplevel) (clk : List ℕ) (pw ph sc : ℕ) : Type 0 where
  pub scale : 0 < sc
  pub height : 12 * sc ≤ ph
  pub font : cfg.font_size * sc ≤ ph
  pub launcher : 16 * sc + 4 * (cfg.font_size * sc / 2) ≤ pw
  pub windows : 104 * sc + 144 * (length tls * sc) ≤ pw
  pub labels : labels_fit (cfg.font_size * sc) sc tls ≡ true
  pub clock : (length clk * (cfg.font_size * sc / 2) + 16) * sc + 8 * sc ≤ pw

text_top-some :
    (ph fsize : ℕ)
    → fsize ≤ ph
    → (text_top ph fsize ≡ ((ph - fsize) / 2 + fsize / 4, 0))
      × ((ph - fsize) / 2 + fsize / 4 + fsize / 2 ≤ ph)
text_top-some ph fsize fits = (ground arith, omega arith)

-- The text of the clock ends in the panel.
clock_ends :
    (pw sc half len : ℕ)
    → 0 < sc
    → (len * half + 16) * sc + 8 * sc ≤ pw
    → pw - (len * half + 16) * sc - 8 * sc + len * half ≤ pw
clock_ends pw zero half len hs fits = absurd (omega arith)
clock_ends pw (suc k) half len hs fits =
    let split : (len * half + 16) * suc k ≡ len * half + 16 + k * (len * half + 16) = grind arith in
    omega (arith, split)

draw-Windows :
    (cfg : Config) (pw ph sc : ℕ) (tls : List Toplevel) (clk : List ℕ) (px : List ℕ)
    → IsRoomy cfg tls clk pw ph sc
    → length px ≡ ph * pw
    → Windows pw ph 0 tls (draw cfg pw ph sc tls clk px)
unfolding draw
draw-Windows cfg pw ph sc tls clk px roomy size =
    let fsize = cfg.font_size * sc in
    let hs = roomy.scale in
    let high = roomy.height in
    let top = (ph - fsize) / 2 + fsize / 4 in
    let (starts, text) = text_top-some ph fsize roomy.font in
    let first : 8 * sc + (80 * sc + 8 * sc) + 8 * sc ≡ (104 + 144 * 0) * sc = omega arith in
    let visible : leb sc ph ≡ true = ground arith in
    let cx = pw - (length clk * (fsize / 2) + 16) * sc - 8 * sc in
    let clock : clock_x pw sc fsize (length clk) ≡ (cx, 0) = ground (arith, roomy.clock) in
    let b1 = fill-Buffer pw ph 0 0 pw ph cfg.panel_bg_color px size (omega arith) (omega arith) in
    let b2 =
      fill-Buffer pw ph 0 (ph - sc) pw sc cfg.panel_accent_color b1.out b1.size (omega arith)
        (omega (arith, high)) in
    let b3 =
      fill-Buffer pw ph (8 * sc) (4 * sc) (80 * sc) (ph - 8 * sc) 0x224A90D9 b2.out b2.size
        (omega (arith, roomy.windows)) (omega (arith, high)) in
    let b4 =
      draw_text_stub-Buffer pw ph (8 * sc + 8 * sc) top 4 cfg.panel_fg_color fsize b3.out b3.size
        (omega (arith, roomy.launcher)) text in
    let b5 =
      fill-Buffer pw ph (8 * sc + (80 * sc + 8 * sc)) (8 * sc) sc (ph - 16 * sc) 0x33FFFFFF b4.out
        b4.size (omega (arith, roomy.windows)) (omega (arith, high)) in
    let b6 =
      draw_toplevels-Windows cfg pw ph sc top 0 (8 * sc + (80 * sc + 8 * sc) + 8 * sc) tls b5.out hs
        high text b5.size first (omega (arith, roomy.windows)) roomy.labels in
    let b7 =
      draw_text_stub-Buffer pw ph cx top (length clk) cfg.panel_fg_color fsize b6.out b6.size
        (clock_ends pw sc (fsize / 2) (length clk) hs roomy.clock) text in
    record {
      out = b7.out;
      zones = b6.zones;
      returns =
          simp
            (
              visible, b1.returns, b2.returns, b3.returns, starts, b4.returns, b5.returns,
              b6.returns, clock, b7.returns,
            )
            refl;
      size = b7.size;
      at = b6.at;
    }

-- The zones after a render: the launcher's, and that of the window with number `i`.
abbrev pub shown_zones : ℕ → Option (Panel × List Action) → Option (Zone × Option Zone)
shown_zones i none = none
shown_zones i (some (p, acts)) = some (p.zone_launcher, get_elem? p.zone_toplevels i)

-- A panel that has its memory and is large enough for what it shows renders, and whatever its scale
-- the zones are in logical pixels: the launcher from 8 on, and 80 wide; the window with number `i`,
-- for each of the first 32, from 104 + 144 i on, and 140 wide; and no other.
pub panel_render-zones :
    (cfg : Config) (tls : List Toplevel) (clk : List ℕ) (p : Panel) (px : List ℕ) (i : ℕ)
    → p.configured ≡ true
    → p.pixels ≡ Pixels.memory px
    → length px ≡ p.phys_h * p.phys_w
    → IsRoomy cfg tls clk p.phys_w p.phys_h p.scale
    → shown_zones i (panel_render cfg tls clk p)
      ≡ some (
        record { x = 8; w = 80 },
        if ltb i (length tls) && ltb i 32 then some (toplevel_zone i) else none,
      )
unfolding panel_render
panel_render-zones cfg tls clk p px i on has size roomy =
    let drawn = draw-Windows cfg p.phys_w p.phys_h p.scale tls clk px roomy size in
    let zone : get_elem? drawn.zones i
        ≡ (if ltb i (length tls) && ltb i 32 then some (toplevel_zone i) else none) =
      drawn.at i ∙ (let same : 0 + i ≡ i = omega arith in rw same refl) in
    simp (on, has, drawn.returns, mul-div_cancel 8 roomy.scale, mul-div_cancel 80 roomy.scale, zone)
      refl
