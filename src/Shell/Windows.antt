-- ===== src/Shell/Windows.antt =====
-- What the panel of shell/src/luna-panel.c draws stays in its rows; the loop over the windows.
use luna_os_arm.Prelude.{
  ℕ, zero, suc, ◌+◌, ◌-◌, ◌*◌, ◌/◌, ◌≤◌, ◌<◌, ◌≡◌, refl, ◌∙◌, inl, inr, Bool, true, ◌&&◌, Option,
  none, some, List, [], ◌∷◌, ltb, leb, if◌then◌else◌, length, get_elem?, Bool-cases, ltb→lt, arith,
}
use native.Mathlib.Nat.{mul-div_cancel}
use luna_os_arm.Shell.Pixels.{fill}
use luna_os_arm.Shell.Painted.{fill-Filled}
use luna_os_arm.Shell.Panel.{Config, Toplevel, Zone, draw_text_stub, draw_toplevels, label}

-- The zone of the window with number `i`.
abbrev pub toplevel_zone : ℕ → Zone
toplevel_zone i = record { x = 104 + 144 * i; w = 140 }

-- A buffer of `ph` rows of `pw` pixels, which the code got to.
pub record Buffer (pw ph : ℕ) (r : Option (List ℕ)) : Type 0 where
  pub out : List ℕ
  pub returns : r ≡ some out
  pub size : length out ≡ ph * pw

rows_fit : (pw ph bottom n : ℕ) → n ≡ ph * pw → bottom ≤ ph → bottom * pw ≤ n
rows_fit pw ph bottom n size fits = rw size (grind arith)

pub fill-Buffer :
    (pw ph x y w h c : ℕ) (px : List ℕ)
    → length px ≡ ph * pw
    → x + w ≤ pw
    → y + h ≤ ph
    → Buffer pw ph (fill pw x y w h c px)
fill-Buffer pw ph x y w h c px size wide high =
    let done = fill-Filled pw x y w h c px wide (rows_fit pw ph (y + h) (length px) size high) in
    record { out = done.out; returns = done.returns; size = done.size ∙ size }

pub draw_text_stub-Buffer :
    (pw ph x top n color fsize : ℕ) (px : List ℕ)
    → length px ≡ ph * pw
    → x + n * (fsize / 2) ≤ pw
    → top + fsize / 2 ≤ ph
    → Buffer pw ph (draw_text_stub pw x top n color fsize px)
unfolding draw_text_stub
draw_text_stub-Buffer pw ph x top zero color fsize px size wide high = record {
  out = px;
  returns = refl;
  size = size;
}
draw_text_stub-Buffer pw ph x top (suc n) color fsize px size wide high =
    let one : x + (fsize / 2 - 1) ≤ pw = grind arith in
    let more : x + fsize / 2 + n * (fsize / 2) ≤ pw = grind arith in
    let first = fill-Buffer pw ph x top (fsize / 2 - 1) (fsize / 2) color px size one high in
    let rest =
      draw_text_stub-Buffer pw ph (x + fsize / 2) top n color fsize first.out first.size more
        high in
    record { out = rest.out; returns = simp first.returns rest.returns; size = rest.size }

-- Each label is as wide as its button, at most.
abbrev pub labels_fit : (fsize sc : ℕ) → List Toplevel → Bool
labels_fit fsize sc [] = true
labels_fit fsize sc (tl ∷ tls) =
    leb (length (label tl) * (fsize / 2)) (132 * sc) && labels_fit fsize sc tls

pub record Windows (pw ph count : ℕ) (tls : List Toplevel) (r : Option (List ℕ × List Zone))
    : Type 0 where
  pub out : List ℕ
  pub zones : List Zone
  pub returns : r ≡ some (out, zones)
  pub size : length out ≡ ph * pw
  pub at :
      (i : ℕ)
      → get_elem? zones i ≡ (
          if ltb i (length tls) && ltb (count + i) 32
          then some (toplevel_zone (count + i))
          else none)

at_count : (sc x count : ℕ) → 0 < sc → x ≡ (104 + 144 * count) * sc → x / sc ≡ 104 + 144 * count
at_count sc x count hs e = rw e (mul-div_cancel (104 + 144 * count) hs)

zones_at :
    (count n : ℕ) (z : Zone) (zones : List Zone)
    → z ≡ toplevel_zone count
    → count < 32
    → ((j : ℕ)
        → get_elem? zones j ≡ (
            if ltb j n && ltb (count + 1 + j) 32
            then some (toplevel_zone (count + 1 + j))
            else none))
    → (i : ℕ)
    → get_elem? (z ∷ zones) i
      ≡ (if ltb i (suc n) && ltb (count + i) 32 then some (toplevel_zone (count + i)) else none)
zones_at count n z zones first few others zero =
    let same : count + 0 ≡ count = omega arith in
    let near : ltb count 32 ≡ true = ground arith in
    let some_n : ltb 0 (suc n) ≡ true = ground arith in simp (same, near, some_n, first) refl
zones_at count n z zones first few others (suc i) =
    let same : count + suc i ≡ count + 1 + i = omega arith in
    let test : ltb (suc i) (suc n) ≡ ltb i n = ground arith in rw (same, test) (others i)

pub draw_toplevels-Windows :
    (cfg : Config) (pw ph sc top count x : ℕ) (tls : List Toplevel) (px : List ℕ)
    → 0 < sc
    → 12 * sc ≤ ph
    → top + cfg.font_size * sc / 2 ≤ ph
    → length px ≡ ph * pw
    → x ≡ (104 + 144 * count) * sc
    → x + 144 * (length tls * sc) ≤ pw
    → labels_fit (cfg.font_size * sc) sc tls ≡ true
    → Windows pw ph count tls (draw_toplevels cfg pw ph sc (top, 0) count x tls px)
unfolding draw_toplevels
draw_toplevels-Windows cfg pw ph sc top count x [] px hs high text size at wide labels = record {
  out = px;
  zones = [];
  returns = refl;
  size = size;
  at = λ i. ground arith;
}
draw_toplevels-Windows cfg pw ph sc top count x (tl ∷ tls) px hs high text size at wide labels =
    elim (Bool-cases (ltb count 32)) [
      | inr full ↦ record {
        out = px;
        zones = [];
        returns = simp full refl;
        size = size;
        at = λ i. ground arith;
      }
      | inl room ↦
          let fsize = cfg.font_size * sc in
          let next : x + (140 * sc + 4 * sc) ≡ (104 + 144 * (count + 1)) * sc = grind arith in
          let split : 144 * (length (tl ∷ tls) * sc) ≡ 144 * sc + 144 * (length tls * sc) =
            grind arith in
          let colour = if tl.activated then 0x33FFFFFF else 0x11FFFFFF in
          let fit : length (label tl) * (fsize / 2) ≤ 132 * sc = ground arith in
          let others : labels_fit fsize sc tls ≡ true = ground arith in
          let button =
            fill-Buffer pw ph x (4 * sc) (140 * sc) (ph - 8 * sc) colour px size
              (omega (arith, split)) (omega arith) in
          let words =
            draw_text_stub-Buffer pw ph (x + 8 * sc) top (length (label tl)) cfg.panel_fg_color
              fsize button.out button.size (omega (arith, split, fit)) text in
          let rest =
            draw_toplevels-Windows cfg pw ph sc top (count + 1) (x + (140 * sc + 4 * sc)) tls
              words.out hs high text words.size next (omega (arith, split)) others in
          record {
            out = rest.out;
            zones = record { x = x / sc; w = 140 * sc / sc } ∷ rest.zones;
            returns = simp (room, button.returns, words.returns, rest.returns) refl;
            size = rest.size;
            at =
                zones_at count (length tls) (record { x = x / sc; w = 140 * sc / sc }) rest.zones
                  (simp (at_count sc x count hs at, mul-div_cancel 140 hs) refl)
                  (ltb→lt count 32 room) rest.at;
          }
    ]
