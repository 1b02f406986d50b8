-- ===== src/Shell/Running.antt =====
-- On outputs that stay wide enough the loop of main of shell/src/luna-shell-main.c comes to no undefined
-- behaviour.
use luna_os_arm.Prelude.{
  ℕ, ◌+◌, ◌*◌, ◌/◌, ◌^◌, ◌≤◌, ◌<◌, ◌≡◌, refl, Bool, true, false, Option, none, some, List, [], ◌∷◌,
  ◌++◌, ◌>>=◌, ltb, ◌==◌, if◌then◌else◌, replicate, length-replicate, arith,
}
use luna_os_arm.Shell.Buffers.{
  Output, Shm, Action, create_shm_file, create_panel_for_output, paint_panel, with_file, after,
  show_buffer, panel_surface,
}
use luna_os_arm.Shell.Main.{Shell, redraw_all}
use luna_os_arm.Shell.Held.{Released}
use luna_os_arm.Shell.Program.{News, hear_all, serve}
use luna_os_arm.Shell.Program.Exits.{serve-Releases}
use luna_os_arm.Shell.Drawn.{mul_int-some, small, small_stride, room, paint_panel-IsPainted}

-- The output has room for the launcher button, and its buffer is no larger than an `int`.
pub record HasRoom (out : Output) : Type 0 where
  pub scale : 0 < out.scale
  pub button : 100 * out.scale ≤ out.width
  pub bytes : out.width * 4 * (36 * out.scale) < 2 ^ 31

pub data AllRoomy : List Output → Type 0 where
  no_more : AllRoomy []
  has_room :
      {out : Output} {outs : List Output} → HasRoom out → AllRoomy outs → AllRoomy (out ∷ outs)

abbrev Runs : Option (List Action) → Type 0
Runs r = (acts : List Action) × (r ≡ some acts)

Runs-if : (b : Bool) (x y : Option (List Action)) → Runs x → Runs y → Runs (if b then x else y)
Runs-if true x y hx hy = hx
Runs-if false x y hx hy = hy

after-Runs : (acts : List Action) (r : Option (List Action)) → Runs r → Runs (after acts r)
after-Runs acts r (more, e) = simp e (acts ++ more, refl)

shm_file-Runs :
    (opened : Option ℕ × List Action) (show : ℕ → Option (List Action))
    → ((fd : ℕ) → Runs (show fd))
    → Runs (with_file opened show)
shm_file-Runs (none, acts) show runs = (acts, refl)
shm_file-Runs (some fd, acts) show runs = after-Runs acts (show fd) (runs fd)

show_buffer-Runs :
    (shm : Shm) (fd size w h stride scale : ℕ) (surface : List Action)
    (paint_px : List ℕ → Option (List ℕ)) (px : List ℕ)
    → paint_px (replicate (size / 4) 0) ≡ some px
    → Runs (show_buffer shm fd size w h stride scale surface paint_px)
show_buffer-Runs shm fd size w h stride scale surface paint_px px e =
    Runs-if shm.maps _ _ (simp e (_, refl)) (_, refl)

create_panel-Runs :
    (shm : Shm) (out : Output) → HasRoom out → Runs (create_panel_for_output shm out)
unfolding create_panel_for_output
create_panel-Runs shm out roomy =
    let w = out.width in
    let sc = out.scale in
    let n = w * (36 * sc) in
    let fine =
      paint_panel-IsPainted w sc (replicate n 0) roomy.scale roomy.button roomy.bytes
        (length-replicate n 0) in
    let painted : paint_panel w (36 * sc) sc (replicate (w * 4 * (36 * sc) / 4) 0) ≡ some fine.out =
      simp (room w sc) fine.returns in
    let phys_h =
      mul_int-some 36 sc
        (omega (arith, small w sc (omega (arith, roomy.scale, roomy.button)) roomy.bytes)) in
    let stride = mul_int-some w 4 (small_stride w sc roomy.scale roomy.bytes) in
    let bytes = mul_int-some (w * 4) (36 * sc) roomy.bytes in
    simp (phys_h, stride, bytes)
      (shm_file-Runs (create_shm_file shm) _ (λ fd.
        show_buffer-Runs shm fd (w * 4 * (36 * sc)) w (36 * sc) (w * 4) sc panel_surface
          (paint_panel w (36 * sc) sc) fine.out painted))

Runs-then :
    (x y : Option (List Action))
    → Runs x
    → Runs y
    → Runs (x >>= λ front. y >>= λ more. some (front ++ more))
Runs-then x y (front, a) (more, b) = simp (a, b) (front ++ more, refl)

redraw_all-Runs :
    (shms : ℕ → Shm) (n : ℕ) (outs : List Output) → AllRoomy outs → Runs (redraw_all shms n outs)
unfolding redraw_all
redraw_all-Runs shms n [] no_more = ([], refl)
redraw_all-Runs shms n (out ∷ outs) (has_room roomy others) =
    let rest = redraw_all-Runs shms (n + 1) outs others in
    Runs-if (ltb 0 out.width) _ _
      (Runs-then (create_panel_for_output (shms n) out) _ (create_panel-Runs (shms n) out roomy)
        rest)
      rest

-- While the turns last, the outputs that the shell knows behind each dispatch are wide enough.
pub data StaysRoomy : List (List News × ℕ) → Shell → Type 0 where
  over : {s : Shell} → StaysRoomy [] s
  turn :
      {news : List News} {now : ℕ} {turns : List (List News × ℕ)} {s : Shell}
      → AllRoomy (hear_all news s).outputs
      → StaysRoomy turns (hear_all news s)
      → StaysRoomy ((news, now) ∷ turns) s

serve-Runs :
    (shms : ℕ → ℕ → Shm) (redraws last_sec : ℕ) (turns : List (List News × ℕ)) (s : Shell)
    → StaysRoomy turns s
    → Runs (serve shms redraws last_sec turns s)
unfolding serve
serve-Runs shms redraws last_sec [] s roomy = ([], refl)
serve-Runs shms redraws last_sec ((news, now) ∷ turns) s (turn here later) =
    let heard = hear_all news s in
    Runs-if (now == last_sec) _ _ (serve-Runs shms redraws last_sec turns heard later) (
      Runs-then (redraw_all (shms redraws) 0 heard.outputs) _
        (redraw_all-Runs (shms redraws) 0 heard.outputs here)
        (serve-Runs shms (redraws + 1) now turns heard later))

-- As long as each dispatch leaves every output that the shell knows with a positive scale, a width of
-- at least 100 times the scale and a panel buffer below 2^31 bytes, however often the loop of `main`
-- turns before a dispatch fails, whatever news the dispatches bring, and whatever the system answers:
-- the loop comes to no undefined behaviour, each call uses what is held, and when the loop ends every
-- descriptor is closed, every mapping is unmapped and every pool is destroyed.
pub serve-runs :
    (shms : ℕ → ℕ → Shm) (redraws last_sec : ℕ) (turns : List (List News × ℕ)) (s : Shell)
    → StaysRoomy turns s
    → (acts : List Action) × (serve shms redraws last_sec turns s ≡ some acts) × Released acts
serve-runs shms redraws last_sec turns s roomy =
    let (acts, e) = serve-Runs shms redraws last_sec turns s roomy in
    (acts, e, serve-Releases shms redraws last_sec turns s acts e)
