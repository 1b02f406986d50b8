-- ===== src/Shell/Program.antt =====
-- The main program of the shell (shell/src/luna-shell-main.c: main) from its connection to its end,
-- with what the compositor tells it in between.
pub mod Exits
use luna_os_arm.Prelude.{
  ℕ, zero, suc, ◌+◌, ◌*◌, ◌-◌, ◌≡◌, refl, ap, ◌∙◌, sym, ◌↔◌, Bool, true, false, not, ◌&&◌, ◌||◌,
  Option, none, some, List, [], ◌∷◌, ◌++◌, ◌==◌, ltb, if◌then◌else◌, ◌>>=◌, length, get_elem?,
  arith, Bool-cases, inl, inr, bind-some,
}
use luna_os_arm.Shell.Buffers.{
  Output, Shm, Action, create_panel_for_output, create_wallpaper_for_output,
}
use luna_os_arm.Shell.Main.{
  Shell, initial, Interface, registry_global, seat_capabilities, output_mode, output_scale_cb,
  output_name, kb_key, is_ready, redraw_all,
}
use luna_os_arm.Shell.Globals.{is_same}
use luna_os_arm.Shell.Held.{Released, Released-++}
use luna_os_arm.Shell.Released.{
  Releases, Releases-some, Releases-if, Releases-then, done, create_panel-Releases,
  create_wallpaper-Releases, redraw_all-Releases,
}

-- What reaches the listeners. Outputs are told apart by the order in which they were announced.
pub data News : Type 0 where
  announced : Interface → (version : ℕ) → News
  mode : (number : ℕ) (current : Bool) (w h : ℕ) → News
  scale : (number factor : ℕ) → News
  name : ℕ → List ℕ → News
  capabilities : (has_keyboard : Bool) → News
  key : ℕ → (pressed : Bool) → News

-- The change of the output with a number: a new output is put in front.
abbrev pub change : ℕ → (Output → Output) → List Output → List Output
change number f [] = []
change number f (out ∷ outs) =
    let rest = change number f outs in if length outs == number then f out ∷ outs else out ∷ rest

unfoldable pub hear : News → Shell → Shell
hear (announced iface version) s = (registry_global iface version s).0
hear (mode number current w h) s = record s {
  outputs = change number (output_mode current w h) s.outputs;
}
hear (scale number factor) s = record s {
  outputs = change number (output_scale_cb factor) s.outputs;
}
hear (name number text) s = record s { outputs = change number (output_name text) s.outputs }
hear (capabilities has_keyboard) s = seat_capabilities has_keyboard s
hear (key code pressed) s = kb_key code pressed s

-- One round trip or one dispatch.
unfoldable pub hear_all : List News → Shell → Shell
hear_all [] s = s
hear_all (n ∷ news) s = hear_all news (hear n s)

-- `if (out->width > 0)`, the wallpaper and the panel.
abbrev pub create_for : (ℕ → ℕ → ℕ) → (ℕ → Shm) → ℕ → Option Output → Option (List Action)
create_for shade shms k none = some []
create_for shade shms k (some out) =
    if ltb 0 out.width
    then (do
      wallpaper ← create_wallpaper_for_output shade (shms (2 * k)) out
      panel ← create_panel_for_output (shms (2 * k + 1)) out
      some (wallpaper ++ panel))
    else some []

-- The loop over the outputs that are there when it begins, of which the first `k` of the announced
-- are left. Each turn has a round trip first, which can tell of any output.
unfoldable pub create_each :
    (ℕ → ℕ → ℕ) → (ℕ → Shm) → (told : ℕ → List News) (k : ℕ) → Shell → Option (Shell × List Action)
create_each shade shms told zero s = some (s, [])
create_each shade shms told (suc k) s = do
  acts ←
      create_for shade shms k
        (get_elem? (hear_all (told k) s).outputs (length (hear_all (told k) s).outputs - 1 - k))
  (s', more) ← create_each shade shms told k (hear_all (told k) s)
  some (s', acts ++ more)

-- `while (shell.running)`, which nothing clears: the turns whose dispatch succeeds, each with the news
-- that it brings and the time in seconds behind it. The dispatch behind the last of them fails, and
-- the loop ends.
unfoldable pub serve :
    (ℕ → ℕ → Shm) → (redraws last_sec : ℕ) → List (List News × ℕ) → Shell → Option (List Action)
serve shms redraws last_sec [] s = some []
serve shms redraws last_sec ((news, now) ∷ turns) s =
    let idle = serve shms redraws last_sec turns (hear_all news s) in
    let rest = serve shms (redraws + 1) now turns (hear_all news s) in
    if now == last_sec then idle else (do
      drawn ← redraw_all (shms redraws) 0 (hear_all news s).outputs
      more ← rest
      some (drawn ++ more))

-- What the world gives the program: the connection, the news of the two round trips and of the one for
-- each output, the system's answers, and the dispatches up to the one that fails.
pub record World : Type 0 where
  pub connects : Bool
  pub heard : List News
  pub told : ℕ → List News
  pub shade : ℕ → ℕ → ℕ
  pub shms : ℕ → Shm
  pub redraw_shms : ℕ → ℕ → Shm
  pub turns : List (List News × ℕ)

abbrev pub with_globals : World → Shell → Option (ℕ × List Action)
with_globals w s = do
  (s', created) ← create_each w.shade w.shms w.told (length s.outputs) s
  acts ← serve w.redraw_shms 0 0 w.turns s'
  some (0, created ++ acts)

-- `main`: what it returns and what it asked for; `none` is undefined behaviour.
unfoldable pub main : World → Option (ℕ × List Action)
main w =
    if w.connects
    then (if is_ready (hear_all w.heard initial)
        then with_globals w (hear_all w.heard initial)
        else some (1, []))
    else some (1, [])

-- Whether a global is among the news.
abbrev pub is_told : Interface → List News → Bool
is_told i [] = false
is_told i (announced iface version ∷ news) = is_same i iface || is_told i news
is_told i (_ ∷ news) = is_told i news
