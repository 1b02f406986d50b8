-- ===== src/Shell/Main.antt =====
-- The main program of the shell (shell/src/luna-shell-main.c): the globals that it binds, its
-- outputs, its keyboard, and the loop that redraws the panel.
use luna_os_arm.Prelude.{
  ℕ, ◌+◌, Bool, true, false, not, ◌&&◌, ◌||◌, Option, none, some, List, [], ◌∷◌, ◌++◌, ◌==◌, ltb,
  if◌then◌else◌, ◌>>=◌, min, take,
}
use luna_os_arm.Shell.Buffers.{
  Output, Shm, Action, default_scale, create_panel_for_output, create_wallpaper_for_output,
}

-- `struct luna_shell`: the globals that are bound, and its state.
pub record Shell : Type 0 where
  pub compositor : Bool
  pub seat : Bool
  pub keyboard : Bool
  pub shm : Bool
  pub layer_shell : Bool
  pub outputs : List Output
  pub launcher_visible : Bool
  pub running : Bool

-- The shell as `main` starts it.
abbrev pub initial : Shell
initial = record {
  compositor = false;
  seat = false;
  keyboard = false;
  shm = false;
  layer_shell = false;
  outputs = [];
  launcher_visible = false;
  running = true;
}

-- The interfaces that `registry_global` compares with.
pub data Interface : Type 0 where
  compositor shm seat layer_shell output other : Interface

-- `calloc` and the default scale.
abbrev pub new_output : Output
new_output = record { width = 0; height = 0; scale = default_scale; name = [] }

-- `registry_global`: the shell, and the version that is bound, `none` for no bind.
unfoldable pub registry_global : Interface → ℕ → Shell → Shell × Option ℕ
registry_global compositor version s = (record s { compositor = true }, some 4)
registry_global shm version s = (record s { shm = true }, some 1)
registry_global seat version s = (record s { seat = true }, some (min version 7))
registry_global layer_shell version s = (record s { layer_shell = true }, some (min version 4))
registry_global output version s =
    (record s { outputs = new_output ∷ s.outputs }, some (min version 4))
registry_global other version s = (s, none)

-- `seat_capabilities`: whether a keyboard is got.
unfoldable pub seat_capabilities : (has_keyboard : Bool) → Shell → Shell
seat_capabilities has_keyboard s =
    if has_keyboard && not s.keyboard then record s { keyboard = true } else s

-- `output_mode`
unfoldable pub output_mode : (current : Bool) → (w h : ℕ) → Output → Output
output_mode current w h out = if current then record out { width = w; height = h } else out

-- `output_scale_cb`
unfoldable pub output_scale_cb : ℕ → Output → Output
output_scale_cb f out = record out { scale = f }

-- `output_name`
unfoldable pub output_name : List ℕ → Output → Output
output_name name out = record out { name = take 63 name }

-- `kb_key`
unfoldable pub kb_key : (key : ℕ) → (pressed : Bool) → Shell → Shell
kb_key key pressed s =
    let toggled =
      if (key == 125) || (key == 126) then not s.launcher_visible else s.launcher_visible in
    if pressed then record s { launcher_visible = if key == 1 then false else toggled } else s

-- The globals that `main` does not run without.
abbrev pub is_ready : Shell → Bool
is_ready s = s.compositor && s.shm && s.layer_shell

-- The first loop of `main` over the outputs; `shms` gives the system's answers, two for an output.
unfoldable pub create_all : (ℕ → ℕ → ℕ) → (ℕ → Shm) → ℕ → List Output → Option (List Action)
create_all shade shms n [] = some []
create_all shade shms n (out ∷ outs) =
    let rest = create_all shade shms (n + 2) outs in
    if ltb 0 out.width
    then (do
      wallpaper ← create_wallpaper_for_output shade (shms n) out
      more ← create_panel_for_output (shms (n + 1)) out >>= λ panel.
          rest >>= λ more. some (panel ++ more)
      some (wallpaper ++ more))
    else rest

-- The redraw of every panel.
unfoldable pub redraw_all : (ℕ → Shm) → ℕ → List Output → Option (List Action)
redraw_all shms n [] = some []
redraw_all shms n (out ∷ outs) =
    let rest = redraw_all shms (n + 1) outs in
    if ltb 0 out.width
    then (do panel ← create_panel_for_output (shms n) out; more ← rest; some (panel ++ more))
    else rest
