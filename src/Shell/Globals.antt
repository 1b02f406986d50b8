-- ===== src/Shell/Globals.antt =====
-- What the shell has bound after its round trips (shell/src/luna-shell-main.c).
use luna_os_arm.Prelude.{
  ℕ, ◌+◌, ◌≡◌, refl, Bool, true, false, ◌&&◌, ◌||◌, List, [], ◌∷◌, length, if◌then◌else◌, arith,
}
use luna_os_arm.Shell.Main.{Shell, initial, Interface, registry_global, is_ready}

-- The globals that the compositor announces, one after the other.
abbrev pub announce : List (Interface × ℕ) → Shell → Shell
announce [] s = s
announce ((iface, version) ∷ globals) s = announce globals (registry_global iface version s).0

abbrev pub is_same : Interface → Interface → Bool
is_same Interface.compositor Interface.compositor = true
is_same Interface.shm Interface.shm = true
is_same Interface.seat Interface.seat = true
is_same Interface.layer_shell Interface.layer_shell = true
is_same Interface.output Interface.output = true
is_same Interface.other Interface.other = true
is_same a b = false

abbrev pub announced : Interface → List (Interface × ℕ) → Bool
announced i [] = false
announced i ((iface, version) ∷ globals) = is_same i iface || announced i globals

abbrev pub how_often : Interface → List (Interface × ℕ) → ℕ
how_often i [] = 0
how_often i ((iface, version) ∷ globals) =
    let rest = how_often i globals in if is_same i iface then 1 + rest else rest

-- After what was announced to a shell.
record Bound (globals : List (Interface × ℕ)) (s t : Shell) : Type 0 where
  compositor : t.compositor ≡ (s.compositor || announced Interface.compositor globals)
  shm : t.shm ≡ (s.shm || announced Interface.shm globals)
  layer_shell : t.layer_shell ≡ (s.layer_shell || announced Interface.layer_shell globals)
  outputs : length t.outputs ≡ length s.outputs + how_often Interface.output globals

announce_step :
    (iface : Interface) (version : ℕ) (globals : List (Interface × ℕ)) (s t : Shell)
    → Bound globals (registry_global iface version s).0 t
    → Bound ((iface, version) ∷ globals) s t
unfolding registry_global
announce_step Interface.compositor version globals s t rest = record {
  compositor = ground (arith, rest.compositor);
  shm = ground (arith, rest.shm);
  layer_shell = ground (arith, rest.layer_shell);
  outputs = omega (arith, rest.outputs);
}
announce_step Interface.shm version globals s t rest = record {
  compositor = ground (arith, rest.compositor);
  shm = ground (arith, rest.shm);
  layer_shell = ground (arith, rest.layer_shell);
  outputs = omega (arith, rest.outputs);
}
announce_step Interface.seat version globals s t rest = record {
  compositor = ground (arith, rest.compositor);
  shm = ground (arith, rest.shm);
  layer_shell = ground (arith, rest.layer_shell);
  outputs = omega (arith, rest.outputs);
}
announce_step Interface.layer_shell version globals s t rest = record {
  compositor = ground (arith, rest.compositor);
  shm = ground (arith, rest.shm);
  layer_shell = ground (arith, rest.layer_shell);
  outputs = omega (arith, rest.outputs);
}
announce_step Interface.output version globals s t rest = record {
  compositor = ground (arith, rest.compositor);
  shm = ground (arith, rest.shm);
  layer_shell = ground (arith, rest.layer_shell);
  outputs = omega (arith, rest.outputs);
}
announce_step Interface.other version globals s t rest = record {
  compositor = ground (arith, rest.compositor);
  shm = ground (arith, rest.shm);
  layer_shell = ground (arith, rest.layer_shell);
  outputs = omega (arith, rest.outputs);
}

announce-Bound : (globals : List (Interface × ℕ)) (s : Shell) → Bound globals s (announce globals s)
announce-Bound [] s = record {
  compositor = ground arith;
  shm = ground arith;
  layer_shell = ground arith;
  outputs = omega arith;
}
announce-Bound ((iface, version) ∷ globals) s =
    announce_step iface version globals s (announce globals (registry_global iface version s).0)
      (announce-Bound globals (registry_global iface version s).0)

-- The shell that has heard of the globals runs on exactly if wl_compositor, wl_shm and the layer
-- shell are among them, in whatever order, and it has an output for each wl_output.
pub announce-is_ready :
    (globals : List (Interface × ℕ))
    → (is_ready (announce globals initial) ≡ (
        announced Interface.compositor globals
        && announced Interface.shm globals
        && announced Interface.layer_shell globals))
      × (length (announce globals initial).outputs ≡ how_often Interface.output globals)
announce-is_ready globals =
    let bound = announce-Bound globals initial in
    (simp (bound.compositor, bound.shm, bound.layer_shell) refl, omega (arith, bound.outputs))
