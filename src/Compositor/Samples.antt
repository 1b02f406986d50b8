-- ===== src/Compositor/Samples.antt =====
-- A start of the compositor, two keyboards, and two outputs.
use luna_os_arm.Prelude.{
  ℕ, ◌≡◌, refl, Bool, true, false, Option, none, some, List, [], ◌∷◌, ◌++◌, arith,
}
use luna_os_arm.Compositor
use luna_os_arm.Compositor.{Symbol, key_shift_e, View}
use luna_os_arm.Compositor.Inputs.{Seats, Inputs, Device, Event, added, run}
use luna_os_arm.Compositor.Outputs.{Monitor, Outputs, server_new_output}
use luna_os_arm.Compositor.Outputs
use mathlib.Core.Option
use luna_os_arm.Compositor.Outputs.Laws.{IsInt, run-output_scale}
use luna_os_arm.Compositor.Main.{Services, Environment, Call, Outcome, exited, main, default_dir}
use luna_os_arm.Compositor.Main
use luna_os_arm.Compositor.Main.Ends.{env_of, comes_to, shown, main-runtime_dir, main-first_exit}

-- A seat that remembers its keyboard.
abbrev seats : Seats
seats = record {
  Seat = Option ℕ;
  set_keyboard = λ k s. some k;
  get_keyboard = λ s. s;
  get-set = λ k s. refl;
}

abbrev two_keyboards : List Event
two_keyboards = added true (Device.keyboard 1) ∷ added true (Device.keyboard 2) ∷ []

abbrev nothing_yet : Inputs seats
nothing_yet = record { seat = none; listening = false }

-- A scale of two, and one of three halves.
abbrev retina : Monitor
retina = record { id = 1; scale = record { mantissa = 2; exponent = 0 }; modes = 5 ∷ 6 ∷ [] }

abbrev plain : Monitor
plain = record { id = 2; scale = record { mantissa = 3; exponent = 1 }; modes = [] }

abbrev two_outputs : List (Bool × Monitor)
two_outputs = (true, retina) ∷ (true, plain) ∷ []

abbrev no_outputs : Outputs
no_outputs = record { outputs = []; output_scale = 1 }

abbrev after : Outputs
after = record { outputs = 2 ∷ 1 ∷ []; output_scale = 1 }

abbrev asked : List Outputs.Request
asked =
    Outputs.render_initialised 1 ∷ Outputs.mode_set 1 6 ∷ Outputs.bring_up 1
    ++ (Outputs.render_initialised 2 ∷ Outputs.bring_up 2)

two_come : Outputs.run two_outputs no_outputs ≡ some (after, asked)
unfolding Outputs.run Outputs.server_new_output Outputs.scale_of
two_come = refl

run-output_scale_example : IsInt after
run-output_scale_example =
    run-output_scale two_outputs no_outputs after asked (omega arith, omega arith) two_come

-- Everything answers, and a socket needs XDG_RUNTIME_DIR.
abbrev answers : Services
answers = record {
  backend = true;
  pixman = true;
  autocreate = false;
  add_socket = λ dir. Option.map (λ d. 119 ∷ []) dir;
  start = true;
}

abbrev unset : Environment
unset = record { runtime_dir = none; wayland_display = none }

abbrev with_dir : Environment
with_dir = record { runtime_dir = some (47 ∷ []); wayland_display = none }

abbrev rounds : List (List Main.Event)
rounds =
    (Main.Event.key true true false (key_shift_e ∷ []) ∷ [])
    ∷ (Main.Event.key true true true (key_shift_e ∷ []) ∷ [])
    ∷ []

main-first_exit_example :
    main answers with_dir rounds ≡ comes_to (shown with_dir (119 ∷ [])) (some 2)
main-first_exit_example = main-first_exit answers with_dir rounds (119 ∷ []) refl refl refl refl

with_dir_ends : env_of (main answers with_dir rounds) ≡ some (shown with_dir (119 ∷ []))
unfolding main Main.main_loop Main.dispatch Main.handle Compositor.handle_keyboard_key
    Compositor.shortcuts
with_dir_ends = refl

main-runtime_dir_example : (shown with_dir (119 ∷ [])).runtime_dir ≡ with_dir.runtime_dir
main-runtime_dir_example =
    main-runtime_dir answers with_dir (shown with_dir (119 ∷ [])) rounds refl with_dir_ends
