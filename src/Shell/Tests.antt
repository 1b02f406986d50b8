-- ===== src/Shell/Tests.antt =====
-- A shell with two outputs, and a panel.
use luna_os_arm.Prelude.{
  ℕ, zero, suc, ◌*◌, ◌≡◌, refl, true, false, ◌&&◌, Option, none, some, List, [], ◌∷◌, ◌++◌,
  if◌then◌else◌, ltb, replicate, length-replicate, arith,
}
use luna_os_arm.Shell.Pixels.{paint, fill}
use luna_os_arm.Shell.Buffers.{
  Output, Shm, Action, paint_panel, create_shm_file, create_panel_for_output,
}
use luna_os_arm.Shell.Running.{AllRoomy, no_more, has_room, StaysRoomy, over, turn, serve-runs}
use luna_os_arm.Shell.Held.{Released, nothing, follow_all}
use luna_os_arm.Shell.Drawn.{works}
use luna_os_arm.Shell.Panel.{
  Config, Toplevel, Panel, Pixels, Zone, panel_create, create_shm, draw_text_stub, draw_toplevels,
  draw, panel_render, ls_configure, panel_destroy,
}
use luna_os_arm.Shell.Windows.{toplevel_zone}
use luna_os_arm.Shell.Zones.{shown_zones, panel_render-zones}
use luna_os_arm.Shell.Protocol.{Phase, speak_all, create_panel_unordered}
use luna_os_arm.Shell.Order.{Turn, turns_of, turns_of-ordered}
use luna_os_arm.Shell.Life.{Size, configure_all, panel_life}
use luna_os_arm.Shell.Main.{output_scale_cb, Interface, Shell, initial}
use luna_os_arm.Shell.Program.{News, World, main, hear, hear_all, serve}
use luna_os_arm.Shell.Program.Exits.{has_all, main-exits}

abbrev or_else {ℓ} : {A : Type ℓ} → A → Option A → A
or_else d none = d
or_else d (some a) = a

abbrev output : ℕ → ℕ → Output
output width scale = record { width = width; height = 1600; scale = scale; name = [] }

-- The first output of a redraw gets its memory, the second does not.
abbrev answers : ℕ → ℕ → Shm
answers r zero = works 5
answers r (suc n) = record { shm_fd = some 6; truncates = true; maps = false }

-- In the second turn the first output gets another scale.
abbrev turns : List (List News × ℕ)
turns = ([], 1) ∷ (News.scale 0 3 ∷ [], 1) ∷ ([], 2) ∷ []

abbrev config : Config
config = record {
  panel_height = 36;
  panel_bg_color = 1;
  panel_fg_color = 2;
  panel_accent_color = 3;
  font_size = 14;
}

abbrev terminal : Toplevel
terminal = record { title = 102 ∷ 111 ∷ 111 ∷ 116 ∷ []; app_id = []; activated = true }

abbrev zone : Zone
zone = record { x = 0; w = 0 }

abbrev with_memory : Panel
with_memory = record {
  width = 640;
  height = 36;
  phys_w = 1280;
  phys_h = 72;
  scale = 2;
  configured = true;
  dirty = true;
  pixels = Pixels.memory (replicate (72 * 1280) 0);
  size = 72 * 1280 * 4;
  shm_fd = some 5;
  buffer = true;
  zone_launcher = zone;
  zone_toplevels = [];
}

abbrev clock : List ℕ
clock = 49 ∷ 50 ∷ 58 ∷ 48 ∷ 48 ∷ []

panel_render-zones_example :
    shown_zones 0 (panel_render config (terminal ∷ []) clock with_memory)
    ≡ some (record { x = 8; w = 80 }, if ltb 0 1 && ltb 0 32 then some (toplevel_zone 0) else none)
panel_render-zones_example =
    panel_render-zones config (terminal ∷ []) clock with_memory (replicate (72 * 1280) 0) 0 refl
      refl (length-replicate {A = ℕ} (72 * 1280) 0)
      (record {
        scale = omega arith;
        height = omega arith;
        font = omega arith;
        launcher = omega arith;
        windows = omega arith;
        labels = refl;
        clock = omega arith;
      })

abbrev plain : Config
plain = record config { font_size = 0 }

abbrev size : Size
size = record { tls = []; clk = []; output_scale = 1; fd = 5; w = 24; h = 1 }

abbrev lived : Panel × List Action
lived = or_else (with_memory, []) (configure_all plain (size ∷ size ∷ []) (panel_create plain 1).0)

panel_lives : configure_all plain (size ∷ size ∷ []) (panel_create plain 1).0 ≡ some lived
unfolding panel_create ls_configure create_shm panel_render draw draw_toplevels draw_text_stub paint
    fill
panel_lives = refl

panel_life_example :
    follow_all ((panel_create plain 1).1 ++ lived.1 ++ panel_destroy lived.0) nothing ≡ some nothing
panel_life_example = panel_life plain 1 size (size ∷ []) lived panel_lives

abbrev panel_turns : List Turn
panel_turns =
    record { shm = works 5; tls = []; clk = []; output_scale = 1; w = 24; h = 1 }
    ∷ record { shm = works 6; tls = []; clk = []; output_scale = 1; w = 25; h = 1 }
    ∷ []

abbrev ordered : Panel × List Action
ordered = or_else (with_memory, []) (turns_of plain panel_turns (panel_create plain 1).0)

panel_ordered : turns_of plain panel_turns (panel_create plain 1).0 ≡ some ordered
unfolding panel_create ls_configure create_shm panel_render draw draw_toplevels draw_text_stub paint
    fill
panel_ordered = refl

turns_of-ordered_example :
    (end : Phase) × (speak_all ((panel_create plain 1).1 ++ ordered.1) Phase.absent ≡ some end)
turns_of-ordered_example = turns_of-ordered plain 1 panel_turns ordered panel_ordered

abbrev panel_acts : List Action
panel_acts = or_else [] (create_panel_for_output (works 5) (output 1 0))

panel_made : create_panel_for_output (works 5) (output 1 0) ≡ some panel_acts
unfolding create_panel_for_output create_shm_file paint_panel paint fill
panel_made = refl

create_panel_unordered_example : speak_all panel_acts Phase.absent ≡ none
create_panel_unordered_example = create_panel_unordered 5 (output 1 0) panel_acts panel_made

abbrev outputs : List Output
outputs = output 2560 2 ∷ output 1920 1 ∷ []

outputs-AllRoomy : AllRoomy outputs
outputs-AllRoomy =
    has_room (record { scale = omega arith; button = omega arith; bytes = omega arith })
      (has_room (record { scale = omega arith; button = omega arith; bytes = omega arith }) no_more)

abbrev two_outputs : Shell
two_outputs = record initial { outputs = outputs }

scaled-AllRoomy : AllRoomy (output 2560 2 ∷ output 1920 3 ∷ [])
scaled-AllRoomy =
    has_room (record { scale = omega arith; button = omega arith; bytes = omega arith })
      (has_room (record { scale = omega arith; button = omega arith; bytes = omega arith }) no_more)

two_outputs-StaysRoomy : StaysRoomy turns two_outputs
unfolding hear_all hear output_scale_cb
two_outputs-StaysRoomy = turn outputs-AllRoomy (turn scaled-AllRoomy (turn scaled-AllRoomy over))

serve-runs_example :
    (acts : List Action) × (serve answers 0 0 turns two_outputs ≡ some acts) × Released acts
serve-runs_example = serve-runs answers 0 0 turns two_outputs two_outputs-StaysRoomy

-- A compositor that announces what the shell needs, and an output of one pixel.
abbrev world : World
world = record {
  connects = true;
  heard =
      News.announced Interface.shm 1
      ∷ News.announced Interface.output 4
      ∷ News.announced Interface.layer_shell 4
      ∷ News.announced Interface.compositor 6
      ∷ News.mode 0 true 1 1
      ∷ News.scale 0 0
      ∷ [];
  told = λ k. [];
  shade = λ x y. 0;
  shms = λ n. works 5;
  redraw_shms = λ r n. works 6;
  turns = ([], 1) ∷ [];
}

abbrev exit : ℕ × List Action
exit = or_else (1, []) (main world)

world_exits : main world ≡ some exit
unfolding main hear_all hear luna_os_arm.Shell.Program.create_each serve
    luna_os_arm.Shell.Main.registry_global luna_os_arm.Shell.Main.output_mode output_scale_cb
    luna_os_arm.Shell.Main.redraw_all luna_os_arm.Shell.Buffers.create_wallpaper_for_output
    luna_os_arm.Shell.Buffers.gradient create_panel_for_output create_shm_file paint_panel paint
    fill
world_exits = refl

main-exits_example :
    (exit.0 ≡ (if world.connects && has_all world.heard then 0 else 1)) × Released exit.1
main-exits_example = main-exits world exit.0 exit.1 world_exits
