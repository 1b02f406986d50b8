-- ===== src/Compositor/Outputs.antt =====
-- The outputs of the compositor (compositor/src/main.c: server_new_output, output_frame). A scale
-- is a float, of which wlroots makes sure that it is positive and finite: a mantissa divided by a power
-- of two.
pub mod Laws
use luna_os_arm.Prelude.{
  ℕ, ◌^◌, ◌/◌, ltb, Bool, true, false, Option, none, some, List, [], ◌∷◌, ◌++◌, if◌then◌else◌,
  ◌>>=◌,
}

-- What is asked of wlroots for an output.
pub data Request : Type 0 where
  render_initialised : ℕ → Request
  mode_set : (output mode : ℕ) → Request
  frame_listened : ℕ → Request
  layout_added : ℕ → Request
  scene_output_made : ℕ → Request
  scene_layout_made : Request
  scene_layout_added : ℕ → Request
  enabled : ℕ → Request
  committed : ℕ → Request
  scene_committed : ℕ → Request
  frame_done_sent : ℕ → Request

-- `output_frame`: `drawn` is the answer of wlr_scene_output_commit.
unfoldable pub output_frame : (drawn : Bool) → ℕ → List Request
output_frame drawn output =
    scene_committed output ∷ (if drawn then frame_done_sent output ∷ [] else [])

-- `modes.prev`: the last mode of the list.
abbrev pub last : List ℕ → Option ℕ
last [] = none
last (m ∷ ms) = elim (last ms) [ none ↦ some m | some l ↦ some l ]

abbrev pub set_mode : ℕ → Option ℕ → List Request
set_mode output none = []
set_mode output (some mode) = mode_set output mode ∷ []

-- The calls after the mode is set.
abbrev pub bring_up : ℕ → List Request
bring_up output =
    frame_listened output
    ∷ layout_added output
    ∷ scene_output_made output
    ∷ scene_layout_made
    ∷ scene_layout_added output
    ∷ enabled output
    ∷ committed output
    ∷ []

-- The float `mantissa / 2 ^ exponent`.
pub record Scale : Type 0 where
  pub mantissa : ℕ
  pub exponent : ℕ

-- `scale > 1.0f`
abbrev pub above_one : Scale → Bool
above_one s = ltb (2 ^ s.exponent) s.mantissa

-- `(int)scale`, undefined where it is no `int`.
abbrev pub to_int : Scale → Option ℕ
to_int s = let n = s.mantissa / 2 ^ s.exponent in if ltb n (2 ^ 31) then some n else none

-- `struct wlr_output`, as the handler reads it.
pub record Monitor : Type 0 where
  pub id : ℕ
  pub scale : Scale
  pub modes : List ℕ

-- `server->outputs` from the front, and `server->output_scale`.
pub record Outputs : Type 0 where
  pub outputs : List ℕ
  pub output_scale : ℕ

-- `server->output_scale` behind an output.
unfoldable pub scale_of : Scale → ℕ → Option ℕ
scale_of scale old = if above_one scale then to_int scale else some old

-- `server_new_output`: `calloc` is whether it gives memory for the luna_output; without it the
-- handler writes through NULL, which is `none`.
unfoldable pub server_new_output :
    (calloc : Bool) → Monitor → Outputs → Option (Outputs × List Request)
server_new_output calloc m s =
    if calloc
    then (do
      output_scale ← scale_of m.scale s.output_scale
      some (
        record { outputs = m.id ∷ s.outputs; output_scale = output_scale },
        render_initialised m.id ∷ (set_mode m.id (last m.modes) ++ bring_up m.id),
      ))
    else none

-- The outputs that come one after the other, each with the answer of calloc.
unfoldable pub run : List (Bool × Monitor) → Outputs → Option (Outputs × List Request)
run [] s = some (s, [])
run ((calloc, m) ∷ ms) s = do
  (s', out) ← server_new_output calloc m s
  (s'', more) ← run ms s'
  some (s'', out ++ more)
