-- ===== src/Shell/Protocol.antt =====
-- The order that the layer-shell protocol (zwlr_layer_shell_v1) asks of a client: a surface is
-- committed without a buffer, a configure is acknowledged, and only then a buffer is committed. The
-- panel of shell/src/luna-panel.c keeps to it, the one of shell/src/luna-shell-main.c does not.
use luna_os_arm.Prelude.{
  ℕ, ◌/◌, ◌≡◌, refl, inl, inr, Option, none, some, List, [], ◌∷◌, ◌++◌, ◌>>=◌, bind-some,
  Option-cases, replicate, arith,
}
use luna_os_arm.Shell.Pixels.{mul_int}
use luna_os_arm.Shell.Buffers.{
  Output, Action, create_shm_file, create_panel_for_output, hand_over, panel_surface, paint_panel,
  panel_h_logical,
}
use luna_os_arm.Shell.Drawn.{works}

-- Where a layer surface is in the protocol.
pub data Phase : Type 0 where
  absent : Phase
  fresh : Phase
  awaiting : Phase
  configured : Phase

abbrev commit : Phase → Option Phase
commit absent = none
commit fresh = none
commit awaiting = none
commit configured = some configured

abbrev pub acknowledge : Phase → Option Phase
acknowledge absent = none
acknowledge fresh = none
acknowledge awaiting = some configured
acknowledge configured = some configured

-- The commit without a buffer, on which the compositor answers with a configure.
abbrev commit_empty : Phase → Option Phase
commit_empty absent = none
commit_empty fresh = some awaiting
commit_empty awaiting = some awaiting
commit_empty configured = some configured

-- One call: `none` is a protocol error.
unfoldable pub speak : Action → Phase → Option Phase
speak (Action.layer_surface l) phase = some fresh
speak Action.acknowledged phase = acknowledge phase
speak (Action.committed px) phase = commit phase
speak Action.surface_destroyed phase = some absent
speak (Action.opened fd) phase = some phase
speak Action.unlinked phase = some phase
speak (Action.closed fd) phase = some phase
speak (Action.mapped n) phase = some phase
speak (Action.unmapped n) phase = some phase
speak Action.unmapped_failed phase = some phase
speak (Action.pool_created n) phase = some phase
speak Action.pool_destroyed phase = some phase
speak Action.buffer_destroyed phase = some phase
speak (Action.buffer_created w h stride) phase = some phase
speak Action.anchored phase = some phase
speak (Action.sized h) phase = some phase
speak (Action.exclusive_zone z) phase = some phase
speak (Action.interactive b) phase = some phase
speak Action.initial_commit phase = commit_empty phase
speak (Action.buffer_scale n) phase = some phase
speak Action.attached phase = some phase
speak Action.attached_null phase = some phase
speak (Action.damaged w h) phase = some phase

unfoldable pub speak_all : List Action → Phase → Option Phase
speak_all [] phase = some phase
speak_all (a ∷ acts) phase = speak a phase >>= speak_all acts

pub speak_all-++ :
    (xs ys : List Action) (phase : Phase)
    → speak_all (xs ++ ys) phase ≡ (speak_all xs phase >>= speak_all ys)
unfolding speak_all
speak_all-++ [] ys phase = refl
speak_all-++ (x ∷ xs) ys phase = elim (Option-cases (speak x phase)) [
  | inl stuck ↦ simp stuck refl
  | inr (next, on) ↦ simp on (speak_all-++ xs ys next)
]

-- The panel of luna-shell-main.c, when the system makes its buffer and it comes to no undefined
-- behaviour: it commits a buffer before any configure, which the protocol does not allow.
pub create_panel_unordered :
    (fd : ℕ) (out : Output) (acts : List Action)
    → create_panel_for_output (works fd) out ≡ some acts
    → speak_all acts absent ≡ none
unfolding create_panel_for_output create_shm_file speak_all speak
create_panel_unordered fd out acts e =
    let (phys_h, a, e) = bind-some (mul_int panel_h_logical out.scale) e in
    let (stride, b, e) = bind-some (mul_int out.width 4) e in
    let (size, c, e) = bind-some (mul_int stride phys_h) e in
    elim (Option-cases (paint_panel out.width phys_h out.scale (replicate (size / 4) 0))) [
      | inl outside ↦ absurd (ground (arith, e))
      | inr (px, inside) ↦
          let same : acts
              ≡ Action.opened fd
                ∷ Action.unlinked
                ∷ (Action.mapped size ∷ panel_surface
                    ++ hand_over fd size out.width phys_h stride out.scale px) =
            ground (arith, e) in
          rw same refl
    ]
