-- ===== src/Compositor/Scene.antt =====
-- The pointer of the compositor (compositor/src/main.c): which view is under it, and what its
-- handlers do. The scene graph and what wlr_scene_node_at finds in it are arguments; positions are
-- not modelled.
use luna_os_arm.Prelude.{
  ℕ, zero, suc, Bool, Option, none, some, List, [], ◌∷◌, if◌then◌else◌, ◌>>=◌,
}
use luna_os_arm.Compositor.{View, Server, Action, focus_view}

-- `struct wlr_scene_node`, as far as `view_at` reads it: nodes are numbered.
pub record Node : Type 0 where
  pub parent : Option ℕ
  pub node_data : Option View

-- The node that wlr_scene_node_at gives: its number, and its surface if it is a buffer of one.
pub record Hit : Type 0 where
  pub node : ℕ
  pub surface : Option ℕ

-- `if (parent->data) return`, or go on.
abbrev or_up : Option View → Option (Option View) → Option (Option View)
or_up (some v) up = some (some v)
or_up none up = up

-- The loop of `view_at` over the parents: `none` is out of fuel.
unfoldable pub walk : (ℕ → Node) → (fuel : ℕ) → Option ℕ → Option (Option View)
walk scene zero at = none
walk scene (suc fuel) none = some none
walk scene (suc fuel) (some n) = or_up (scene n).node_data (walk scene fuel (scene n).parent)

abbrev with_surface : ℕ → Option View → Option View × Option ℕ
with_surface surface view = (view, some surface)

abbrev pub found : (ℕ → Node) → ℕ → ℕ → Option ℕ → Option (Option View × Option ℕ)
found scene fuel n none = some (none, none)
found scene fuel n (some surface) = do
  view ← walk scene fuel (scene n).parent
  some (with_surface surface view)

-- `view_at`: the view, and what is written to `*surface`.
unfoldable pub view_at : (ℕ → Node) → (fuel : ℕ) → Option Hit → Option (Option View × Option ℕ)
view_at scene fuel none = some (none, none)
view_at scene fuel (some hit) = found scene fuel hit.node hit.surface

-- What the handlers of the pointer ask of the seat.
pub data Pointer : Type 0 where
  entered : ℕ → Pointer
  moved : Pointer
  default_image : Pointer
  focus_cleared : Pointer
  button_notified : Pointer

abbrev motion : Option View × Option ℕ → List Pointer
motion (some view, some surface) = Pointer.entered surface ∷ Pointer.moved ∷ []
motion (some view, none) = Pointer.default_image ∷ Pointer.focus_cleared ∷ []
motion (none, surface) = Pointer.default_image ∷ Pointer.focus_cleared ∷ []

-- `handle_cursor_motion`, at the place to which the cursor moved.
unfoldable pub handle_cursor_motion : (ℕ → Node) → (fuel : ℕ) → Option Hit → Option (List Pointer)
handle_cursor_motion scene fuel hit = do there ← view_at scene fuel hit; some (motion there)

abbrev pub click :
    (ℕ → Bool) → Option ℕ → Bool → Server → Option View × Option ℕ → Server × List Action
click is_toplevel focused has_keyboard server (some view, some surface) =
    focus_view is_toplevel focused has_keyboard view surface server
click is_toplevel focused has_keyboard server (some view, none) = (server, [])
click is_toplevel focused has_keyboard server (none, surface) = (server, [])

-- `handle_cursor_button`, after the button is notified.
unfoldable pub handle_cursor_button :
    (ℕ → Node)
    → (fuel : ℕ) → Option Hit
    → (ℕ → Bool)
    → Option ℕ
    → Bool
    → (pressed : Bool) → Server
    → Option (Server × List Action)
handle_cursor_button scene fuel hit is_toplevel focused has_keyboard pressed server = do
  there ← view_at scene fuel hit
  some (if pressed then click is_toplevel focused has_keyboard server there else (server, []))
