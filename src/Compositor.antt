-- ===== src/Compositor.antt =====
-- The windows and the keyboard shortcuts of the compositor (compositor/src/main.c). wlroots is the
-- library that it drives: what the seat and the keyboard say is an argument, what the compositor
-- asks of wlroots is an output.
pub mod Focus
pub mod Scene
pub mod Under
pub mod Views
pub mod Click
pub mod Inputs
pub mod Outputs
pub mod Main
pub mod Reach
mod Tests
mod Samples
use luna_os_arm.Prelude.{
  ℕ, Bool, true, false, not, ◌&&◌, ◌||◌, Option, none, some, List, [], ◌∷◌, ◌++◌, ◌==◌,
  if◌then◌else◌,
}

-- `struct luna_view`; `surface` is its wlr_surface, `listed` whether it has a toplevel_handle.
pub record View : Type 0 where
  pub id : ℕ
  pub surface : ℕ
  pub mapped : Bool
  pub listed : Bool

-- `struct luna_server`: its list of views from the front, and whether it runs.
pub record Server : Type 0 where
  pub views : List View
  pub running : Bool

pub data Action : Type 0 where
  deactivated : ℕ → Action
  raised : ℕ → Action
  activated : ℕ → Action
  keyboard_entered : ℕ → Action
  handle_created : ℕ → Action
  handle_destroyed : ℕ → Action
  close_sent : ℕ → Action
  terminal_started : Action
  key_notified : Action

-- `server_new_xdg_surface` for a toplevel: a view at the front, not mapped.
unfoldable pub new_toplevel : ℕ → ℕ → Server → Server
new_toplevel id surface server = record server {
  views = record { id = id; surface = surface; mapped = false; listed = false } ∷ server.views;
}

-- `wl_list_remove(&view->link)`
abbrev pub without : ℕ → List View → List View
without id [] = []
without id (v ∷ vs) = let rest = without id vs in if v.id == id then vs else v ∷ rest

-- A change of the view with an identity.
abbrev pub change : ℕ → (View → View) → List View → List View
change id f [] = []
change id f (v ∷ vs) = let rest = change id f vs in if v.id == id then f v ∷ vs else v ∷ rest

abbrev pub deactivate : (ℕ → Bool) → Option ℕ → List Action
deactivate is_toplevel none = []
deactivate is_toplevel (some prev) = if is_toplevel prev then deactivated prev ∷ [] else []

abbrev pub is_focused : Option ℕ → ℕ → Bool
is_focused none surface = false
is_focused (some prev) surface = prev == surface

-- `focus_view`: `focused` is the seat's focused surface, `has_keyboard` whether it has a keyboard.
unfoldable pub focus_view :
    (is_toplevel : ℕ → Bool)
    → (focused : Option ℕ) → (has_keyboard : Bool) → View
    → (surface : ℕ) → Server
    → Server × List Action
focus_view is_toplevel focused has_keyboard view surface server =
    if is_focused focused surface then (server, []) else (
      record server { views = view ∷ without view.id server.views },
      deactivate is_toplevel focused
          ++ (raised view.id
              ∷ activated view.id
              ∷ (if has_keyboard then keyboard_entered surface ∷ [] else [])),
    )

-- `view_map` of a view of the list: it is mapped, focused, and told to the panel.
unfoldable pub view_map : (ℕ → Bool) → Option ℕ → Bool → View → Server → Server × List Action
view_map is_toplevel focused has_keyboard view server =
    let shown : View = record view { mapped = true } in
    let there : Server = record server { views = change view.id (λ v. shown) server.views } in
    let (server', out) = focus_view is_toplevel focused has_keyboard shown view.surface there in
    (
      record server' { views = change view.id (λ v. record v { listed = true }) server'.views },
      out ++ (handle_created view.id ∷ []),
    )

-- `view_unmap`
unfoldable pub view_unmap : View → Server → Server × List Action
view_unmap view server = (
  record server {
    views = change view.id (λ v. record v { mapped = false; listed = false }) server.views;
  },
  if view.listed then handle_destroyed view.id ∷ [] else [],
)

-- `view_destroy`
unfoldable pub view_destroy : View → Server → Server
view_destroy view server = record server { views = without view.id server.views }

-- The key symbols that `handle_keyboard_key` tells apart.
pub data Symbol : Type 0 where
  key_q : Symbol
  key_t : Symbol
  key_shift_e : Symbol
  other : ℕ → Symbol

-- The server, the flag `handled`, and what is done.
abbrev pub Handled : Type 0
Handled = Server × Bool × List Action

abbrev pub close_front : List View → Server → Bool → Handled
close_front [] server handled = (server, handled, [])
close_front (v ∷ vs) server handled = (server, true, if v.mapped then close_sent v.id ∷ [] else [])

-- One case of the `switch` over the symbols.
abbrev pub shortcut : Symbol → (shift : Bool) → Server → Bool → Handled
shortcut key_q shift server handled = close_front server.views server handled
shortcut key_t shift server handled = (server, true, terminal_started ∷ [])
shortcut key_shift_e shift server handled =
    if shift then (record server { running = false }, true, []) else (server, handled, [])
shortcut (other n) shift server handled = (server, handled, [])

-- The loop over the symbols of a key.
unfoldable pub shortcuts : List Symbol → (shift : Bool) → Server → Bool → Handled
shortcuts [] shift server handled = (server, handled, [])
shortcuts (sym ∷ syms) shift server handled =
    let (server', handled', out) = shortcut sym shift server handled in
    let (server'', handled'', more) = shortcuts syms shift server' handled' in
    (server'', handled'', out ++ more)

-- `handle_keyboard_key` with a keyboard: a key that is not handled goes to the focused client.
unfoldable pub handle_keyboard_key :
    (pressed super shift : Bool) → List Symbol → Server → Server × List Action
handle_keyboard_key pressed super shift syms server =
    let (server', handled, out) = shortcuts syms shift server false in
    if pressed && super
    then (server', out ++ (if handled then [] else key_notified ∷ []))
    else (server, key_notified ∷ [])
