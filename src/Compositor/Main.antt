-- ===== src/Compositor/Main.antt =====
-- The start, the loop and the end of the compositor (compositor/src/main.c: main). What wlroots and
-- libwayland answer is an argument; a renderer that is missing is used through NULL, which is a fault.
pub mod Ends
use luna_os_arm.Prelude.{
  ℕ, ◌+◌, Bool, true, false, not, ◌&&◌, ◌||◌, Option, none, some, List, [], ◌∷◌, ◌++◌,
  if◌then◌else◌,
}
use luna_os_arm.Prelude.Text.{codes}
use luna_os_arm.Compositor.{
  View, Server, Symbol, new_toplevel, view_map, view_unmap, view_destroy, handle_keyboard_key,
}
use luna_os_arm.Compositor.Scene.{click}

-- What the libraries answer. `add_socket` is wl_display_add_socket_auto at a value of
-- XDG_RUNTIME_DIR, and gives the name of the socket.
pub record Services : Type 0 where
  pub backend : Bool
  pub pixman : Bool
  pub autocreate : Bool
  pub add_socket : Option (List ℕ) → Option (List ℕ)
  pub start : Bool

-- The variables XDG_RUNTIME_DIR and WAYLAND_DISPLAY.
pub record Environment : Type 0 where
  pub runtime_dir : Option (List ℕ)
  pub wayland_display : Option (List ℕ)

-- The protocols that `main` offers, with their versions where it names one.
pub data Global : Type 0 where
  compositor : (version : ℕ) → Global
  subcompositor data_device_manager : Global
  xdg_shell : (version : ℕ) → Global
  layer_shell : (version : ℕ) → Global
  toplevel_manager screencopy gamma_control viewporter presentation xdg_output : Global

-- The signals that it listens to.
pub data Signal : Type 0 where
  new_output new_surface new_input cursor_motion cursor_button cursor_axis : Signal

pub data Call : Type 0 where
  display_made backend_made renderer_made renderer_shown allocator_made scene_made layout_made :
      Call
  global_made : Global → Call
  seat_made cursor_made theme_made layout_attached : Call
  theme_loaded : (scale : ℕ) → Call
  listened : Signal → Call
  socket_made dir_made backend_started shell_started : Call
  dispatched : (rounds : ℕ) → Call
  clients_destroyed backend_destroyed display_destroyed : Call

abbrev pub set_up : List Call
set_up =
    display_made
    ∷ backend_made
    ∷ renderer_made
    ∷ renderer_shown
    ∷ allocator_made
    ∷ scene_made
    ∷ layout_made
    ∷ global_made (Global.compositor 6)
    ∷ global_made Global.subcompositor
    ∷ global_made Global.data_device_manager
    ∷ global_made (Global.xdg_shell 6)
    ∷ global_made (Global.layer_shell 4)
    ∷ global_made Global.toplevel_manager
    ∷ global_made Global.screencopy
    ∷ global_made Global.gamma_control
    ∷ global_made Global.viewporter
    ∷ global_made Global.presentation
    ∷ global_made Global.xdg_output
    ∷ seat_made
    ∷ cursor_made
    ∷ theme_made
    ∷ layout_attached
    ∷ theme_loaded 1
    ∷ listened Signal.new_output
    ∷ listened Signal.new_surface
    ∷ listened Signal.new_input
    ∷ listened Signal.cursor_motion
    ∷ listened Signal.cursor_button
    ∷ listened Signal.cursor_axis
    ∷ []

-- What a dispatch of the event loop can bring to the handlers that change the server.
pub data Event : Type 0 where
  created : (id surface : ℕ) → Event
  mapped : (is_toplevel : ℕ → Bool) (focused : Option ℕ) (has_keyboard : Bool) → View → Event
  unmapped : View → Event
  destroyed : View → Event
  clicked :
      (is_toplevel : ℕ → Bool) (focused : Option ℕ) (has_keyboard : Bool)
      → Option View × Option ℕ
      → Event
  key : (pressed super shift : Bool) → List Symbol → Event

unfoldable pub handle : Event → Server → Server
handle (created id surface) s = new_toplevel id surface s
handle (mapped is_toplevel focused has_keyboard v) s =
    (view_map is_toplevel focused has_keyboard v s).0
handle (unmapped v) s = (view_unmap v s).0
handle (destroyed v) s = view_destroy v s
handle (clicked is_toplevel focused has_keyboard there) s =
    (click is_toplevel focused has_keyboard s there).0
handle (key pressed super shift syms) s = (handle_keyboard_key pressed super shift syms s).0

-- One `wl_event_loop_dispatch`
unfoldable pub dispatch : List Event → Server → Server
dispatch [] s = s
dispatch (e ∷ es) s = dispatch es (handle e s)

-- `while (server.running)`: the server and how often it dispatched, `none` if it still runs when
-- the rounds given are over.
unfoldable pub main_loop : List (List Event) → Server → ℕ → Option (Server × ℕ)
main_loop [] s n = if s.running then none else some (s, n)
main_loop (r ∷ rs) s n =
    let rest = main_loop rs (dispatch r s) (n + 1) in if s.running then rest else some (s, n)

pub data Outcome : Type 0 where
  exited : (code : ℕ) → Environment → List Call → Outcome
  faulted : List Call → Outcome
  runs : Environment → List Call → Outcome

abbrev pub default_dir : List ℕ
default_dir = codes "/run/user/501"

-- `setenv(name, value, 0)` keeps a value that there is.
abbrev pub unless_set : Option (List ℕ) → List ℕ → Option (List ℕ)
unless_set none value = some value
unless_set (some old) value = some old

abbrev pub initial : Server
initial = record { views = []; running = true }

abbrev pub finish : Environment → List Call → Option (Server × ℕ) → Outcome
finish env calls none = runs env calls
finish env calls (some (s, n)) =
    exited 0 env
      (calls ++ (dispatched n ∷ clients_destroyed ∷ backend_destroyed ∷ display_destroyed ∷ []))

-- From the socket on.
abbrev pub with_socket : Services → Environment → List (List Event) → Option (List ℕ) → Outcome
with_socket w env rounds none = exited 1 env set_up
with_socket w env rounds (some socket) =
    let env' : Environment = record {
      runtime_dir = unless_set env.runtime_dir default_dir;
      wayland_display = some socket;
    } in
    let calls = set_up ++ (socket_made ∷ dir_made ∷ []) in
    if w.start
    then finish env' (calls ++ (backend_started ∷ shell_started ∷ [])) (main_loop rounds initial 0)
    else exited 1 env' calls

-- `main`
unfoldable pub main : Services → Environment → List (List Event) → Outcome
main w env rounds =
    if w.backend
    then (if w.pixman || w.autocreate
        then with_socket w env rounds (w.add_socket env.runtime_dir)
        else faulted (display_made ∷ backend_made ∷ []))
    else exited 1 env (display_made ∷ [])
