-- ===== src/Compositor/Main/Ends.antt =====
-- When the main loop of compositor/src/main.c ends, and what becomes of XDG_RUNTIME_DIR.
use luna_os_arm.Prelude.{
  ℕ, ◌+◌, ◌≡◌, ◌≢◌, refl, ap, sym, ◌∙◌, arith, Bool, true, false, not, ◌&&◌, ◌||◌, Option, none,
  some, List, [], ◌∷◌, ◌++◌, if◌then◌else◌, Bool-cases, inl, inr,
}
use luna_os_arm.Compositor.{
  View, Server, Symbol, focus_view, new_toplevel, view_map, view_unmap, view_destroy,
  handle_keyboard_key, shortcuts, close_front,
}
use luna_os_arm.Compositor.Scene.{click}
use luna_os_arm.Compositor.Main.{
  Services, Environment, Event, handle, dispatch, main_loop, Outcome, exited, faulted, runs, Call,
  dispatched, clients_destroyed, backend_destroyed, display_destroyed, set_up, initial, finish,
  with_socket, unless_set, default_dir, main, socket_made, dir_made, backend_started, shell_started,
}

-- Super+Shift+E: the symbol E among those of a key that is pressed while both are held.
abbrev pub has_exit : List Symbol → Bool
has_exit [] = false
has_exit (Symbol.key_shift_e ∷ syms) = true
has_exit (_ ∷ syms) = has_exit syms

abbrev pub is_exit : Event → Bool
is_exit (Event.key pressed super shift syms) = (pressed && super) && (shift && has_exit syms)
is_exit _ = false

abbrev pub exits : List Event → Bool
exits [] = false
exits (e ∷ es) = is_exit e || exits es

-- How many rounds there are up to the first with the shortcut, and with it.
abbrev pub first_exit : List (List Event) → ℕ → Option ℕ
first_exit [] n = none
first_exit (r ∷ rs) n = if exits r then some (n + 1) else first_exit rs (n + 1)

and_true : (b : Bool) → (b && true) ≡ b
and_true true = refl
and_true false = refl

running-focus :
    (is_toplevel : ℕ → Bool) (focused : Option ℕ) (keyboard : Bool) (v : View) (surface : ℕ)
    (s : Server)
    → (focus_view is_toplevel focused keyboard v surface s).0.running ≡ s.running
unfolding focus_view
running-focus is_toplevel focused keyboard v surface s = ground arith

running-click :
    (is_toplevel : ℕ → Bool) (focused : Option ℕ) (keyboard : Bool) (s : Server)
    (there : Option View × Option ℕ)
    → (click is_toplevel focused keyboard s there).0.running ≡ s.running
running-click is_toplevel focused keyboard s (some v, some surface) =
    running-focus is_toplevel focused keyboard v surface s
running-click is_toplevel focused keyboard s (some v, none) = refl
running-click is_toplevel focused keyboard s (none, surface) = refl

running-front :
    (vs : List View) (s : Server) (handled : Bool)
    → (close_front vs s handled).0.running ≡ s.running
running-front [] s handled = refl
running-front (v ∷ vs) s handled = refl

running-shortcuts :
    (syms : List Symbol) (shift : Bool) (s : Server) (handled : Bool)
    → (shortcuts syms shift s handled).0.running ≡ (s.running && not (shift && has_exit syms))
unfolding shortcuts
running-shortcuts [] shift s handled = ground arith
running-shortcuts (Symbol.key_q ∷ syms) shift s handled =
    running-shortcuts syms shift (close_front s.views s handled).0 (close_front s.views s handled).1
    ∙ ap (λ (b : Bool). b && not (shift && has_exit syms)) (running-front s.views s handled)
running-shortcuts (Symbol.key_t ∷ syms) shift s handled = running-shortcuts syms shift s true
running-shortcuts (Symbol.key_shift_e ∷ syms) true s handled =
    running-shortcuts syms true (record s { running = false }) true ∙ ground arith
running-shortcuts (Symbol.key_shift_e ∷ syms) false s handled =
    running-shortcuts syms false s handled
running-shortcuts (Symbol.other n ∷ syms) shift s handled = running-shortcuts syms shift s handled

running-key :
    (pressed super shift : Bool) (syms : List Symbol) (s : Server)
    → (handle_keyboard_key pressed super shift syms s).0.running
      ≡ (s.running && not (is_exit (Event.key pressed super shift syms)))
unfolding handle_keyboard_key
running-key true true shift syms s = running-shortcuts syms shift s false
running-key true false shift syms s = ground arith
running-key false super shift syms s = ground arith

running-handle : (e : Event) (s : Server) → (handle e s).running ≡ (s.running && not (is_exit e))
unfolding handle new_toplevel view_map view_unmap view_destroy
running-handle (Event.created id surface) s = ground arith
running-handle (Event.mapped is_toplevel focused keyboard v) s =
    running-focus is_toplevel focused keyboard (record v { mapped = true }) v.surface _
    ∙ sym (and_true s.running)
running-handle (Event.unmapped v) s = ground arith
running-handle (Event.destroyed v) s = ground arith
running-handle (Event.clicked is_toplevel focused keyboard there) s =
    running-click is_toplevel focused keyboard s there ∙ sym (and_true s.running)
running-handle (Event.key pressed super shift syms) s = running-key pressed super shift syms s

running-dispatch :
    (es : List Event) (s : Server) → (dispatch es s).running ≡ (s.running && not (exits es))
unfolding dispatch
running-dispatch [] s = ground arith
running-dispatch (e ∷ es) s = ground (arith, running-dispatch es (handle e s), running-handle e s)

abbrev count : Option (Server × ℕ) → Option ℕ
count none = none
count (some (s, n)) = some n

stopped :
    (rs : List (List Event)) (s : Server) (n : ℕ)
    → s.running ≡ false
    → main_loop rs s n ≡ some (s, n)
unfolding main_loop
stopped [] s n off = rw off refl
stopped (r ∷ rs) s n off = rw off refl

-- A loop that is entered while the server runs dispatches up to the first round with
-- Super+Shift+E, and with it, and ends there; without one it goes on.
pub main_loop-first_exit :
    (rs : List (List Event)) (s : Server) (n : ℕ)
    → s.running ≡ true
    → count (main_loop rs s n) ≡ first_exit rs n
unfolding main_loop
main_loop-first_exit [] s n on = rw on refl
main_loop-first_exit (r ∷ rs) s n on = elim (Bool-cases (exits r)) [
  | inl last ↦
      (let off : (dispatch r s).running ≡ false = ground (arith, running-dispatch r s) in
        simp (on, last, stopped rs (dispatch r s) (n + 1) off) refl)
  | inr goes ↦
      (let still : (dispatch r s).running ≡ true = ground (arith, running-dispatch r s) in
        simp (on, goes) (main_loop-first_exit rs (dispatch r s) (n + 1) still))
]

-- What `main` leaves of the environment, where it comes to an end or into its loop.
abbrev pub env_of : Outcome → Option Environment
env_of (exited code env calls) = some env
env_of (faulted calls) = none
env_of (runs env calls) = some env

finish-env :
    (env : Environment) (calls : List Call) (o : Option (Server × ℕ))
    → env_of (finish env calls o) ≡ some env
finish-env env calls none = refl
finish-env env calls (some (s, n)) = refl

-- The environment that a run with a socket leaves.
abbrev pub shown : Environment → List ℕ → Environment
shown env socket = record {
  runtime_dir = unless_set env.runtime_dir default_dir;
  wayland_display = some socket;
}

with_socket-env :
    (w : Services) (env : Environment) (rounds : List (List Event)) (socket : List ℕ)
    → env_of (with_socket w env rounds (some socket)) ≡ some (shown env socket)
with_socket-env w env rounds socket = elim (Bool-cases w.start) [
  | inl starts ↦ rw starts (finish-env (shown env socket) _ (main_loop rounds initial 0))
  | inr fails ↦ rw fails refl
]

unless_set_some : (dir : Option (List ℕ)) (d : List ℕ) → dir ≢ none → unless_set dir d ≡ dir
unless_set_some none d h = absurd (h refl)
unless_set_some (some dir) d h = refl

kept_dir :
    (w : Services) (env env' : Environment) (rounds : List (List Event)) (socket : Option (List ℕ))
    → (env.runtime_dir ≡ none → socket ≡ none)
    → env_of (with_socket w env rounds socket) ≡ some env'
    → env'.runtime_dir ≡ env.runtime_dir
kept_dir w env env' rounds none law e =
    (let same : env ≡ env' = cc in ap (λ (v : Environment). v.runtime_dir) (sym same))
kept_dir w env env' rounds (some socket) law e =
    (let is : some (shown env socket) ≡ some env' = sym (with_socket-env w env rounds socket) ∙ e in
      let same : shown env socket ≡ env' = cc in
      let set : env.runtime_dir ≢ none = λ unset. (let no_socket = law unset in cc) in
      sym (ap (λ (v : Environment). v.runtime_dir) same)
      ∙ unless_set_some env.runtime_dir default_dir set)

-- wl_display_add_socket_auto fails without XDG_RUNTIME_DIR, as its documentation says. Then no run
-- of `main` changes that variable: the directory that it sets for the case that there is none comes
-- after the socket, which has failed by then.
pub main-runtime_dir :
    (w : Services) (env env' : Environment) (rounds : List (List Event))
    → w.add_socket none ≡ none
    → env_of (main w env rounds) ≡ some env'
    → env'.runtime_dir ≡ env.runtime_dir
unfolding main
main-runtime_dir w env env' rounds law e = elim (Bool-cases w.backend) [
  | inl has_backend ↦ elim (Bool-cases (w.pixman || w.autocreate)) [
    | inl drawn ↦
        kept_dir w env env' rounds (w.add_socket env.runtime_dir) (λ unset. rw unset law)
          (simp (has_backend, drawn) at e)
    | inr undrawn ↦ (let no_env : none ≡ some env' = simp (has_backend, undrawn) at e in cc)
  ]
  | inr no_backend ↦
      (let is : some env ≡ some env' = simp no_backend at e in
        let same : env ≡ env' = cc in ap (λ (v : Environment). v.runtime_dir) (sym same))
]

-- What a started compositor comes to, given the round that ends its loop.
abbrev pub comes_to : Environment → Option ℕ → Outcome
comes_to env none =
    runs env (set_up ++ (socket_made ∷ dir_made ∷ backend_started ∷ shell_started ∷ []))
comes_to env (some n) = exited 0 env (
    set_up
    ++ (socket_made
        ∷ dir_made
        ∷ backend_started
        ∷ shell_started
        ∷ dispatched n
        ∷ clients_destroyed
        ∷ backend_destroyed
        ∷ display_destroyed
        ∷ []))

finish-count :
    (env : Environment) (o : Option (Server × ℕ))
    → finish env
        (set_up ++ (socket_made ∷ dir_made ∷ []) ++ (backend_started ∷ shell_started ∷ []))
        o
      ≡ comes_to env (count o)
finish-count env none = refl
finish-count env (some (s, n)) = refl

-- With a backend, a renderer, a socket and a backend that starts: `main` listens to its signals,
-- makes the socket and starts the shell, dispatches up to the first round with Super+Shift+E, and
-- then destroys the clients, the backend and the display in this order and returns 0; without such
-- a round it goes on.
pub main-first_exit :
    (w : Services) (env : Environment) (rounds : List (List Event)) (socket : List ℕ)
    → w.backend ≡ true
    → (w.pixman || w.autocreate) ≡ true
    → w.add_socket env.runtime_dir ≡ some socket
    → w.start ≡ true
    → main w env rounds ≡ comes_to (shown env socket) (first_exit rounds 0)
unfolding main
main-first_exit w env rounds socket has_backend drawn has_socket starts =
    simp (has_backend, drawn, has_socket, starts)
      (finish-count (shown env socket) (main_loop rounds initial 0)
        ∙ ap (comes_to (shown env socket)) (main_loop-first_exit rounds initial 0 refl))
