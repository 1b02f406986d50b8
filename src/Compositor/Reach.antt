-- ===== src/Compositor/Reach.antt =====
-- The events of the compositor (compositor/src/main.c) as steps, and what holds of its views after
-- any of them.
use luna_os_arm.Prelude.{
  ℕ, ◌≡◌, refl, ap, sym, ◌∙◌, subst, inl, inr, Bool, true, false, Option, none, some, List, [], ◌∷◌,
  Bool-cases, bind-some, ◌==◌, ==_iff,
}
use luna_os_arm.Compositor.{
  Action, View, Server, Symbol, new_toplevel, focus_view, is_focused, view_map, view_unmap,
  view_destroy, handle_keyboard_key, shortcuts, shortcut, close_front,
}
use luna_os_arm.Compositor.Scene.{Node, Hit, view_at, click, handle_cursor_button}
use luna_os_arm.Compositor.Click.{view_at-node_data}
use luna_os_arm.Compositor.Views.{
  has, find, IsSound, more, Keeps, has-without_self, without-IsSound, change-IsSound,
  without-change, change-change, find-IsSound,
}

-- One event, in the order in which wlroots raises them: a surface is new, mapped when it is not,
-- unmapped when it is, and destroyed when it is not mapped; a click, on a scene whose views are
-- those of the list, and a key come at any time.
pub data Step : Server → Server → Type 0 where
  created :
      {s : Server} (id surface : ℕ) → has id s.views ≡ false → Step s (new_toplevel id surface s)
  mapped :
      {s : Server} (id : ℕ) (v : View) (is_toplevel : ℕ → Bool) (focused : Option ℕ)
      (keyboard : Bool)
      → find id s.views ≡ some v
      → v.mapped ≡ false
      → Step s (view_map is_toplevel focused keyboard v s).0
  unmapped :
      {s : Server} (id : ℕ) (v : View)
      → find id s.views ≡ some v
      → v.mapped ≡ true
      → Step s (view_unmap v s).0
  destroyed :
      {s : Server} (id : ℕ) (v : View)
      → find id s.views ≡ some v
      → v.mapped ≡ false
      → Step s (view_destroy v s)
  clicked :
      {s : Server} (scene : ℕ → Node) (fuel : ℕ) (hit : Option Hit) (is_toplevel : ℕ → Bool)
      (focused : Option ℕ) (keyboard pressed : Bool) (r : Server × List Action)
      → ((n : ℕ) (v : View) → (scene n).node_data ≡ some v → find v.id s.views ≡ some v)
      → handle_cursor_button scene fuel hit is_toplevel focused keyboard pressed s ≡ some r
      → Step s r.0
  key :
      {s : Server} (pressed super shift : Bool) (syms : List Symbol)
      → Step s (handle_keyboard_key pressed super shift syms s).0

-- Any number of events.
pub data Steps : Server → Server → Type 0 where
  done : {s : Server} → Steps s s
  step : {s t u : Server} → Step s t → Steps t u → Steps s u

focused-IsSound :
    (is_toplevel : ℕ → Bool) (focused : Option ℕ) (keyboard : Bool) (v : View) (surface : ℕ)
    (s : Server)
    → v.listed ≡ v.mapped
    → IsSound s.views
    → IsSound (focus_view is_toplevel focused keyboard v surface s).0.views
unfolding focus_view
focused-IsSound is_toplevel focused keyboard v surface s good sound =
    elim (Bool-cases (is_focused focused surface)) [
      | inl already ↦ simp already sound
      | inr other ↦
          simp other
            (more good (has-without_self v.id s.views sound) (without-IsSound v.id s.views sound))
    ]

same_id : (n : ℕ) → (n == n) ≡ true
same_id n = (==_iff n n).1 refl

-- The view that `view_map` leaves: mapped, with a handle.
abbrev shown : View → View
shown v = record v { mapped = true; listed = true }

mapped-IsSound :
    (is_toplevel : ℕ → Bool) (focused : Option ℕ) (keyboard : Bool) (v : View) (s : Server)
    → IsSound s.views
    → IsSound (view_map is_toplevel focused keyboard v s).0.views
unfolding view_map focus_view
mapped-IsSound is_toplevel focused keyboard v s sound =
    let keeps : Keeps v.id (λ u. record v { mapped = true }) = λ u e. refl in
    elim (Bool-cases (is_focused focused v.surface)) [
      | inl already ↦ simp already (
          subst IsSound
            (sym (
              change-change v.id (λ u. record v { mapped = true }) (λ u. record u { listed = true })
                s.views keeps))
            (change-IsSound v.id (λ u. shown v) s.views (λ u e. refl) (λ u. refl) sound))
      | inr other ↦
          simp (other, same_id v.id)
            (subst (λ (vs : List View). IsSound (shown v ∷ vs))
              (sym (without-change v.id (λ u. record v { mapped = true }) s.views keeps))
              (more refl (has-without_self v.id s.views sound)
                (without-IsSound v.id s.views sound)))
    ]

front_views :
    (vs : List View) (s : Server) (handled : Bool) → (close_front vs s handled).0.views ≡ s.views
front_views [] s handled = refl
front_views (v ∷ vs) s handled = refl

shortcut_views :
    (sym : Symbol) (shift : Bool) (s : Server) (handled : Bool)
    → (shortcut sym shift s handled).0.views ≡ s.views
shortcut_views Symbol.key_q shift s handled = front_views s.views s handled
shortcut_views Symbol.key_t shift s handled = refl
shortcut_views Symbol.key_shift_e true s handled = refl
shortcut_views Symbol.key_shift_e false s handled = refl
shortcut_views (Symbol.other n) shift s handled = refl

shortcuts_views :
    (syms : List Symbol) (shift : Bool) (s : Server) (handled : Bool)
    → (shortcuts syms shift s handled).0.views ≡ s.views
unfolding shortcuts
shortcuts_views [] shift s handled = refl
shortcuts_views (sym ∷ syms) shift s handled =
    shortcuts_views syms shift (shortcut sym shift s handled).0 (shortcut sym shift s handled).1
    ∙ shortcut_views sym shift s handled

key_views :
    (pressed super shift : Bool) (syms : List Symbol) (s : Server)
    → (handle_keyboard_key pressed super shift syms s).0.views ≡ s.views
unfolding handle_keyboard_key
key_views true true shift syms s = shortcuts_views syms shift s false
key_views true false shift syms s = refl
key_views false super shift syms s = refl

click-IsSound :
    (is_toplevel : ℕ → Bool) (focused : Option ℕ) (keyboard : Bool) (s : Server)
    (there : Option View × Option ℕ)
    → ((v : View) → there.0 ≡ some v → v.listed ≡ v.mapped)
    → IsSound s.views
    → IsSound (click is_toplevel focused keyboard s there).0.views
click-IsSound is_toplevel focused keyboard s (some v, some surface) good sound =
    focused-IsSound is_toplevel focused keyboard v surface s (good v refl) sound
click-IsSound is_toplevel focused keyboard s (some v, none) good sound = sound
click-IsSound is_toplevel focused keyboard s (none, surface) good sound = sound

button-IsSound :
    (scene : ℕ → Node) (fuel : ℕ) (hit : Option Hit) (is_toplevel : ℕ → Bool) (focused : Option ℕ)
    (keyboard pressed : Bool) (s : Server) (r : Server × List Action)
    → ((n : ℕ) (v : View) → (scene n).node_data ≡ some v → find v.id s.views ≡ some v)
    → handle_cursor_button scene fuel hit is_toplevel focused keyboard pressed s ≡ some r
    → IsSound s.views
    → IsSound r.0.views
unfolding handle_cursor_button
button-IsSound scene fuel hit is_toplevel focused keyboard pressed s r known e sound =
    let (there, w, e') = bind-some (view_at scene fuel hit) e in
    let good : (v : View) → there.0 ≡ some v → v.listed ≡ v.mapped = λ v is.
      let here : view_at scene fuel hit ≡ some (some v, there.1) =
        w ∙ ap (λ (x : Option View). some (x, there.1)) is in
      let (n, has) = view_at-node_data scene fuel hit v there.1 here in
      find-IsSound v.id s.views v sound (known n v has) in
    elim (Bool-cases pressed) [
      | inl yes_pressed ↦
          (let same : click is_toplevel focused keyboard s there ≡ r =
              cc (simp yes_pressed at e') in
            subst (λ (x : Server × List Action). IsSound x.0.views) same
              (click-IsSound is_toplevel focused keyboard s there good sound))
      | inr up ↦
          (let same : (s, []) ≡ r = cc (simp up at e') in
            subst (λ (x : Server × List Action). IsSound x.0.views) same sound)
    ]

step-IsSound : {s t : Server} → Step s t → IsSound s.views → IsSound t.views
unfolding new_toplevel view_unmap view_destroy
step-IsSound (created id surface fresh) sound = more refl fresh sound
step-IsSound {s = s} (mapped id v is_toplevel focused keyboard at not_yet) sound =
    mapped-IsSound is_toplevel focused keyboard v s sound
step-IsSound {s = s} (unmapped id v at is_mapped) sound =
    change-IsSound v.id (λ u. record u { mapped = false; listed = false }) s.views (λ u e. e)
      (λ u. refl) sound
step-IsSound {s = s} (destroyed id v at off) sound = without-IsSound v.id s.views sound
step-IsSound {s = s} (clicked scene fuel hit is_toplevel focused keyboard pressed r known e) sound =
    button-IsSound scene fuel hit is_toplevel focused keyboard pressed s r known e sound
step-IsSound {s = s} (key pressed super shift syms) sound =
    subst IsSound (sym (key_views pressed super shift syms s)) sound

-- Whatever events come in the order that `Step` allows, from views that are sound: the
-- identities of the views stay distinct, and a view has a toplevel handle exactly if it is
-- mapped.
pub steps-IsSound : {s t : Server} → Steps s t → IsSound s.views → IsSound t.views
steps-IsSound done sound = sound
steps-IsSound (step event events) sound = steps-IsSound events (step-IsSound event sound)
