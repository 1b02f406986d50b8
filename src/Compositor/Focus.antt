-- ===== src/Compositor/Focus.antt =====
-- What a shortcut does to the view that was mapped last.
use luna_os_arm.Prelude.{
  ℕ, ◌≡◌, refl, inl, inr, Bool, true, false, ◌==◌, Option, none, some, List, [], ◌∷◌, arith,
  Bool-cases,
}
use luna_os_arm.Compositor.{
  View, Server, Action, raised, close_sent, is_focused, view_map, focus_view, handle_keyboard_key,
  shortcuts, key_q,
}

self : (n : ℕ) → (n == n) ≡ true
self n = ground arith

-- The ids of the views that are asked to come to the front.
unfoldable pub raised_ids : List Action → List ℕ
raised_ids [] = []
raised_ids (raised i ∷ out) = i ∷ raised_ids out
raised_ids (_ ∷ out) = raised_ids out

unfoldable pub ids : List View → List ℕ
ids [] = []
ids (v ∷ vs) = v.id ∷ ids vs

abbrev pub front : List ℕ → Option ℕ
front [] = none
front (i ∷ is) = some i

raised_ids-view_map :
    (is_toplevel : ℕ → Bool) (focused : Option ℕ) (has_keyboard : Bool) (view : View)
    (server : Server)
    → is_focused focused view.surface ≡ false
    → raised_ids (view_map is_toplevel focused has_keyboard view server).1 ≡ view.id ∷ []
unfolding view_map focus_view raised_ids
raised_ids-view_map is_toplevel none true view server f = refl
raised_ids-view_map is_toplevel none false view server f = refl
raised_ids-view_map is_toplevel (some prev) true view server f =
    elim (Bool-cases (is_toplevel prev)) [
      | inl top ↦ simp (f, top) refl
      | inr other ↦ simp (f, other) refl
    ]
raised_ids-view_map is_toplevel (some prev) false view server f =
    elim (Bool-cases (is_toplevel prev)) [
      | inl top ↦ simp (f, top) refl
      | inr other ↦ simp (f, other) refl
    ]

-- When a view is mapped whose surface does not have the focus yet, its scene node and no other is
-- raised, and it is first in the list of views; Super+Q then asks that view to close, and no other,
-- and does not reach the client.
pub view_map-handle_keyboard_key :
    (is_toplevel : ℕ → Bool) (focused : Option ℕ) (has_keyboard shift : Bool) (view : View)
    (server : Server)
    → is_focused focused view.surface ≡ false
    → (raised_ids (view_map is_toplevel focused has_keyboard view server).1 ≡ view.id ∷ [])
      × (front (ids (view_map is_toplevel focused has_keyboard view server).0.views) ≡ some view.id)
      × ((handle_keyboard_key true true shift
            (key_q ∷ [])
            (view_map is_toplevel focused has_keyboard view server).0).1
          ≡ close_sent view.id ∷ [])
unfolding view_map focus_view handle_keyboard_key shortcuts ids
view_map-handle_keyboard_key is_toplevel focused has_keyboard shift view server f = (
  raised_ids-view_map is_toplevel focused has_keyboard view server f,
  simp (f, self view.id),
  simp (f, self view.id),
)
