-- ===== src/Compositor/Tests.antt =====
-- Two windows, of which the second is mapped.
use luna_os_arm.Prelude.{
  List, ℕ, zero, suc, ◌≡◌, ◌<◌, subst, Option, none, ◌↔◌, arith, refl, true, false, some, [], ◌∷◌,
}
use luna_os_arm.Compositor.{Action, View, Server, close_sent, view_map, handle_keyboard_key, key_q}
use luna_os_arm.Compositor.{new_toplevel, view_unmap, view_destroy}
use luna_os_arm.Compositor.Scene.{Node, view_at}
use luna_os_arm.Compositor.Under.{IsTree, IsNearest, view_at-IsNearest}
use luna_os_arm.Compositor.Views.{IsSound, empty}
use luna_os_arm.Compositor.Reach.{
  Steps, done, step, created, mapped, unmapped, destroyed, steps-IsSound,
}
use luna_os_arm.Compositor.Focus.{raised_ids, front, ids, view_map-handle_keyboard_key}

abbrev first : View
first = record { id = 1; surface = 10; mapped = true; listed = true }

abbrev second : View
second = record { id = 2; surface = 20; mapped = false; listed = false }

abbrev server : Server
server = record { views = first ∷ second ∷ []; running = true }

abbrev shown : Server × List Action
shown = view_map (λ s. true) (some 10) true second server

view_map-handle_keyboard_key_example :
    (raised_ids shown.1 ≡ 2 ∷ [])
    × (front (ids shown.0.views) ≡ some 2)
    × ((handle_keyboard_key true true false (key_q ∷ []) shown.0).1 ≡ close_sent 2 ∷ [])
view_map-handle_keyboard_key_example =
    view_map-handle_keyboard_key (λ s. true) (some 10) true false second server refl

-- A buffer in the tree of a view, which is in the tree of the scene.
abbrev in_tree : ℕ → Node
in_tree zero = record { parent = none; node_data = none }
in_tree (suc zero) = record { parent = some 0; node_data = some first }
in_tree (suc (suc n)) = record { parent = some 1; node_data = none }

abbrev no_data : ℕ → Node
no_data zero = record { parent = none; node_data = none }
no_data (suc n) = record { parent = some 0; node_data = none }

abbrev depth : ℕ → ℕ
depth zero = 0
depth (suc zero) = 1
depth (suc (suc n)) = 2

in_tree-IsTree : IsTree in_tree depth
in_tree-IsTree zero m e = cc
in_tree-IsTree (suc zero) m e =
    (let same : zero ≡ m = cc in subst (λ (k : ℕ). depth k < 1) same (omega arith))
in_tree-IsTree (suc (suc n)) m e =
    (let same : suc zero ≡ m = cc in subst (λ (k : ℕ). depth k < 2) same (omega arith))

abbrev slope : ℕ → ℕ
slope zero = 0
slope (suc n) = 1

no_data-IsTree : IsTree no_data slope
no_data-IsTree zero m e = cc
no_data-IsTree (suc n) m e =
    (let same : zero ≡ m = cc in subst (λ (k : ℕ). slope k < 1) same (omega arith))

no_data-blank : (k : ℕ) → (no_data k).node_data ≡ none
no_data-blank zero = refl
no_data-blank (suc n) = refl

view_at-IsNearest_example :
    (view : Option View) × (view_at in_tree 3 (some (record { node = 2; surface = some 10 }))
      ≡ some (view, some 10))
    × ((v : View) → (view ≡ some v) ↔ IsNearest in_tree 1 v)
view_at-IsNearest_example =
    view_at-IsNearest in_tree depth 3 2 1 10 in_tree-IsTree refl (omega arith)

abbrev nobody : Server
nobody = record { views = []; running = true }

abbrev born : Server
born = new_toplevel 1 10 nobody

abbrev seen : Server
seen = (view_map (λ s. true) none true (record first { mapped = false; listed = false }) born).0

events :
    Steps nobody
      (view_destroy (record first { mapped = false; listed = false }) (view_unmap first seen).0)
unfolding new_toplevel view_map luna_os_arm.Compositor.focus_view view_unmap
events = step (created 1 10 refl) (
    step
      (mapped 1 (record first { mapped = false; listed = false }) (λ s. true) none true refl refl)
      (step (unmapped 1 first refl refl)
        (step (destroyed 1 (record first { mapped = false; listed = false }) refl refl) done)))

steps-IsSound_example :
    IsSound
      (view_destroy
        (record first { mapped = false; listed = false })
        (view_unmap first seen).0).views
steps-IsSound_example = steps-IsSound events empty
