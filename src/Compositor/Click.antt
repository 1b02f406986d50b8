-- ===== src/Compositor/Click.antt =====
-- A click of compositor/src/main.c only raises views that the scene has.
use luna_os_arm.Prelude.{
  ℕ, zero, suc, ◌≡◌, refl, ◌∙◌, subst, inl, inr, Option, none, some, bind-some, Option-cases,
}
use luna_os_arm.Compositor.{View}
use luna_os_arm.Compositor.Scene.{Node, Hit, walk, found, view_at}

-- A view that the search finds is the data of a node.
walk-node_data :
    (scene : ℕ → Node) (fuel : ℕ) (at : Option ℕ) (v : View)
    → walk scene fuel at ≡ some (some v)
    → (n : ℕ) × ((scene n).node_data ≡ some v)
unfolding walk
walk-node_data scene zero at v e = cc
walk-node_data scene (suc fuel) none v e = cc
walk-node_data scene (suc fuel) (some n) v e = elim (Option-cases (scene n).node_data) [
  | inr (u, has) ↦
      (let same : some (some u) ≡ some (some v) = simp has at e in
        let eq : u ≡ v = cc in (n, subst (λ (x : View). (scene n).node_data ≡ some x) eq has))
  | inl blank ↦ walk-node_data scene fuel (scene n).parent v (simp blank at e)
]

pub view_at-node_data :
    (scene : ℕ → Node) (fuel : ℕ) (hit : Option Hit) (v : View) (surface : Option ℕ)
    → view_at scene fuel hit ≡ some (some v, surface)
    → (n : ℕ) × ((scene n).node_data ≡ some v)
unfolding view_at
view_at-node_data scene fuel none v surface e = cc
view_at-node_data scene fuel (some hit) v surface e = elim (Option-cases hit.surface) [
  | inl nothing ↦
      (let no_view : some (none, none) ≡ some (some v, surface) = simp nothing at e in cc)
  | inr (there, is) ↦
      let e' : found scene fuel hit.node (some there) ≡ some (some v, surface) = simp is at e in
      let (view, w, e'') = bind-some (walk scene fuel (scene hit.node).parent) e' in
      let same : view ≡ some v = cc in
      walk-node_data scene fuel (scene hit.node).parent v (w ∙ rw same refl)
]
