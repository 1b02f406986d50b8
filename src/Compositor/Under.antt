-- ===== src/Compositor/Under.antt =====
-- The view under the pointer: the search ends, and finds the nearest ancestor that has one.
use luna_os_arm.Prelude.{
  ℕ, zero, suc, ◌+◌, ◌<◌, ◌≡◌, ◌↔◌, refl, ◌∙◌, subst, inl, inr, Option, none, some, [], ◌∷◌,
  Option-cases, arith,
}
use luna_os_arm.Compositor.{View}
use luna_os_arm.Compositor.Scene.{Node, Hit, Pointer, walk, view_at, handle_cursor_motion}

-- `v` is what the nearest of node `n` and its ancestors with a view has.
pub data IsNearest (scene : ℕ → Node) : ℕ → View → Type 0 where
  here : {n : ℕ} {v : View} → (scene n).node_data ≡ some v → IsNearest scene n v
  above :
      {n m : ℕ} {v : View}
      → (scene n).node_data ≡ none
      → (scene n).parent ≡ some m
      → IsNearest scene m v
      → IsNearest scene n v

-- The scene is a tree: a parent has less depth.
abbrev pub IsTree : (ℕ → Node) → (ℕ → ℕ) → Type 0
IsTree scene depth = (n m : ℕ) → (scene n).parent ≡ some m → depth m < depth n

-- What the search from a node finds.
abbrev Finds : (ℕ → Node) → ℕ → Option (Option View) → Type 0
Finds scene n r =
    (view : Option View) × (r ≡ some view) × ((v : View) → (view ≡ some v) ↔ IsNearest scene n v)

not_at_top :
    {scene : ℕ → Node} {n : ℕ} {v : View}
    → (scene n).node_data ≡ none
    → (scene n).parent ≡ none
    → IsNearest scene n v
    → ⊥
not_at_top no_data no_parent (here has) = cc
not_at_top no_data no_parent (above blank up nearest) = cc

only_above :
    {scene : ℕ → Node} {n m : ℕ} {v : View}
    → (scene n).node_data ≡ none
    → (scene n).parent ≡ some m
    → IsNearest scene n v
    → IsNearest scene m v
only_above no_data up (here has) = cc
only_above {scene = scene} {v = v} no_data up (above {m = k} blank up' nearest) =
    (let same : k ≡ _ = cc in subst (λ (j : ℕ). IsNearest scene j v) same nearest)

only_here :
    {scene : ℕ → Node} {n : ℕ} {u v : View}
    → (scene n).node_data ≡ some u
    → IsNearest scene n v
    → some u ≡ some v
only_here has (here has') = cc
only_here has (above blank up nearest) = cc

at_top :
    (scene : ℕ → Node) (fuel n k : ℕ)
    → k + 1 < suc fuel
    → (scene n).node_data ≡ none
    → (scene n).parent ≡ none
    → Finds scene n (walk scene fuel none)
unfolding walk
at_top scene zero n k enough blank top = absurd (omega arith)
at_top scene (suc fuel) n k enough blank top =
    (none, refl, λ v. (λ e. cc, λ near. absurd (not_at_top blank top near)))

walk-Finds :
    (scene : ℕ → Node) (depth : ℕ → ℕ) (fuel n : ℕ)
    → IsTree scene depth
    → depth n + 1 < fuel
    → Finds scene n (walk scene fuel (some n))
unfolding walk
walk-Finds scene depth zero n tree enough = absurd (omega arith)
walk-Finds scene depth (suc fuel) n tree enough = elim (Option-cases (scene n).node_data) [
  | inr (u, has) ↦ simp has (some u, refl, λ v. (λ e. here (has ∙ e), only_here has))
  | inl blank ↦ elim (Option-cases (scene n).parent) [
    | inl top ↦ simp (blank, top) (at_top scene fuel n (depth n) enough blank top)
    | inr (m, up) ↦
        let (view, ends, is) = walk-Finds scene depth fuel m tree (omega (arith, tree n m up)) in
        simp (blank, up)
          (
            view,
            ends,
            λ v. (λ e. above blank up ((is v).0 e), λ near. (is v).1 (only_above blank up near)),
          )
  ]
]

-- On every scene that is a tree, for a buffer of a surface whose node has a parent, `view_at`
-- ends with more fuel than the node is deep: it gives the surface that is hit, and the view of
-- the nearest ancestor that has one.
pub view_at-IsNearest :
    (scene : ℕ → Node) (depth : ℕ → ℕ) (fuel n m surface : ℕ)
    → IsTree scene depth
    → (scene n).parent ≡ some m
    → depth n < fuel
    → (view : Option View) × (view_at scene fuel
          (some (record { node = n; surface = some surface }))
        ≡ some (view, some surface))
      × ((v : View) → (view ≡ some v) ↔ IsNearest scene m v)
unfolding view_at
view_at-IsNearest scene depth fuel n m surface tree up enough =
    let (view, ends, is) = walk-Finds scene depth fuel m tree (omega (arith, tree n m up)) in
    (view, simp (up, ends) refl, is)

no_nearest :
    {scene : ℕ → Node} {n : ℕ} {v : View}
    → ((k : ℕ) → (scene k).node_data ≡ none)
    → IsNearest scene n v
    → ⊥
no_nearest {n = n} blank (here has) = let free = blank n in cc
no_nearest blank (above empty up nearest) = no_nearest blank nearest

walk-blank :
    (scene : ℕ → Node) (depth : ℕ → ℕ) (fuel n : ℕ)
    → IsTree scene depth
    → ((k : ℕ) → (scene k).node_data ≡ none)
    → depth n < fuel
    → walk scene fuel (scene n).parent ≡ some none
unfolding walk
walk-blank scene depth zero n tree blank enough = absurd (omega arith)
walk-blank scene depth (suc fuel) n tree blank enough = elim (Option-cases (scene n).parent) [
  | inl top ↦ simp top refl
  | inr (m, up) ↦
      simp (up, blank m) (walk-blank scene depth fuel m tree blank (omega (arith, tree n m up)))
]

-- On a scene that is a tree and in which no node has `data`, with more fuel than the node that
-- is hit is deep: wherever the pointer moves, no client is entered, the default image is shown
-- and the pointer focus is cleared.
pub handle_cursor_motion-blank :
    (scene : ℕ → Node) (depth : ℕ → ℕ) (fuel : ℕ) (hit : Hit)
    → IsTree scene depth
    → ((k : ℕ) → (scene k).node_data ≡ none)
    → depth hit.node < fuel
    → handle_cursor_motion scene fuel (some hit)
      ≡ some (Pointer.default_image ∷ Pointer.focus_cleared ∷ [])
unfolding handle_cursor_motion view_at
handle_cursor_motion-blank scene depth fuel hit tree blank enough =
    elim (Option-cases hit.surface) [
      | inl none_there ↦ simp none_there refl
      | inr (surface, is) ↦ simp (is, walk-blank scene depth fuel hit.node tree blank enough) refl
    ]
