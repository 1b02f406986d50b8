-- ===== src/Compositor/Inputs/Laws.antt =====
-- How many keyboards the compositor of compositor/src/main.c survives.
use luna_os_arm.Prelude.{
  ℕ, ◌+◌, ◌≤◌, ◌≡◌, refl, ◌↔◌, Option, none, some, List, [], ◌∷◌, ◌++◌, ◌>>=◌,
}
use luna_os_arm.Compositor.Inputs.{
  keyboard, pointer, other, Event, added, modifiers_changed, axis_moved, Inputs, Request,
}

abbrev pub keyboards : List Event → ℕ
keyboards [] = 0
keyboards (added has_keyboards (keyboard kb) ∷ es) = 1 + keyboards es
keyboards (added has_keyboards (pointer n) ∷ es) = keyboards es
keyboards (added has_keyboards (other n) ∷ es) = keyboards es
keyboards (modifiers_changed from ∷ es) = keyboards es
keyboards (axis_moved event ∷ es) = keyboards es

-- A chain that only adds requests gives nothing just where its first step gives nothing.
step :
    {A : Type 0} (r : Option (A × List Request)) (out : List Request) (n : ℕ)
    → (r ≡ none) ↔ (2 ≤ n)
    → (◌>>=◌ {B = A × List Request} r (λ x. some (x.0, out ++ x.1)) ≡ none) ↔ (2 ≤ n)
step none out n (to, from) = (to, λ h. refl)
step (some a) out n (to, from) = (λ h. cc, λ h. (let no_run = from h in cc))
