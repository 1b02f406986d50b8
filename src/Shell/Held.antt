-- ===== src/Shell/Held.antt =====
-- What the shell holds of the system while it runs (shell/src/luna-shell-main.c): its
-- descriptor, its mapping and its pool, followed along the calls that it makes.
use luna_os_arm.Prelude.{
  ℕ, Bool, true, false, Option, none, some, List, [], ◌∷◌, ◌++◌, ◌≡◌, refl, ◌==◌, if◌then◌else◌,
  ◌>>=◌, replicate, ◌/◌, inl, inr, ◌∙◌, Bool-cases, Option-cases, arith,
}
use luna_os_arm.Shell.Buffers.{
  Shm, Action, create_shm_file, show_buffer, hand_over, with_file, panel_surface, wallpaper_surface,
}

pub record Held : Type 0 where
  pub fd : Option ℕ
  pub map : Option ℕ
  pub pool : Bool

abbrev pub nothing : Held
nothing = record { fd = none; map = none; pool = false }

abbrev is_none : Option ℕ → Bool
is_none none = true
is_none (some n) = false

abbrev is_some : Option ℕ → ℕ → Bool
is_some none n = false
is_some (some m) n = m == n

-- One call: `none` when it uses what is not held, or loses what is.
unfoldable pub follow : Action → Held → Option Held
follow (Action.opened f) s = if is_none s.fd then some (record s { fd = some f }) else none
follow Action.unlinked s = if is_none s.fd then none else some s
follow (Action.closed f) s = if is_some s.fd f then some (record s { fd = none }) else none
follow (Action.mapped n) s =
    if is_none s.map
    then (if is_none s.fd then none else some (record s { map = some n }))
    else none
follow (Action.unmapped n) s = if is_some s.map n then some (record s { map = none }) else none
follow (Action.pool_created n) s =
    if s.pool then none else (if is_none s.fd then none else some (record s { pool = true }))
follow Action.pool_destroyed s = if s.pool then some (record s { pool = false }) else none
follow (Action.buffer_created w h stride) s = if s.pool then some s else none
follow (Action.committed px) s = if is_none s.map then none else some s
follow (Action.layer_surface l) s = some s
follow Action.anchored s = some s
follow (Action.sized h) s = some s
follow (Action.exclusive_zone z) s = some s
follow (Action.buffer_scale n) s = some s
follow Action.acknowledged s = some s
follow Action.initial_commit s = some s
follow (Action.interactive b) s = some s
follow Action.surface_destroyed s = some s
follow Action.unmapped_failed s = none
follow Action.buffer_destroyed s = some s
follow Action.attached s = some s
follow Action.attached_null s = some s
follow (Action.damaged w h) s = some s

unfoldable pub follow_all : List Action → Held → Option Held
follow_all [] s = some s
follow_all (a ∷ acts) s = follow a s >>= follow_all acts

-- `acts` run to their end and leave nothing held.
abbrev pub Released : List Action → Type 0
Released acts = follow_all acts nothing ≡ some nothing

pub follow_all-++ :
    (xs ys : List Action) (s : Held) → follow_all (xs ++ ys) s ≡ (follow_all xs s >>= follow_all ys)
unfolding follow_all
follow_all-++ [] ys s = refl
follow_all-++ (x ∷ xs) ys s = elim (Option-cases (follow x s)) [
  | inl stuck ↦ simp stuck refl
  | inr (s', on) ↦ simp on (follow_all-++ xs ys s')
]

-- `acts` run to their end, one list after the other.
pub Released-++ : (xs ys : List Action) → Released xs → Released ys → Released (xs ++ ys)
Released-++ xs ys hx hy = follow_all-++ xs ys nothing ∙ simp hx hy

-- The calls that only concern the surface.
abbrev pub IsNeutral : List Action → Type 0
IsNeutral acts = (more : List Action) (s : Held) → follow_all (acts ++ more) s ≡ follow_all more s

pub panel-IsNeutral : IsNeutral panel_surface
unfolding follow_all follow
panel-IsNeutral more s = refl

pub wallpaper-IsNeutral : IsNeutral wallpaper_surface
unfolding follow_all follow
wallpaper-IsNeutral more s = refl

abbrev pub holding : ℕ → Held
holding fd = record { fd = some fd; map = none; pool = false }

-- A descriptor that `show_buffer` gets is closed, with all that it made.
pub show_buffer-released :
    (shm : Shm) (fd size w h stride scale : ℕ) (surface : List Action)
    (paint_px : List ℕ → Option (List ℕ))
    → IsNeutral surface
    → (acts : List Action) → show_buffer shm fd size w h stride scale surface paint_px ≡ some acts
    → follow_all acts (holding fd) ≡ some nothing
unfolding follow_all follow
show_buffer-released shm fd size w h stride scale surface paint_px neutral acts e =
    elim (Bool-cases shm.maps) [
      | inl maps ↦ elim (Option-cases (paint_px (replicate (size / 4) 0))) [
        | inl outside ↦ absurd (ground (arith, e))
        | inr (px, inside) ↦
            let last = hand_over fd size w h stride scale px in
            let same : acts ≡ Action.mapped size ∷ surface ++ last = ground (arith, e) in
            rw same
              (neutral last (record { fd = some fd; map = some size; pool = false }) ∙ ground arith)
      ]
      | inr failed ↦
          (let same : acts ≡ Action.closed fd ∷ [] = ground (arith, e) in rw same (ground arith))
    ]

-- So does every way through `create_shm_file`.
pub with_file-Released :
    (shm : Shm) (show : ℕ → Option (List Action))
    → ((fd : ℕ) (shown : List Action)
        → show fd ≡ some shown
        → follow_all shown (holding fd) ≡ some nothing)
    → (acts : List Action) → with_file (create_shm_file shm) show ≡ some acts
    → Released acts
unfolding create_shm_file follow_all follow
with_file-Released shm show closes acts e = elim (Option-cases shm.shm_fd) [
  | inl refused ↦ (let same : acts ≡ [] = ground (arith, e) in rw same refl)
  | inr (fd, got) ↦ elim (Bool-cases shm.truncates) [
    | inr short ↦
        (let same : acts ≡ Action.opened fd ∷ Action.unlinked ∷ Action.closed fd ∷ [] =
            ground (arith, e) in
          rw same (ground arith))
    | inl ok ↦ elim (Option-cases (show fd)) [
      | inl outside ↦ absurd (ground (arith, e))
      | inr (shown, done) ↦
          (let same : acts ≡ Action.opened fd ∷ Action.unlinked ∷ shown = ground (arith, e) in
            rw same (closes fd shown done))
    ]
  ]
]
