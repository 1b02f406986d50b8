-- ===== src/Gbm/Surface.antt =====
-- The double-buffered surfaces of darwin-gbm.c.
use luna_os_arm.Prelude.{
  ℕ, zero, suc, ◌+◌, ◌-◌, ℤ, pos, negsuc, Bool, true, false, not, Option, none, some, List, [], ◌∷◌,
  ◌++◌, ◌==◌, if◌then◌else◌, get_elem?,
}
use mathlib.Core.Option
use luna_os_arm.Device.{Device}
use luna_os_arm.Gbm.{Bo, alloc_bo, bo_destroy, use_rendering, use_scanout}

-- `struct gbm_surface`; `front` is -1 before the first lock.
pub record Surface : Type 0 where
  pub width : ℕ
  pub height : ℕ
  pub format : ℕ
  pub flags : ℕ
  pub bos : List Bo
  pub nbo : ℕ
  pub front : ℤ
  pub locked : Bool

-- The index that `gbm_surface_lock_front_buffer` takes; `front` is -1, 0 or 1.
unfoldable pub back_index : ℤ → ℕ
back_index (pos n) = 1 - n
back_index (negsuc n) = if n == 0 then 0 else n + 2

-- `gbm_surface_lock_front_buffer`
unfoldable pub lock_front_buffer : Surface → Option Bo × Surface
lock_front_buffer surf =
    let back = back_index surf.front in
    (get_elem? surf.bos back, record surf { front = pos back; locked = true })

-- `gbm_surface_release_buffer`
unfoldable pub release_buffer : Surface → Surface
release_buffer surf = record surf { locked = false }

-- `gbm_surface_has_free_buffers`
unfoldable pub has_free_buffers : Surface → Bool
has_free_buffers surf = not surf.locked

-- The fields that `gbm_surface_create` sets; `nbo` counts the two rounds.
abbrev pub new_surface : ℕ → ℕ → ℕ → ℕ → List Bo → Surface
new_surface w h fmt flags bos = record {
  width = w;
  height = h;
  format = fmt;
  flags = flags;
  bos = bos;
  nbo = 2;
  front = negsuc 0;
  locked = false;
}

module _ (d : Device) where
  open d use {State}

  -- `for (j = 0; j < i; j++) gbm_bo_destroy(s->bos[j])`
  unfoldable pub destroy_all : List Bo → State → State
  destroy_all [] s = s
  destroy_all (bo ∷ bos) s = destroy_all bos (bo_destroy d bo s).1

  -- The allocation loop of `gbm_surface_create` with `rounds` rounds left; a failure destroys the
  -- buffers made so far.
  unfoldable pub make_bos :
      ℕ → ℕ → ℕ → ℕ → (rounds : ℕ) → List Bo → State → Option (List Bo) × State
  make_bos w h fmt flags zero made s = (some made, s)
  make_bos w h fmt flags (suc rounds) made s =
      let (o, s') = alloc_bo d w h fmt flags s in
      elim o [
        | none ↦ (none, destroy_all made s')
        | some bo ↦ make_bos w h fmt flags rounds (made ++ (bo ∷ [])) s'
      ]

  -- `gbm_surface_create`
  unfoldable pub surface_create : ℕ → ℕ → ℕ → ℕ → State → Option Surface × State
  surface_create w h fmt flags s =
      let (o, s') = make_bos w h fmt flags 2 [] s in (Option.map (new_surface w h fmt flags) o, s')

  -- `gbm_surface_create_with_modifiers`
  abbrev pub surface_create_with_modifiers : ℕ → ℕ → ℕ → List ℕ → State → Option Surface × State
  surface_create_with_modifiers w h fmt modifiers s =
      surface_create w h fmt (use_rendering + use_scanout) s

  -- `gbm_surface_destroy`
  unfoldable pub surface_destroy : Surface → State → State
  surface_destroy surf s = destroy_all surf.bos s
