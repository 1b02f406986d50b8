-- ===== src/Device/Laws.antt =====
-- What follows from the contract of the dumb-buffer ioctls.
use luna_os_arm.Prelude.{
  Option, ℕ, ◌<◌, ◌^◌, ◌≡◌, ◌≢◌, inl, inr, none, some, arith, ◌==◌, if◌then◌else◌,
}
use native.Mathlib.Decide.{ℕ_discrete}
use luna_os_arm.Drm.{CreateDumb}
use luna_os_arm.Device.{Device, Lawful, Dumb, asked}

module _ (d : Device) {IsValid : d.State → Type 0} {live : d.State → ℕ → Option Dumb}
    (law : Lawful d IsValid live) where
  open d use {State}

  -- What a creation that returned 0 has done.
  pub record Made (r : CreateDumb) (s : State) : Type 0 where
    pub valid : IsValid (d.create_dumb r s).2
    pub pitch : (d.create_dumb r s).1.pitch ≡ (asked r).pitch
    pub size : (d.create_dumb r s).1.size ≡ (asked r).size
    pub free : live s (d.create_dumb r s).1.handle ≡ none
    pub others :
        (h : ℕ)
        → live (d.create_dumb r s).2 h
          ≡ (if h == (d.create_dumb r s).1.handle then some (asked r) else live s h)

  pub create-Made :
      (r : CreateDumb) (s : State)
      → IsValid s
      → r.height < 2 ^ 32
      → (d.create_dumb r s).0 ≡ 0
      → Made r s
  create-Made r s v small ok = elim (law.create_law r s v small) [
    | inl (bad, same) ↦ absurd (bad ok)
    | inr (e, p, z, free, others) ↦ record {
      valid = law.create_valid r s v small;
      pitch = p;
      size = z;
      free = free;
      others = others;
    }
  ]

  pub create_failed :
      (r : CreateDumb) (s : State)
      → IsValid s
      → r.height < 2 ^ 32
      → (d.create_dumb r s).0 ≢ 0
      → (h : ℕ) → live (d.create_dumb r s).2 h ≡ live s h
  create_failed r s v small bad = elim (law.create_law r s v small) [
    | inl (e, same) ↦ same
    | inr (e, p, z, free, others) ↦ absurd (bad e)
  ]

  -- Any later state that differs from the one after the creation only in that the handle has
  -- ended has the live buffers of the state before.
  pub Made-undone :
      (r : CreateDumb) (s t : State)
      → Made r s
      → ((k : ℕ)
          → live t k
            ≡ (if k == (d.create_dumb r s).1.handle then none else live (d.create_dumb r s).2 k))
      → (k : ℕ) → live t k ≡ live s k
  Made-undone r s t m undone k = elim (ℕ_discrete k (d.create_dumb r s).1.handle) [
    | yes it ↦ rw (undone k, it) (ground (arith, m.free))
    | no other_handle ↦ ground (arith, undone k, m.others k)
  ]
