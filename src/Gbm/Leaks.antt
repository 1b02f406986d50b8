-- ===== src/Gbm/Leaks.antt =====
-- `gbm_surface_create` and `gbm_surface_destroy` of darwin-gbm.c leak no buffer, on any device that
-- keeps the contract of the dumb-buffer ioctls.
use luna_os_arm.Prelude.{
  ℕ, zero, suc, ◌+◌, ◌<◌, ◌^◌, ◌≡◌, refl, ◌∙◌, ap, ◌⊎◌, inl, inr, Bool, true, false, ◌||◌, Option,
  none, some, List, [], ◌∷◌, ◌++◌, arith, ◌==◌, if◌then◌else◌, length, length-append, Bool-cases,
}
use mathlib.Core.Option
use luna_os_arm.Device.{Device, Lawful, Dumb}
use luna_os_arm.Gbm.{Bo, alloc_bo, bo_destroy}
use luna_os_arm.Gbm.Surface.{
  Surface, new_surface, destroy_all, make_bos, surface_create, surface_destroy,
}
use luna_os_arm.Gbm.Buffer.{
  Allocated, refused, made, backing, alloc_bo-Allocated, bo_destroy-IsValid, live-bo_destroy,
}

-- A handle of one of the buffers.
abbrev pub holds : List Bo → ℕ → Bool
holds [] k = false
holds (bo ∷ bos) k = (k == bo.gem_handle) || holds bos k

-- No two buffers have one handle.
abbrev pub AllDistinct : List Bo → Type 0
AllDistinct [] = Unit {0}
AllDistinct (bo ∷ bos) = (holds bos bo.gem_handle ≡ false) × AllDistinct bos

holds-append :
    (bos : List Bo) (bo : Bo) (k : ℕ)
    → holds (bos ++ (bo ∷ [])) k ≡ (holds bos k || (k == bo.gem_handle))
holds-append [] bo k = ground arith
holds-append (b ∷ bos) bo k = ground (arith, holds-append bos bo k)

AllDistinct-append :
    (bos : List Bo) (bo : Bo)
    → holds bos bo.gem_handle ≡ false
    → AllDistinct bos
    → AllDistinct (bos ++ (bo ∷ []))
AllDistinct-append [] bo new all = (refl, tt)
AllDistinct-append (b ∷ bos) bo new all = (
  ground (arith, holds-append bos bo b.gem_handle),
  AllDistinct-append bos bo (ground arith) all.1,
)

module _ (d : Device) {IsValid : d.State → Type 0} {live : d.State → ℕ → Option Dumb}
    (law : Lawful d IsValid live) where
  open d use {State}

  destroy_all-IsValid : (bos : List Bo) (s : State) → IsValid s → IsValid (destroy_all d bos s)
  unfolding destroy_all
  destroy_all-IsValid [] s v = v
  destroy_all-IsValid (bo ∷ bos) s v =
      destroy_all-IsValid bos (bo_destroy d bo s).1 (bo_destroy-IsValid d law bo s v)

  -- Destroying buffers ends their handles and no others.
  live-destroy_all :
      (bos : List Bo) (s : State) (k : ℕ)
      → IsValid s
      → live (destroy_all d bos s) k ≡ (if holds bos k then none else live s k)
  unfolding destroy_all
  live-destroy_all [] s k v = refl
  live-destroy_all (bo ∷ bos) s k v = ground (
    arith,
    live-destroy_all bos (bo_destroy d bo s).1 k (bo_destroy-IsValid d law bo s v),
    live-bo_destroy d law bo s k v,
  )

  -- The state `s` holds the buffers `bos` beside those of the state `before`.
  pub record Owns (before : State) (w h : ℕ) (bos : List Bo) (s : State) : Type 0 where
    pub valid : IsValid s
    pub distinct : AllDistinct bos
    pub fresh : (k : ℕ) → holds bos k ≡ true → live before k ≡ none
    pub there : (k : ℕ) → live s k ≡ (if holds bos k then some (backing w h) else live before k)

  Owns-none : (before : State) (w h : ℕ) → IsValid before → Owns before w h [] before
  Owns-none before w h v = record { valid = v; distinct = tt; fresh = λ k e. cc; there = λ k. refl }

  Owns-add :
      (before : State) (w h : ℕ) (bos : List Bo) (s s' : State) (bo : Bo)
      → Owns before w h bos s
      → IsValid s'
      → live s bo.gem_handle ≡ none
      → ((k : ℕ) → live s' k ≡ (if k == bo.gem_handle then some (backing w h) else live s k))
      → Owns before w h (bos ++ (bo ∷ [])) s'
  Owns-add before w h bos s s' bo o v free added =
      let new : holds bos bo.gem_handle ≡ false = ground (arith, o.there bo.gem_handle) in
      record {
        valid = v;
        distinct = AllDistinct-append bos bo new o.distinct;
        fresh = λ k e. elim (Bool-cases (holds bos k)) [
          | inl held ↦ o.fresh k held
          | inr other ↦ ground (arith, holds-append bos bo k, o.there k)
        ];
        there = λ k. ground (arith, holds-append bos bo k, added k, o.there k);
      }

  -- Destroying them gives the live buffers of before.
  Owns-undone :
      (before : State) (w h : ℕ) (bos : List Bo) (s : State)
      → Owns before w h bos s
      → (k : ℕ) → live (destroy_all d bos s) k ≡ live before k
  Owns-undone before w h bos s o k = elim (Bool-cases (holds bos k)) [
    | inl held ↦ ground (arith, live-destroy_all bos s k o.valid, o.fresh k held)
    | inr other ↦ ground (arith, live-destroy_all bos s k o.valid, o.there k)
  ]

  -- How the loop of `gbm_surface_create` ends: all buffers made, or none left behind.
  abbrev pub Loop : State → ℕ → ℕ → ℕ → (Option (List Bo) × State) → Type 0
  Loop before w h n out =
      ((out.0 ≡ none) × IsValid out.1 × ((k : ℕ) → live out.1 k ≡ live before k))
      ⊎ ((bos : List Bo) × (out.0 ≡ some bos) × (length bos ≡ n) × Owns before w h bos out.1)

  make_bos-Loop :
      (before : State) (w h fmt flags rounds n : ℕ) (bos : List Bo) (s : State)
      → h < 2 ^ 32
      → rounds + length bos ≡ n
      → Owns before w h bos s
      → Loop before w h n (make_bos d w h fmt flags rounds bos s)
  unfolding make_bos
  make_bos-Loop before w h fmt flags zero n bos s small e o = inr (bos, refl, omega arith, o)
  make_bos-Loop before w h fmt flags (suc rounds) n bos s small e o =
      let out = alloc_bo d w h fmt flags s in
      round out.0 out.1 (alloc_bo-Allocated d law w h fmt flags s o.valid small) (λ bo s'.
        make_bos-Loop before w h fmt flags rounds n (bos ++ (bo ∷ [])) s' small
          (omega (arith, length-append bos (bo ∷ []))))
    where
      round :
          (q : Option Bo) (s' : State)
          → Allocated d law w h s s' q
          → ((bo : Bo) (t : State)
              → Owns before w h (bos ++ (bo ∷ [])) t
              → Loop before w h n (make_bos d w h fmt flags rounds (bos ++ (bo ∷ [])) t))
          → Loop before w h n (elim q [
            | none ↦ (none, destroy_all d bos s')
            | some bo ↦ make_bos d w h fmt flags rounds (bos ++ (bo ∷ [])) s'
          ])
      round q s' (refused e v same) rest =
          let o' : Owns before w h bos s' = record {
            valid = v;
            distinct = o.distinct;
            fresh = o.fresh;
            there = λ k. same k ∙ o.there k;
          } in
          rw e (inl (refl, destroy_all-IsValid bos s' v, Owns-undone before w h bos s' o'))
      round q s' (made bo e v free added p z) rest =
          rw e (rest bo s' (Owns-add before w h bos s s' bo o v free added))

  -- On any device that keeps the contract of the dumb-buffer ioctls, in a valid state:
  -- `gbm_surface_create` of a height below 2 ^ 32 either gives NULL and leaves the live buffers
  -- as they were, also when only the second allocation fails, or gives an unlocked surface of
  -- two buffers on two different handles that were not live, and leaves every other handle as it
  -- was.
  pub surface_create_lem :
      (w h fmt flags : ℕ) (s : State)
      → IsValid s
      → h < 2 ^ 32
      → let (o, s') = surface_create d w h fmt flags s in
        ((o ≡ none) × IsValid s' × ((k : ℕ) → live s' k ≡ live s k))
        ⊎ ((surf : Surface) × (o ≡ some surf)
            × (length surf.bos ≡ 2)
            × (surf.locked ≡ false)
            × Owns s w h surf.bos s')
  unfolding surface_create
  surface_create_lem w h fmt flags s v small =
      elim (make_bos-Loop s w h fmt flags 2 2 [] s small (omega arith) (Owns-none s w h v)) [
        | inl (e, v', same) ↦ inl (ap (Option.map (new_surface w h fmt flags)) e, v', same)
        | inr (bos, e, two, o) ↦
            inr (_, ap (Option.map (new_surface w h fmt flags)) e, two, refl, o)
      ]

  -- On any device that keeps the contract of the dumb-buffer ioctls, in a valid state: a surface
  -- of a height below 2 ^ 32 that `gbm_surface_create` made and `gbm_surface_destroy` ended
  -- leaves the live buffers as they were before it was made.
  pub surface_create_destroy :
      (w h fmt flags : ℕ) (s : State) (surf : Surface)
      → IsValid s
      → h < 2 ^ 32
      → (surface_create d w h fmt flags s).0 ≡ some surf
      → (k : ℕ) → live (surface_destroy d surf (surface_create d w h fmt flags s).1) k ≡ live s k
  unfolding surface_destroy
  surface_create_destroy w h fmt flags s surf v small got k =
      elim (surface_create_lem w h fmt flags s v small) [
        | inl (e, v', same) ↦ cc
        | inr (surf', e, two, free, o) ↦
            let same : surf'.bos ≡ surf.bos =
              let q : surf' ≡ surf = cc in ap (λ (t : Surface). t.bos) q in
            rw (← same) (Owns-undone s w h surf'.bos _ o k)
      ]
