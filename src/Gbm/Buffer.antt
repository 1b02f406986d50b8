-- ===== src/Gbm/Buffer.antt =====
-- Making and destroying one buffer object of darwin-gbm.c, on any device that keeps the contract
-- of the dumb-buffer ioctls.
use luna_os_arm.Prelude.{
  ℕ, false, ◌*◌, ◌<◌, ◌^◌, ◌≡◌, refl, ◌∙◌, ap, ◌≢◌, Option, none, some, arith, ◌==◌, if◌then◌else◌,
}
use native.Mathlib.Decide.{ℕ_discrete}
use luna_os_arm.Pitch.{user_pitch}
use luna_os_arm.Pitch.Laws.{user_pitch-kernel_pitch}
use luna_os_arm.Device.{Device, Lawful, Dumb, asked}
use luna_os_arm.Device.Laws.{create-Made, create_failed}
use luna_os_arm.Gbm.{Bo, fmt_bpp, bo_request, alloc_bo, bo_destroy}

-- The dumb buffer behind a buffer object.
abbrev pub backing : ℕ → ℕ → Dumb
backing w h =
    let pitch = user_pitch w 32 in record { width = w; height = h; pitch = pitch; size = pitch * h }

fmt_bpp-32 : (fmt : ℕ) → fmt_bpp fmt ≡ 32
unfolding fmt_bpp
fmt_bpp-32 fmt = ground arith

asked-backing : (w h fmt : ℕ) → asked (bo_request w h fmt) ≡ backing w h
unfolding bo_request
asked-backing w h fmt = rw (fmt_bpp-32 fmt, user_pitch-kernel_pitch w 32)

module _ (d : Device) {IsValid : d.State → Type 0} {live : d.State → ℕ → Option Dumb}
    (law : Lawful d IsValid live) where
  open d use {State}

  -- What `alloc_bo` has done.
  pub data Allocated (w h : ℕ) (s s' : State) (o : Option Bo) : Type 0 where
    refused : o ≡ none → IsValid s' → ((k : ℕ) → live s' k ≡ live s k) → Allocated w h s s' o
    made :
        (bo : Bo)
        → o ≡ some bo
        → IsValid s'
        → live s bo.gem_handle ≡ none
        → ((k : ℕ) → live s' k ≡ (if k == bo.gem_handle then some (backing w h) else live s k))
        → bo.stride ≡ (backing w h).pitch
        → bo.size ≡ (backing w h).size
        → Allocated w h s s' o

  alloc_bad :
      (w h fmt flags : ℕ) (s : State)
      → IsValid s
      → h < 2 ^ 32
      → (d.create_dumb (bo_request w h fmt) s).0 ≢ 0
      → Allocated w h s (alloc_bo d w h fmt flags s).1 (alloc_bo d w h fmt flags s).0
  unfolding alloc_bo bo_request
  alloc_bad w h fmt flags s v small bad =
      let r = bo_request w h fmt in
      let e : ((d.create_dumb r s).0 == 0) ≡ false = ground arith in
      rw e (refused refl (law.create_valid r s v small) (create_failed d law r s v small bad))

  alloc_good :
      (w h fmt flags : ℕ) (s : State)
      → IsValid s
      → h < 2 ^ 32
      → (d.create_dumb (bo_request w h fmt) s).0 ≡ 0
      → Allocated w h s (alloc_bo d w h fmt flags s).1 (alloc_bo d w h fmt flags s).0
  unfolding alloc_bo bo_request
  alloc_good w h fmt flags s v small good =
      let r = bo_request w h fmt in
      let m = create-Made d law r s v small good in
      let same = asked-backing w h fmt in
      let kept =
        law.map_keeps (record { handle = (d.create_dumb r s).1.handle; offset = 0 })
          (d.create_dumb r s).2 m.valid in
      rw (good, kept)
        (made _ refl m.valid m.free
          (λ k.
            m.others k
            ∙ ap (λ (q : Dumb). if k == (d.create_dumb r s).1.handle then some q else live s k)
                same)
          (m.pitch ∙ ap (λ (q : Dumb). q.pitch) same) (m.size ∙ ap (λ (q : Dumb). q.size) same))

  -- On any device that keeps the contract of the dumb-buffer ioctls, in a valid state:
  -- `alloc_bo` of a height below 2 ^ 32 fails and leaves the live buffers as they were, or makes
  -- a buffer object of the pitch and size asked for, on a handle that was not live.
  pub alloc_bo-Allocated :
      (w h fmt flags : ℕ) (s : State)
      → IsValid s
      → h < 2 ^ 32
      → let (o, s') = alloc_bo d w h fmt flags s in Allocated w h s s' o
  unfolding alloc_bo
  alloc_bo-Allocated w h fmt flags s v small =
      elim (ℕ_discrete (d.create_dumb (bo_request w h fmt) s).0 0) [
        | yes good ↦ alloc_good w h fmt flags s v small good
        | no bad ↦ alloc_bad w h fmt flags s v small bad
      ]

  pub bo_destroy-IsValid : (bo : Bo) (s : State) → IsValid s → IsValid (bo_destroy d bo s).1
  unfolding bo_destroy
  bo_destroy-IsValid bo s v =
      law.close_valid bo.gem_handle (d.destroy_dumb bo.gem_handle s).1
        (law.destroy_valid bo.gem_handle s v)

  -- On any device that keeps the contract of the dumb-buffer ioctls, in a valid state:
  -- `gbm_bo_destroy` ends its handle and, with nobody else at the device between its two ioctls,
  -- no other.
  pub live-bo_destroy :
      (bo : Bo) (s : State) (k : ℕ)
      → IsValid s
      → live (bo_destroy d bo s).1 k ≡ (if k == bo.gem_handle then none else live s k)
  unfolding bo_destroy
  live-bo_destroy bo s k v = ground (
    arith,
    law.close_law bo.gem_handle k (d.destroy_dumb bo.gem_handle s).1
        (law.destroy_valid bo.gem_handle s v),
    law.destroy_law bo.gem_handle k s v,
  )
