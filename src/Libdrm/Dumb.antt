-- ===== src/Libdrm/Dumb.antt =====
-- The dumb-buffer wrappers of libdrm-darwin.c on any device that keeps the ioctls' contract.
use luna_os_arm.Prelude.{
  Option, ℕ, ◌*◌, ◌<◌, ◌^◌, ◌≡◌, ◌∙◌, ◌≢◌, ap, ◌⊎◌, inl, inr, none, some, arith, ◌==◌,
  if◌then◌else◌,
}
use luna_os_arm.Pitch.{user_pitch}
use luna_os_arm.Pitch.Laws.{user_pitch-kernel_pitch}
use luna_os_arm.Device.{Device, Lawful, Dumb, asked, bpp_or_32}
use luna_os_arm.Device.Laws.{create-Made, Made-undone}
use luna_os_arm.Libdrm.{
  ok, failed, reply, NewDumb, dumb_request, create_dumb_buffer, destroy_dumb_buffer,
}

-- The buffer that a caller of `drmModeCreateDumbBuffer` asks for.
abbrev pub wanted : ℕ → ℕ → ℕ → Dumb
wanted width height bpp =
    let pitch = user_pitch width (bpp_or_32 bpp) in
    record { width = width; height = height; pitch = pitch; size = pitch * height }

reply-eq-ok {ℓ} : {A : Type ℓ} (e : ℕ) (a : A) {b : A} → reply e a ≡ ok b → (e ≡ 0) × (a ≡ b)
reply-eq-ok e a h = ground arith

bpp_or_32_idem : (bpp : ℕ) → bpp_or_32 (bpp_or_32 bpp) ≡ bpp_or_32 bpp
bpp_or_32_idem bpp = ground arith

reply-ok {ℓ} : {A : Type ℓ} (e : ℕ) (a : A) → e ≡ 0 → reply e a ≡ ok a
reply-ok e a h = rw h

reply-failed {ℓ} : {A : Type ℓ} (e : ℕ) (a : A) → e ≢ 0 → reply e a ≡ failed e
reply-failed e a h = ground arith

-- The structure that the library sends asks for what the caller wants.
asked-wanted :
    (width height bpp flags : ℕ)
    → asked (dumb_request width height bpp flags) ≡ wanted width height bpp
unfolding dumb_request
asked-wanted width height bpp flags =
    rw (bpp_or_32_idem bpp, user_pitch-kernel_pitch width (bpp_or_32 bpp))

module _ (d : Device) {IsValid : d.State → Type 0} {live : d.State → ℕ → Option Dumb}
    (law : Lawful d IsValid live) where
  open d use {State}

  -- On any device that keeps the contract of the dumb-buffer ioctls, in a valid state:
  -- `drmModeCreateDumbBuffer` of a height below 2 ^ 32 either fails and leaves the live buffers
  -- as they were, or gives a handle that was not live, for a buffer of the pitch that the
  -- library computed and of `height` rows, and leaves every other handle as it was.
  pub create_dumb_buffer_lem :
      (width height bpp flags : ℕ) (s : State)
      → IsValid s
      → height < 2 ^ 32
      → let (r, s') = create_dumb_buffer d width height bpp flags s in
        ((e : ℕ) × (r ≡ failed e) × (e ≢ 0) × ((h : ℕ) → live s' h ≡ live s h))
        ⊎ ((b : NewDumb) × (r ≡ ok b)
            × (b.pitch ≡ (wanted width height bpp).pitch)
            × (b.size ≡ (wanted width height bpp).size)
            × (live s b.handle ≡ none)
            × ((h : ℕ)
                → live s' h ≡ (if h == b.handle then some (wanted width height bpp) else live s h)))
  unfolding create_dumb_buffer
  create_dumb_buffer_lem width height bpp flags s v small =
      let same = asked-wanted width height bpp flags in
      elim (law.create_law (dumb_request width height bpp flags) s v small) [
        | inl (bad, kept) ↦ inl (_, reply-failed _ _ bad, bad, kept)
        | inr (good, p, z, free, others) ↦ inr (
          _,
          reply-ok _ _ good,
          p ∙ ap (λ (q : Dumb). q.pitch) same,
          z ∙ ap (λ (q : Dumb). q.size) same,
          free,
          λ h. rw (← same) (others h),
        )
      ]

  -- On any device that keeps the contract of the dumb-buffer ioctls, in a valid state: a buffer
  -- of a height below 2 ^ 32 that `drmModeCreateDumbBuffer` made and `drmModeDestroyDumbBuffer`
  -- ended leaves the live buffers as they were before.
  pub create_destroy :
      (width height bpp flags : ℕ) (s : State) (b : NewDumb)
      → IsValid s
      → height < 2 ^ 32
      → (create_dumb_buffer d width height bpp flags s).0 ≡ ok b
      → (h : ℕ)
      → live (destroy_dumb_buffer d b.handle (create_dumb_buffer d width height bpp flags s).1).1 h
        ≡ live s h
  unfolding create_dumb_buffer destroy_dumb_buffer
  create_destroy width height bpp flags s b v small made h =
      let r = dumb_request width height bpp flags in
      let good = reply-eq-ok (d.create_dumb r s).0 _ made in
      let m = create-Made d law r s v small good.0 in
      let it : (d.create_dumb r s).1.handle ≡ b.handle = ap (λ (q : NewDumb). q.handle) good.1 in
      Made-undone d law r s _ m
        (λ k. rw it (law.destroy_law b.handle k (d.create_dumb r s).2 m.valid)) h
