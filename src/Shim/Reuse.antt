-- ===== src/Shim/Reuse.antt =====
-- Handles are reused: what a second close of a handle does, and how MAP_DUMB encodes a handle.
use luna_os_arm.Prelude.{
  ℕ, ◌+◌, ◌/◌, ◌^◌, ◌≤◌, ◌<◌, ◌≡◌, ◌∙◌, ◌≢◌, ◌⊎◌, ◌↔◌, ap, inl, inr, Option, none, some, arith,
  length, Option-cases,
}
use native.Mathlib.Decide.{dec_lt}
use luna_os_arm.Errno
use luna_os_arm.Drm.{CreateDumb, MapDumb}
use luna_os_arm.Shim.{Shim, DumbBo, find_bo, max_dumb_bos}
use luna_os_arm.Shim.Buffers.{
  ioctl_create_dumb, ioctl_map_dumb, ioctl_gem_close, ioctl_destroy_dumb,
}
use luna_os_arm.Shim.Table.{Live, find_bo_range}
use luna_os_arm.Shim.Live.{
  Created, full, refused, granted, ioctl_create_dumb-Created, find_bo-ioctl_gem_close,
  length-ioctl_gem_close,
}

Live-ne : (s : Shim) (h : ℕ) → Live s h → find_bo s h ≢ none
Live-ne s h (b, e) gone = cc

-- Only one handle is the least that is not live.
least_unique :
    (s : Shim) (h k : ℕ)
    → 1 ≤ h
    → 1 ≤ k
    → find_bo s h ≡ none
    → find_bo s k ≡ none
    → ((j : ℕ) → 1 ≤ j → j < h → Live s j)
    → ((j : ℕ) → 1 ≤ j → j < k → Live s j)
    → k ≡ h
least_unique s h k lo lo' gone gone' below below' = elim (dec_lt h k) [
  | yes lt ↦ absurd (Live-ne s h (below' h lo lt) gone)
  | no ge ↦ elim (dec_lt k h) [
    | yes lt ↦ absurd (Live-ne s k (below k lo' lt) gone')
    | no ge' ↦ omega arith
  ]
]

-- A creation with memory to be had gets the least handle that is not live.
ioctl_create_dumb-handle :
    (s : Shim) (c : ℕ → Option ℕ) (r : CreateDumb) (h : ℕ) (out : ℕ × CreateDumb × Shim)
    → ((size : ℕ) → c size ≢ none)
    → 1 ≤ h
    → h ≤ max_dumb_bos
    → find_bo s h ≡ none
    → ((k : ℕ) → 1 ≤ k → k < h → Live s k)
    → Created c r s out
    → (out.0 ≡ 0) × (out.1.handle ≡ h) × (length out.2.bos ≡ max_dumb_bos)
ioctl_create_dumb-handle s c r h out grants lo hi gone below (full e all) =
    absurd (Live-ne s h (all h lo hi) gone)
ioctl_create_dumb-handle s c r h out grants lo hi gone below (refused no_memory e e' same n) =
    absurd (grants _ no_memory)
ioctl_create_dumb-handle s c r h out grants lo hi gone below
      (granted k p got e e' free below' new same n) =
    let range = find_bo_range out.2 k new in
    let k-h = least_unique s h k lo range.0 gone free below below' in
    (e, ap (λ (q : CreateDumb). q.handle) e' ∙ k-h, n)

-- Two processes share the device, whose table has 256 slots. One destroys its live handle `h`,
-- below which every handle is live; another then creates a buffer, and there is memory for it;
-- the first then closes `h` a second time, as `gbm_bo_destroy` does. The second process is told
-- that it owns `h`, and its new buffer is gone.
pub destroy_create_close :
    (c : ℕ → Option ℕ) (r : CreateDumb) (s : Shim) (h : ℕ)
    → length s.bos ≡ max_dumb_bos
    → Live s h
    → ((k : ℕ) → 1 ≤ k → k < h → Live s k)
    → ((size : ℕ) → c size ≢ none)
    → let destroyed = (ioctl_destroy_dumb h s).1 in
      let (e, r', created) = ioctl_create_dumb c r destroyed in
      (e ≡ 0) × (r'.handle ≡ h) × (find_bo (ioctl_gem_close h created).1 h ≡ none)
unfolding ioctl_destroy_dumb
destroy_create_close c r s h n (b, live) below grants =
    let range = find_bo_range s h live in
    let d : Shim = (ioctl_gem_close h s).1 in
    let nd : length d.bos ≡ max_dumb_bos = length-ioctl_gem_close s h ∙ n in
    let gone : find_bo d h ≡ none = ground (arith, find_bo-ioctl_gem_close s h h n) in
    let others : ((k : ℕ) → 1 ≤ k → k < h → Live d k) = λ k lo lt.
      ((below k lo lt).0, ground (arith, find_bo-ioctl_gem_close s h k n, (below k lo lt).1)) in
    let made =
      ioctl_create_dumb-handle d c r h (ioctl_create_dumb c r d) grants range.0 range.1 gone others
        (ioctl_create_dumb-Created c r d nd) in
    (made.0, made.1, ground (arith, find_bo-ioctl_gem_close (ioctl_create_dumb c r d).2 h h made.2))

-- MAP_DUMB of a live handle gives an offset from which the handle can be read back; for any other
-- handle it is EINVAL and the request is as it was.
pub ioctl_map_dumb_lem :
    (req : MapDumb) (s : Shim)
    → (((b : DumbBo) × (find_bo s req.handle ≡ some b))
        × ((ioctl_map_dumb req s).0 ≡ 0)
        × ((ioctl_map_dumb req s).1.handle ≡ req.handle)
        × ((ioctl_map_dumb req s).1.offset / 2 ^ 22 ≡ req.handle))
      ⊎ ((find_bo s req.handle ≡ none) × (ioctl_map_dumb req s ≡ (Errno.inval, req)))
unfolding ioctl_map_dumb
ioctl_map_dumb_lem req s = elim (Option-cases (find_bo s req.handle)) [
  | inl gone ↦ inr (gone, rw (gone, ioctl_map_dumb))
  | inr (b, live) ↦
      let range = find_bo_range s req.handle live in
      inl ((b, live), ground arith, ground arith, ground arith)
]

-- The offsets of two neighbouring live handles leave room for the first buffer exactly if it has
-- at most 4 MiB.
pub ioctl_map_dumb_overlap :
    (s : Shim) (h : ℕ) (b : DumbBo)
    → find_bo s h ≡ some b
    → Live s (h + 1)
    → ((ioctl_map_dumb (record { handle = h; offset = 0 }) s).1.offset + b.size
        ≤ (ioctl_map_dumb (record { handle = h + 1; offset = 0 }) s).1.offset)
      ↔ (b.size ≤ 2 ^ 22)
unfolding ioctl_map_dumb
ioctl_map_dumb_overlap s h b live (b', live') =
    let range = find_bo_range s (h + 1) live' in (λ le. ground arith, λ le. ground arith)
