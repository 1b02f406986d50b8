-- ===== src/Shim/Live.antt =====
-- The shim seen as a finite map from handles to buffers: what each request does to it.
use luna_os_arm.Prelude.{
  ℕ, ◌-◌, ◌≤◌, ◌<◌, ◌≡◌, refl, ◌∙◌, ◌≢◌, inl, inr, false, Option, none, some, arith, ◌==◌,
  if◌then◌else◌, length, Option-cases, length-set,
}
use luna_os_arm.Errno
use luna_os_arm.Drm.{CreateDumb, Crtc}
use luna_os_arm.Shim.{Shim, DumbBo, if_in_use, find_bo, alloc_handle, put_bo, max_dumb_bos}
use luna_os_arm.Shim.Buffers.{new_bo, zeroed, ioctl_create_dumb, ioctl_gem_close}
use luna_os_arm.Shim.Display.{ioctl_setcrtc, blit_to_display}
use luna_os_arm.Shim.Table.{Live, find_bo-put_bo, find_bo_range, alloc_handle_least}

-- The buffer that a granted `ioctl_create_dumb` puts into the table.
abbrev pub made_bo : CreateDumb → ℕ → ℕ → DumbBo
made_bo req handle physical =
    let bo = new_bo req handle in record bo { mem = some (zeroed physical) }

-- The three ways `ioctl_create_dumb` can end.
pub data Created (contiguous : ℕ → Option ℕ) (req : CreateDumb) (s : Shim)
    (r : ℕ × CreateDumb × Shim) : Type 0 where
  full :
      r ≡ (Errno.nomem, req, s)
      → ((h : ℕ) → 1 ≤ h → h ≤ max_dumb_bos → Live s h)
      → Created contiguous req s r
  refused :
      contiguous (new_bo req 0).size ≡ none
      → r.0 ≡ Errno.nomem
      → r.1 ≡ req
      → ((h : ℕ) → find_bo r.2 h ≡ find_bo s h)
      → length r.2.bos ≡ max_dumb_bos
      → Created contiguous req s r
  granted :
      (handle physical : ℕ)
      → contiguous (new_bo req 0).size ≡ some physical
      → r.0 ≡ 0
      → r.1 ≡ record req {
        handle = handle;
        pitch = (new_bo req handle).pitch;
        size = (new_bo req handle).size;
      }
      → find_bo s handle ≡ none
      → ((h : ℕ) → 1 ≤ h → h < handle → Live s h)
      → find_bo r.2 handle ≡ some (made_bo req handle physical)
      → ((h : ℕ) → h ≢ handle → find_bo r.2 h ≡ find_bo s h)
      → length r.2.bos ≡ max_dumb_bos
      → Created contiguous req s r

module _ (contiguous : ℕ → Option ℕ) (req : CreateDumb) (s : Shim)
    (n : length s.bos ≡ max_dumb_bos) where
  create-full : alloc_handle s ≡ 0 → ioctl_create_dumb contiguous req s ≡ (Errno.nomem, req, s)
  unfolding ioctl_create_dumb
  create-full e = rw e

  -- The state after a request that found the handle `h`.
  create-refused :
      (h : ℕ)
      → alloc_handle s ≡ h
      → 1 ≤ h
      → contiguous (new_bo req h).size ≡ none
      → ioctl_create_dumb contiguous req s
        ≡ (Errno.nomem, req, put_bo s h (let bo = new_bo req h in record bo { in_use = false }))
  unfolding ioctl_create_dumb
  create-refused h e lo no_memory = ground (arith)

  create-granted :
      (h physical : ℕ)
      → alloc_handle s ≡ h
      → 1 ≤ h
      → contiguous (new_bo req h).size ≡ some physical
      → ioctl_create_dumb contiguous req s ≡ (
        0,
        record req { handle = h; pitch = (new_bo req h).pitch; size = (new_bo req h).size },
        put_bo s h (made_bo req h physical),
      )
  unfolding ioctl_create_dumb
  create-granted h physical e lo got = ground (arith)

  put-find :
      (h k : ℕ) (b : DumbBo)
      → 1 ≤ h
      → h ≤ max_dumb_bos
      → find_bo (put_bo s h b) k ≡ (if k == h then if_in_use (some b) else find_bo s k)
  put-find h k b lo hi = find_bo-put_bo s h k b n lo hi

  create-Created_at :
      (h : ℕ)
      → alloc_handle s ≡ h
      → 1 ≤ h
      → h ≤ max_dumb_bos
      → find_bo s h ≡ none
      → ((k : ℕ) → 1 ≤ k → k < h → Live s k)
      → Created contiguous req s (ioctl_create_dumb contiguous req s)
  create-Created_at h e lo hi free below = elim (Option-cases (contiguous (new_bo req h).size)) [
    | inl no_memory ↦
        let b : DumbBo = let bo = new_bo req h in record bo { in_use = false } in
        rw (create-refused h e lo no_memory) (
          refused no_memory refl refl (λ k. ground (arith, put-find h k b lo hi))
            (length-set s.bos (h - 1) b ∙ n))
    | inr (physical, got) ↦
        let b = made_bo req h physical in
        rw (create-granted h physical e lo got) (
          granted h physical got refl refl free below (ground (arith, put-find h h b lo hi))
            (λ k ne. ground (arith, put-find h k b lo hi)) (length-set s.bos (h - 1) b ∙ n))
  ]

  -- `ioctl_create_dumb` on a table of 256 slots ends in one of three ways. If every handle is live
  -- it is ENOMEM and changes nothing. If the allocator refuses it is ENOMEM and every handle finds
  -- what it found. Otherwise it returns the least handle that was not live, which finds a zeroed
  -- buffer of the reported pitch and size, and every other handle finds what it found.
  pub ioctl_create_dumb-Created : Created contiguous req s (ioctl_create_dumb contiguous req s)
  ioctl_create_dumb-Created = elim (alloc_handle_least s n) [
    | inl (e, all) ↦ full (create-full e) all
    | inr (lo, hi, free, below) ↦ create-Created_at _ refl lo hi free below
  ]

-- On a table of 256 slots `ioctl_gem_close` removes its handle and no other from the live
-- buffers.
pub find_bo-ioctl_gem_close :
    (s : Shim) (h k : ℕ)
    → length s.bos ≡ max_dumb_bos
    → find_bo (ioctl_gem_close h s).1 k ≡ (if k == h then none else find_bo s k)
unfolding ioctl_gem_close
find_bo-ioctl_gem_close s h k n = elim (Option-cases (find_bo s h)) [
  | inl gone ↦ ground (arith)
  | inr (b, e) ↦
      let r = find_bo_range s h e in
      let closed : DumbBo = record b { mem = none; in_use = false } in
      ground (arith, find_bo-put_bo s h k closed n r.0 r.1)
]

pub length-ioctl_gem_close : (s : Shim) (h : ℕ) → length (ioctl_gem_close h s).1.bos ≡ length s.bos
unfolding ioctl_gem_close
length-ioctl_gem_close s h = elim (Option-cases (find_bo s h)) [
  | inl gone ↦ ground (arith)
  | inr (b, e) ↦
      let closed : DumbBo = record b { mem = none; in_use = false } in
      ground (arith, length-set s.bos (h - 1) closed)
]

-- The display path leaves the table alone.
pub bos-ioctl_setcrtc : (req : Crtc) (s : Shim) → (ioctl_setcrtc req s).1.bos ≡ s.bos
unfolding ioctl_setcrtc blit_to_display
bos-ioctl_setcrtc req s = ground arith

pub find_bo_of_bos : (s t : Shim) (h : ℕ) → t.bos ≡ s.bos → find_bo t h ≡ find_bo s h
unfolding find_bo
find_bo_of_bos s t h e = rw e
