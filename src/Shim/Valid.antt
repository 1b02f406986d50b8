-- ===== src/Shim/Valid.antt =====
-- The invariant of the shim's table, and that every request keeps it.
use luna_os_arm.Prelude.{
  ℕ, ◌-◌, ◌*◌, ◌%◌, ◌^◌, ◌≤◌, ◌<◌, ◌≡◌, zero, suc, refl, ◌∙◌, sym, subst, ◌||◌, ltb, replicate,
  get_elem?, inl, inr, Option, none, some, List, [], ◌∷◌, arith, ◌==◌, if◌then◌else◌, length,
  Bool-cases, length-replicate, u64,
}
use luna_os_arm.Pitch.{kernel_pitch}
use luna_os_arm.Pitch.Laws.{kernel_pitch_bounds}
use luna_os_arm.Drm.{
  Request, version, get_resources, get_connector, get_encoder, get_crtc, set_crtc, add_fb, rm_fb,
  create_dumb, map_dumb, destroy_dumb, gem_close, prime_handle_to_fd, prime_fd_to_handle, other,
  CreateDumb, Crtc,
}
use native.Mathlib.Decide.{ℕ_discrete}
use luna_os_arm.Shim.{
  empty_table, if_in_use, empty_bo, Shim, DumbBo, Memory, Framebuffer, started, find_bo,
  max_dumb_bos,
}
use luna_os_arm.Shim.Buffers.{ioctl_create_dumb, ioctl_gem_close, ioctl_destroy_dumb}
use luna_os_arm.Shim.Display.{ioctl_setcrtc}
use luna_os_arm.Shim.Dispatch.{handle_ioctl, run}
use luna_os_arm.Shim.Live.{
  Created, full, refused, granted, made_bo, ioctl_create_dumb-Created, find_bo-ioctl_gem_close,
  length-ioctl_gem_close, bos-ioctl_setcrtc, find_bo_of_bos,
}

-- A live buffer knows its handle, owns its memory, has rows of whole cache lines, and a size of
-- `height` rows.
pub record IsBacked (h : ℕ) (b : DumbBo) : Type 0 where
  pub named : b.handle ≡ h
  pub backed : (m : Memory) × (b.mem ≡ some m)
  pub aligned : b.pitch % 64 ≡ 0
  pub sized : b.size ≡ b.pitch * b.height

pub record IsValid (s : Shim) : Type 0 where
  pub slots : length s.bos ≡ max_dumb_bos
  pub live : (h : ℕ) (b : DumbBo) → find_bo s h ≡ some b → IsBacked h b

-- The `uint32_t` that the size of a new buffer depends on.
abbrev pub HasWords : Request → Type 0
HasWords (create_dumb r) = r.height < 2 ^ 32
HasWords _ = Unit {0}

slot-replicate : (n i : ℕ) → if_in_use (get_elem? (replicate n empty_bo) i) ≡ none
slot-replicate zero i = refl
slot-replicate (suc n) zero = refl
slot-replicate (suc n) (suc i) = slot-replicate n i

find_bo-started : (fb : Option Framebuffer) (h : ℕ) → find_bo (started fb) h ≡ none
unfolding find_bo empty_table
find_bo-started fb h = elim (Bool-cases (h == 0 || ltb max_dumb_bos h)) [
  | inl out ↦ rw out
  | inr in_range ↦ rw in_range (slot-replicate max_dumb_bos (h - 1))
]

-- The shim that `start` sets up is valid: no handle is live.
pub started-IsValid : (fb : Option Framebuffer) → IsValid (started fb)
unfolding empty_table
started-IsValid fb = record {
  slots = length-replicate max_dumb_bos empty_bo;
  live = λ h b e. cc (find_bo-started fb h);
}

pub u64-small : (p h : ℕ) → p ≤ 2 ^ 29 → h < 2 ^ 32 → u64 (p * h) ≡ p * h
u64-small p h lo hi = let e : p * h ≤ 2 ^ 29 * h = grind arith in omega (arith, e)

made_bo-IsBacked :
    (req : CreateDumb) (h physical : ℕ) → req.height < 2 ^ 32 → IsBacked h (made_bo req h physical)
made_bo-IsBacked req h physical small =
    let bpp = (if req.bpp == 0 then 32 else req.bpp) in
    let bounds = kernel_pitch_bounds req.width bpp in
    record {
      named = refl;
      backed = (_, refl);
      aligned = bounds.0;
      sized = u64-small (kernel_pitch req.width bpp) req.height bounds.3 small;
    }

create_dumb-IsValid :
    (c : ℕ → Option ℕ) (req : CreateDumb) (s : Shim) (r : ℕ × CreateDumb × Shim)
    → req.height < 2 ^ 32
    → IsValid s
    → Created c req s r
    → IsValid r.2
create_dumb-IsValid c req s r small v (full e all) = rw e v
create_dumb-IsValid c req s r small v (refused no_memory e e' same n) = record {
  slots = n;
  live = λ h b f. v.live h b (sym (same h) ∙ f);
}
create_dumb-IsValid c req s r small v (granted h p got e e' free below new same n) = record {
  slots = n;
  live = λ k b f. elim (ℕ_discrete k h) [
    | yes same_handle ↦
        let q : made_bo req h p ≡ b = cc in
        rw same_handle (subst (IsBacked h) q (made_bo-IsBacked req h p small))
    | no other_handle ↦ v.live k b (sym (same k other_handle) ∙ f)
  ];
}

gem_close-IsValid : (h : ℕ) (s : Shim) → IsValid s → IsValid (ioctl_gem_close h s).1
gem_close-IsValid h s v = record {
  slots = length-ioctl_gem_close s h ∙ v.slots;
  live = λ k b f. v.live k b (ground (arith, f, find_bo-ioctl_gem_close s h k v.slots));
}

setcrtc-IsValid : (req : Crtc) (s : Shim) → IsValid s → IsValid (ioctl_setcrtc req s).1
setcrtc-IsValid req s v =
    let e = bos-ioctl_setcrtc req s in
    record {
      slots = rw e v.slots;
      live = λ k b f. v.live k b (sym (find_bo_of_bos s (ioctl_setcrtc req s).1 k e) ∙ f);
    }

-- Every request keeps the table valid, for a CREATE_DUMB whose height is a `uint32_t`.
pub handle_ioctl-IsValid :
    (contiguous : ℕ → Option ℕ) (req : Request) (s : Shim)
    → HasWords req
    → IsValid s
    → IsValid (handle_ioctl contiguous req s).2
unfolding handle_ioctl ioctl_destroy_dumb
handle_ioctl-IsValid c (version _) s w v = v
handle_ioctl-IsValid c (get_resources _) s w v = v
handle_ioctl-IsValid c (get_connector _) s w v = v
handle_ioctl-IsValid c (get_encoder _) s w v = v
handle_ioctl-IsValid c (get_crtc _) s w v = v
handle_ioctl-IsValid c (set_crtc r) s w v = setcrtc-IsValid r s v
handle_ioctl-IsValid c (add_fb _) s w v = v
handle_ioctl-IsValid c (rm_fb _) s w v = v
handle_ioctl-IsValid c (create_dumb r) s w v =
    create_dumb-IsValid c r s (ioctl_create_dumb c r s) w v
      (ioctl_create_dumb-Created c r s v.slots)
handle_ioctl-IsValid c (map_dumb _) s w v = v
handle_ioctl-IsValid c (destroy_dumb h) s w v = gem_close-IsValid h s v
handle_ioctl-IsValid c (gem_close h) s w v = gem_close-IsValid h s v
handle_ioctl-IsValid c (prime_handle_to_fd _) s w v = v
handle_ioctl-IsValid c (prime_fd_to_handle _) s w v = v
handle_ioctl-IsValid c (other _) s w v = v

abbrev pub AllWords : List ((ℕ → Option ℕ) × Request) → Type 0
AllWords [] = Unit {0}
AllWords ((c, req) ∷ rs) = HasWords req × AllWords rs

run_from-IsValid :
    (rs : List ((ℕ → Option ℕ) × Request)) (s : Shim) → AllWords rs → IsValid s → IsValid (run s rs)
unfolding run
run_from-IsValid [] s w v = v
run_from-IsValid ((c, req) ∷ rs) s w v =
    run_from-IsValid rs _ w.1 (handle_ioctl-IsValid c req s w.0 v)

-- From the empty table that `start` sets up, any sequence of requests of any processes leaves a
-- valid table: each live handle finds a buffer with that handle, with memory, a pitch of whole
-- 64-byte lines, and a size of `height` rows. The height of each CREATE_DUMB is a `uint32_t`.
pub run-IsValid :
    (fb : Option Framebuffer) (rs : List ((ℕ → Option ℕ) × Request))
    → AllWords rs
    → IsValid (run (started fb) rs)
run-IsValid fb rs w = run_from-IsValid rs (started fb) w (started-IsValid fb)
