-- ===== src/Launcher/Life.antt =====
-- The lives of the launcher and of the wallpaper (shell/src/luna-launcher-wallpaper.c): created,
-- configured with one size after the other, destroyed.
use luna_os_arm.Prelude.{
  ℕ, ◌/◌, ◌≡◌, refl, inl, inr, ◌⊎◌, true, Option, some, List, [], ◌∷◌, ◌++◌, ◌>>=◌, bind-some,
  replicate, arith,
}
use luna_os_arm.Shell.Pixels.{mul_int}
use luna_os_arm.Shell.Buffers.{Action, gradient}
use luna_os_arm.Shell.Held.{Held, nothing, follow, follow_all}
use luna_os_arm.Shell.Drawn.{works}
use luna_os_arm.Shell.Panel.{Pixels, scale_of}
use luna_os_arm.Shell.Life.{Size, held_by, at_result, both}
use luna_os_arm.Launcher.Memory.{
  Memory, no_memory, give_back, remake, present, memory_destroy, wp_configure, wallpaper_create,
  wallpaper_destroy,
}

abbrev held : Memory → Held
held m = held_by m.pixels m.shm_fd m.size

record Owns (m : Memory) : Type 0 where
  px : List ℕ
  pixels : m.pixels ≡ Pixels.memory px
  fd : ℕ
  shm_fd : m.shm_fd ≡ some fd
  buffer : m.buffer ≡ true

abbrev Steps : Held → Memory × List Action → Type 0
Steps before r = Owns r.0 × (follow_all r.1 before ≡ some (held r.0))

abbrev IsReady : Memory → Type 0
IsReady m = (m ≡ no_memory) ⊎ Owns m

-- The old memory goes and the new one comes, when the system makes it.
exchanged :
    (fd pw ph stride size : ℕ) (m : Memory)
    → IsReady m
    → follow_all
        (give_back m
          ++ (Action.opened fd ∷ Action.unlinked ∷ [])
          ++ (Action.mapped size ∷ [])
          ++ (Action.pool_created size ∷ Action.buffer_created pw ph stride ∷ []))
        (held m)
      ≡ some (record { fd = some fd; map = some size; pool = true })
unfolding follow_all follow
exchanged fd pw ph stride size m (inl blank) = rw blank refl
exchanged fd pw ph stride size m (inr owns) = simp (owns.pixels, owns.shm_fd) (ground arith)

remade :
    (fd pw ph : ℕ) (m : Memory) (r : Memory × List Action)
    → IsReady m
    → remake (works fd) pw ph m ≡ some r
    → Steps (held m) r
unfolding remake
remade fd pw ph m r ready e =
    let (stride, s, e) = bind-some (mul_int pw 4) e in
    let (size, z, e) = bind-some (mul_int stride ph) e in
    at_result (Steps (held m)) _ r e (
      record { px = replicate (size / 4) 0; pixels = refl; fd = fd; shm_fd = refl; buffer = refl },
      exchanged fd pw ph stride size m ready,
    )

presented :
    (pw ph scale : ℕ) (paint_px : List ℕ → Option (List ℕ)) (m : Memory) (r : Memory × List Action)
    → Owns m
    → present pw ph scale paint_px m ≡ some r
    → Steps (held m) r
unfolding present follow_all follow
presented pw ph scale paint_px m r owns e =
    let (out, drawn, e) = bind-some (paint_px owns.px) (simp owns.pixels at e) in
    at_result (Steps (held m)) _ r e (
      record { px = out; pixels = refl; fd = owns.fd; shm_fd = owns.shm_fd; buffer = owns.buffer },
      simp owns.pixels refl,
    )

destroyed : (m : Memory) → Owns m → follow_all (memory_destroy m) (held m) ≡ some nothing
unfolding memory_destroy follow_all follow
destroyed m owns = simp (owns.pixels, owns.shm_fd, owns.buffer) (ground arith)

acknowledged :
    (acts : List Action) (s t : Held)
    → follow_all acts s ≡ some t
    → follow_all (Action.acknowledged ∷ acts) s ≡ some t
unfolding follow_all follow
acknowledged acts s t h = h

wallpaper_configured :
    (shade : ℕ → ℕ → ℕ) (output_scale : ℕ) (z : Size) (m : Memory) (r : Memory × List Action)
    → IsReady m
    → wp_configure shade output_scale (works z.fd) z.w z.h m ≡ some r
    → Steps (held m) r
unfolding wp_configure
wallpaper_configured shade output_scale z m r ready e =
    let sc = scale_of output_scale in
    let (pw, a, e) = bind-some (mul_int z.w sc) e in
    let (ph, b, e) = bind-some (mul_int z.h sc) e in
    let (got, c, e) = bind-some (remake (works z.fd) pw ph m) e in
    let (shown, d, e) = bind-some (present pw ph sc (gradient shade pw ph ph 0) got.0) e in
    let make = remade z.fd pw ph m got ready c in
    let show = presented pw ph sc (gradient shade pw ph ph 0) got.0 shown make.0 d in
    at_result (Steps (held m)) _ r e (
      show.0,
      both (Action.acknowledged ∷ got.1) shown.1 _ _ _ (acknowledged got.1 _ _ make.1) show.1,
    )

-- One `wp_configure` for each size, when the system makes every buffer.
abbrev pub wallpaper_sizes : (ℕ → ℕ → ℕ) → ℕ → List Size → Memory → Option (Memory × List Action)
wallpaper_sizes shade output_scale [] m = some (m, [])
wallpaper_sizes shade output_scale (z ∷ zs) m = do
  (m', acts) ← wp_configure shade output_scale (works z.fd) z.w z.h m
  (m'', more) ← wallpaper_sizes shade output_scale zs m'
  some (m'', acts ++ more)

wallpaper_lives :
    (shade : ℕ → ℕ → ℕ) (output_scale : ℕ) (zs : List Size) (m : Memory) (r : Memory × List Action)
    → IsReady m
    → wallpaper_sizes shade output_scale zs m ≡ some r
    → IsReady r.0 × (follow_all r.1 (held m) ≡ some (held r.0))
unfolding follow_all
wallpaper_lives shade output_scale [] m r ready e =
    at_result
      (λ (r : Memory × List Action). IsReady r.0 × (follow_all r.1 (held m) ≡ some (held r.0)))
      (m, []) r e (ready, refl)
wallpaper_lives shade output_scale (z ∷ zs) m r ready e =
    let (one, a, e) = bind-some (wp_configure shade output_scale (works z.fd) z.w z.h m) e in
    let (more, b, e) = bind-some (wallpaper_sizes shade output_scale zs one.0) e in
    let first = wallpaper_configured shade output_scale z m one ready a in
    let rest = wallpaper_lives shade output_scale zs one.0 more (inr first.0) b in
    at_result
      (λ (r : Memory × List Action). IsReady r.0 × (follow_all r.1 (held m) ≡ some (held r.0))) _ r
      e (rest.0, both one.1 more.1 _ _ _ first.1 rest.1)

ready_destroyed : (m : Memory) → IsReady m → follow_all (memory_destroy m) (held m) ≡ some nothing
unfolding memory_destroy follow_all follow
ready_destroyed m (inl blank) = rw blank refl
ready_destroyed m (inr owns) = destroyed m owns

-- A wallpaper that is created, gets any number of sizes from the compositor, and is destroyed, when
-- the system makes every buffer: its calls use what is held, and at the end no descriptor, mapping
-- or pool is left.
pub wallpaper_life :
    (shade : ℕ → ℕ → ℕ) (output_scale : ℕ) (zs : List Size) (r : Memory × List Action)
    → wallpaper_sizes shade output_scale zs wallpaper_create.0 ≡ some r
    → follow_all (wallpaper_create.1 ++ r.1 ++ wallpaper_destroy r.0) nothing ≡ some nothing
unfolding wallpaper_create follow_all follow
wallpaper_life shade output_scale zs r e =
    let lived = wallpaper_lives shade output_scale zs no_memory r (inl refl) e in
    both r.1 (memory_destroy r.0) _ _ _ lived.1 (ready_destroyed r.0 lived.0)
