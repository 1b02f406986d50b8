-- ===== src/Shell/Life.antt =====
-- The life of a panel of shell/src/luna-panel.c: created, configured with one size after the other,
-- destroyed.
use luna_os_arm.Prelude.{
  ℕ, ◌/◌, ◌≡◌, refl, sym, ◌∙◌, inl, inr, ◌⊎◌, subst, Bool-cases, true, Option, some, List, [], ◌∷◌,
  ◌++◌, ◌>>=◌, bind-some, replicate, arith,
}
use luna_os_arm.Shell.Pixels.{mul_int}
use luna_os_arm.Shell.Buffers.{Action}
use luna_os_arm.Shell.Held.{Held, nothing, follow, follow_all, follow_all-++}
use luna_os_arm.Shell.Drawn.{works}
use luna_os_arm.Shell.Panel.{
  Config, Toplevel, Panel, Pixels, scale_of, panel_create, create_shm, panel_render, ls_configure,
  panel_destroy, draw, give_back, can_give_back,
}

-- A size that the compositor gives, with the descriptor that the system gives for it, and with the
-- windows, the time and the scale of the output as they are then.
pub record Size : Type 0 where
  pub fd : ℕ
  pub tls : List Toplevel
  pub clk : List ℕ
  pub output_scale : ℕ
  pub w : ℕ
  pub h : ℕ

-- One `ls_configure` for each size, when the system makes every buffer.
abbrev pub configure_all : Config → List Size → Panel → Option (Panel × List Action)
configure_all cfg [] p = some (p, [])
configure_all cfg (z ∷ zs) p = do
  (p', acts) ← ls_configure cfg z.tls z.clk z.output_scale (works z.fd) z.w z.h p
  (p'', more) ← configure_all cfg zs p'
  some (p'', acts ++ more)

-- What a panel with this pointer and descriptor holds.
abbrev pub held_by : Pixels → Option ℕ → ℕ → Held
held_by Pixels.null fd size = nothing
held_by px fd size = record { fd = fd; map = some size; pool = true }

abbrev held : Panel → Held
held p = held_by p.pixels p.shm_fd p.size

-- The panel has a buffer.
pub record Owns (p : Panel) : Type 0 where
  pub px : List ℕ
  pub pixels : p.pixels ≡ Pixels.memory px
  pub fd : ℕ
  pub shm_fd : p.shm_fd ≡ some fd
  pub buffer : p.buffer ≡ true

-- A step from what is held, to what is.
abbrev Steps : Held → Panel × List Action → Type 0
Steps before r = Owns r.0 × (follow_all r.1 before ≡ some (held r.0))

-- A result that is known is the result.
pub at_result {ℓ} : {A : Type ℓ} (P : A → Type 0) (a b : A) → some a ≡ some b → P a → P b
at_result P a b e h = (let same : a ≡ b = cc in subst P same h)

rendered :
    (cfg : Config) (tls : List Toplevel) (clk : List ℕ) (p : Panel) (r : Panel × List Action)
    → Owns p
    → panel_render cfg tls clk p ≡ some r
    → Steps (held p) r
unfolding panel_render follow_all follow
rendered cfg tls clk p r owns e = elim (Bool-cases p.configured) [
  | inr off ↦ at_result (Steps (held p)) (p, []) r (simp off at e) (owns, refl)
  | inl on ↦
      let ((out, zones), drawn, e) =
        bind-some (draw cfg p.phys_w p.phys_h p.scale tls clk owns.px)
          (simp (on, owns.pixels) at e) in
      at_result (Steps (held p)) _ r e (
        record {
          px = out;
          pixels = refl;
          fd = owns.fd;
          shm_fd = owns.shm_fd;
          buffer = owns.buffer;
        },
        simp owns.pixels refl,
      )
]

-- One after the other.
pub both :
    (xs ys : List Action) (s t u : Held)
    → follow_all xs s ≡ some t
    → follow_all ys t ≡ some u
    → follow_all (xs ++ ys) s ≡ some u
both xs ys s t u hx hy = follow_all-++ xs ys s ∙ (simp hx hy)

-- A panel that has no buffer yet, or has one.
abbrev IsReady : Panel → Type 0
IsReady p = (p.pixels ≡ Pixels.null) ⊎ Owns p

given_back : (p : Panel) → IsReady p → follow_all (give_back p).1 (held p) ≡ some nothing
unfolding follow_all follow
given_back p (inl blank) = simp blank refl
given_back p (inr owns) = simp (owns.pixels, owns.shm_fd) (ground arith)

-- The buffer is that of another panel with the same pointers.
pub same_buffer :
    (p q : Panel)
    → p.pixels ≡ q.pixels
    → p.shm_fd ≡ q.shm_fd
    → p.buffer ≡ q.buffer
    → Owns p
    → Owns q
same_buffer p q a b c owns = record {
  px = owns.px;
  pixels = sym a ∙ owns.pixels;
  fd = owns.fd;
  shm_fd = sym b ∙ owns.shm_fd;
  buffer = sym c ∙ owns.buffer;
}

made :
    (fd : ℕ) (p : Panel) (r : Panel × List Action)
    → create_shm (works fd) p ≡ some r
    → Steps nothing r
unfolding create_shm follow_all follow
made fd p r e =
    let (stride, s, e) = bind-some (mul_int p.phys_w 4) e in
    let (size, z, e) = bind-some (mul_int stride p.phys_h) e in
    at_result (Steps nothing) _ r e (
      record { px = replicate (size / 4) 0; pixels = refl; fd = fd; shm_fd = refl; buffer = refl },
      refl,
    )

acknowledged_first :
    (q : Panel) (s : Held)
    → follow_all (give_back q).1 s ≡ some nothing
    → follow_all (Action.acknowledged ∷ (give_back q).1) s ≡ some nothing
unfolding follow_all follow
acknowledged_first q s h = h

configured :
    (cfg : Config) (z : Size) (p : Panel) (r : Panel × List Action)
    → IsReady p
    → ls_configure cfg z.tls z.clk z.output_scale (works z.fd) z.w z.h p ≡ some r
    → Steps (held p) r
unfolding ls_configure
configured cfg z p r ready e =
    let sc = scale_of z.output_scale in
    let (phys_w, a, e) = bind-some (mul_int z.w sc) e in
    let (phys_h, b, e) = bind-some (mul_int z.h sc) e in
    let (ok, g, e) = bind-some (can_give_back p.pixels) e in
    let q : Panel = record p {
      width = z.w;
      height = z.h;
      scale = sc;
      phys_w = phys_w;
      phys_h = phys_h;
    } in
    let (got, c, e) = bind-some (create_shm (works z.fd) (give_back q).0) e in
    let (drawn, d, e) =
      bind-some (panel_render cfg z.tls z.clk (record got.0 { configured = true })) e in
    let ready' : IsReady q = elim ready [
      | inl blank ↦ inl blank
      | inr owns ↦ inr (same_buffer p q refl refl refl owns)
    ] in
    let free = given_back q ready' in
    let make = made z.fd (give_back q).0 got c in
    let shown : Panel = record got.0 { configured = true } in
    let show =
      rendered cfg z.tls z.clk shown drawn (same_buffer got.0 shown refl refl refl make.0) d in
    at_result (Steps (held p)) _ r e (
      show.0,
      both (Action.acknowledged ∷ (give_back q).1 ++ got.1) drawn.1 _ _ _
          (both (Action.acknowledged ∷ (give_back q).1) got.1 _ _ _
            (acknowledged_first q (held p) free) make.1)
          show.1,
    )

all_configured :
    (cfg : Config) (zs : List Size) (p : Panel) (r : Panel × List Action)
    → Owns p
    → configure_all cfg zs p ≡ some r
    → Steps (held p) r
unfolding follow_all
all_configured cfg [] p r owns e = at_result (Steps (held p)) (p, []) r e (owns, refl)
all_configured cfg (z ∷ zs) p r owns e =
    let (one, a, e) =
      bind-some (ls_configure cfg z.tls z.clk z.output_scale (works z.fd) z.w z.h p) e in
    let (more, b, e) = bind-some (configure_all cfg zs one.0) e in
    let first = configured cfg z p one (inr owns) a in
    let rest = all_configured cfg zs one.0 more first.0 b in
    at_result (Steps (held p)) _ r e (rest.0, both one.1 more.1 _ _ _ first.1 rest.1)

destroyed : (p : Panel) → Owns p → follow_all (panel_destroy p) (held p) ≡ some nothing
unfolding panel_destroy follow_all follow
destroyed p owns = simp (owns.pixels, owns.shm_fd, owns.buffer) (ground arith)

-- A panel that is created, gets one size or more from the compositor, and is destroyed, when the
-- system makes every buffer and it comes to no undefined behaviour, whatever the windows, the time and
-- the scale are at each: its calls use what is held,
-- and at the end no descriptor, mapping or pool is left.
pub panel_life :
    (cfg : Config) (output_scale : ℕ) (z : Size) (zs : List Size) (r : Panel × List Action)
    → configure_all cfg (z ∷ zs) (panel_create cfg output_scale).0 ≡ some r
    → follow_all ((panel_create cfg output_scale).1 ++ r.1 ++ panel_destroy r.0) nothing
      ≡ some nothing
unfolding panel_create follow_all follow
panel_life cfg output_scale z zs r e =
    let start = (panel_create cfg output_scale).0 in
    let (one, a, e) =
      bind-some (ls_configure cfg z.tls z.clk z.output_scale (works z.fd) z.w z.h start) e in
    let (more, b, e) = bind-some (configure_all cfg zs one.0) e in
    let first = configured cfg z start one (inl refl) a in
    let rest = all_configured cfg zs one.0 more first.0 b in
    at_result
      (λ (r : Panel × List Action). follow_all (r.1 ++ panel_destroy r.0) nothing ≡ some nothing) _
      r e
      (both (one.1 ++ more.1) (panel_destroy more.0) _ _ _ (both one.1 more.1 _ _ _ first.1 rest.1)
        (destroyed more.0 rest.0))
