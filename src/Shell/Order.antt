-- ===== src/Shell/Order.antt =====
-- The calls of the panel of shell/src/luna-panel.c, in the order of the protocol.
use luna_os_arm.Prelude.{
  ℕ, ◌≡◌, refl, ◌∙◌, inl, inr, true, Option, none, some, List, [], ◌∷◌, ◌++◌, ◌>>=◌, bind-some,
  Bool-cases,
}
use luna_os_arm.Shell.Pixels.{mul_int}
use luna_os_arm.Shell.Buffers.{Shm, Action}
use luna_os_arm.Shell.Life.{at_result}
use luna_os_arm.Shell.Panel.{
  Config, Toplevel, Panel, Pixels, scale_of, panel_create, create_shm, create_shm_of, panel_render,
  ls_configure, give_back, can_give_back, draw, close_fd, unmap, is_null, render_on,
}
use luna_os_arm.Shell.Protocol.{
  Phase, absent, awaiting, configured, acknowledge, speak, speak_all, speak_all-++,
}

-- Calls that are in order and leave the surface configured.
abbrev IsOrdered : List Action → Type 0
IsOrdered acts = speak_all acts configured ≡ some configured

IsOrdered-++ : (xs ys : List Action) → IsOrdered xs → IsOrdered ys → IsOrdered (xs ++ ys)
IsOrdered-++ xs ys hx hy = speak_all-++ xs ys configured ∙ (simp hx hy)

unmap-IsOrdered : (px : Pixels) (size : ℕ) → IsOrdered (unmap px size)
unfolding speak_all speak
unmap-IsOrdered Pixels.null size = refl
unmap-IsOrdered Pixels.map_failed size = refl
unmap-IsOrdered Pixels.dangling size = refl
unmap-IsOrdered (Pixels.memory px) size = refl

close_fd-IsOrdered : (fd : Option ℕ) → IsOrdered (close_fd fd)
unfolding speak_all speak
close_fd-IsOrdered none = refl
close_fd-IsOrdered (some fd) = refl

freed : (fd : Option ℕ) → IsOrdered (Action.buffer_destroyed ∷ Action.pool_destroyed ∷ close_fd fd)
unfolding speak_all speak
freed none = refl
freed (some fd) = refl

give_back-IsOrdered : (p : Panel) → IsOrdered (give_back p).1
unfolding speak_all
give_back-IsOrdered p = elim (Bool-cases (is_null p.pixels)) [
  | inl blank ↦ simp blank refl
  | inr there ↦ simp there (
      IsOrdered-++ (unmap p.pixels p.size)
        (Action.buffer_destroyed ∷ Action.pool_destroyed ∷ close_fd p.shm_fd)
        (unmap-IsOrdered p.pixels p.size) (freed p.shm_fd))
]

create_shm_of-IsOrdered :
    (fd : Option ℕ) (shm : Shm) (w h stride size : ℕ) (p : Panel)
    → IsOrdered (create_shm_of fd shm w h stride size p).1
unfolding speak_all speak
create_shm_of-IsOrdered none shm w h stride size p = refl
create_shm_of-IsOrdered (some fd) shm w h stride size p = elim (Bool-cases shm.maps) [
  | inl maps ↦ simp maps refl
  | inr fails ↦ simp fails refl
]

-- The calls of a result are in order.
abbrev Orders : Panel × List Action → Type 0
Orders r = IsOrdered r.1

render_on-Orders :
    (cfg : Config) (tls : List Toplevel) (clk : List ℕ) (p : Panel) (px : Pixels)
    (r : Panel × List Action)
    → render_on cfg tls clk p px ≡ some r
    → Orders r
unfolding speak_all speak
render_on-Orders cfg tls clk p Pixels.null r e = at_result Orders (p, []) r e refl
render_on-Orders cfg tls clk p Pixels.map_failed r e = elim (Bool-cases p.buffer) [
  | inl stale ↦ (let no_run : none ≡ some r = simp stale at e in cc)
  | inr fresh ↦
      let ((out, zones), drawn, e) =
        bind-some (draw cfg p.phys_w p.phys_h p.scale tls clk []) (simp fresh at e) in
      at_result Orders _ r e refl
]
render_on-Orders cfg tls clk p Pixels.dangling r e = cc
render_on-Orders cfg tls clk p (Pixels.memory px) r e =
    let ((out, zones), drawn, e) = bind-some (draw cfg p.phys_w p.phys_h p.scale tls clk px) e in
    at_result Orders _ r e refl

panel_render-Orders :
    (cfg : Config) (tls : List Toplevel) (clk : List ℕ) (p : Panel) (r : Panel × List Action)
    → panel_render cfg tls clk p ≡ some r
    → Orders r
unfolding panel_render speak_all
panel_render-Orders cfg tls clk p r e = elim (Bool-cases p.configured) [
  | inl on ↦ render_on-Orders cfg tls clk p p.pixels r (simp on at e)
  | inr off ↦ at_result Orders (p, []) r (simp off at e) refl
]

create_shm-Orders :
    (shm : Shm) (p : Panel) (r : Panel × List Action) → create_shm shm p ≡ some r → Orders r
unfolding create_shm
create_shm-Orders shm p r e =
    let (stride, s, e) = bind-some (mul_int p.phys_w 4) e in
    let (size, z, e) = bind-some (mul_int stride p.phys_h) e in
    at_result Orders _ r e (create_shm_of-IsOrdered shm.shm_fd shm p.phys_w p.phys_h stride size p)

-- A configure that is acknowledged, and calls in order.
acknowledged :
    (acts : List Action) (phase : Phase)
    → acknowledge phase ≡ some configured
    → IsOrdered acts
    → speak_all (Action.acknowledged ∷ acts) phase ≡ some configured
unfolding speak_all speak
acknowledged acts phase ok h = simp ok h

-- Whatever the system answers, the calls of `ls_configure` are in order and leave the surface
-- configured.
ls_configure-Orders :
    (cfg : Config) (tls : List Toplevel) (clk : List ℕ) (output_scale : ℕ) (shm : Shm) (w h : ℕ)
    (p : Panel) (r : Panel × List Action) (phase : Phase)
    → acknowledge phase ≡ some configured
    → ls_configure cfg tls clk output_scale shm w h p ≡ some r
    → speak_all r.1 phase ≡ some configured
unfolding ls_configure
ls_configure-Orders cfg tls clk output_scale shm w h p r phase ok e =
    let sc = scale_of output_scale in
    let (phys_w, a, e) = bind-some (mul_int w sc) e in
    let (phys_h, b, e) = bind-some (mul_int h sc) e in
    let (usable, g, e) = bind-some (can_give_back p.pixels) e in
    let q : Panel = record p {
      width = w;
      height = h;
      scale = sc;
      phys_w = phys_w;
      phys_h = phys_h;
    } in
    let (got, c, e) = bind-some (create_shm shm (give_back q).0) e in
    let (drawn, d, e) =
      bind-some (panel_render cfg tls clk (record got.0 { configured = true })) e in
    at_result (λ (r : Panel × List Action). speak_all r.1 phase ≡ some configured) _ r e
      (acknowledged ((give_back q).1 ++ got.1 ++ drawn.1) phase ok (
        IsOrdered-++ ((give_back q).1 ++ got.1) drawn.1
          (IsOrdered-++ (give_back q).1 got.1 (give_back-IsOrdered q)
            (create_shm-Orders shm (give_back q).0 got c))
          (panel_render-Orders cfg tls clk (record got.0 { configured = true }) drawn d)))

-- A configure, with what the system answers, and with the windows, the time and the scale of the
-- output as they are then.
pub record Turn : Type 0 where
  pub shm : Shm
  pub tls : List Toplevel
  pub clk : List ℕ
  pub output_scale : ℕ
  pub w : ℕ
  pub h : ℕ

abbrev pub turns_of : Config → List Turn → Panel → Option (Panel × List Action)
turns_of cfg [] p = some (p, [])
turns_of cfg (t ∷ ts) p = do
  (p', acts) ← ls_configure cfg t.tls t.clk t.output_scale t.shm t.w t.h p
  (p'', more) ← turns_of cfg ts p'
  some (p'', acts ++ more)

turns_of-speak_all :
    (cfg : Config) (ts : List Turn) (p : Panel) (r : Panel × List Action) (phase : Phase)
    → acknowledge phase ≡ some configured
    → turns_of cfg ts p ≡ some r
    → (end : Phase) × (speak_all r.1 phase ≡ some end)
unfolding speak_all
turns_of-speak_all cfg [] p r phase ok e =
    at_result (λ (r : Panel × List Action). (end : Phase) × (speak_all r.1 phase ≡ some end))
      (p, []) r e (phase, refl)
turns_of-speak_all cfg (t ∷ ts) p r phase ok e =
    let (one, a, e) = bind-some (ls_configure cfg t.tls t.clk t.output_scale t.shm t.w t.h p) e in
    let (more, b, e) = bind-some (turns_of cfg ts one.0) e in
    let first = ls_configure-Orders cfg t.tls t.clk t.output_scale t.shm t.w t.h p one phase ok a in
    let (end, rest) = turns_of-speak_all cfg ts one.0 more configured refl b in
    at_result (λ (r : Panel × List Action). (end : Phase) × (speak_all r.1 phase ≡ some end)) _ r e
      (end, speak_all-++ one.1 more.1 phase ∙ (simp first rest))

-- A panel of luna-panel.c that is created and gets any number of configures, whatever the system
-- answers and whatever the windows, the time and the scale are at each, as far as it comes to no undefined behaviour: it makes its calls in the order of the
-- protocol.
pub turns_of-ordered :
    (cfg : Config) (output_scale : ℕ) (ts : List Turn) (r : Panel × List Action)
    → turns_of cfg ts (panel_create cfg output_scale).0 ≡ some r
    → (end : Phase) × (speak_all ((panel_create cfg output_scale).1 ++ r.1) absent ≡ some end)
unfolding panel_create speak_all speak
turns_of-ordered cfg output_scale ts r e =
    turns_of-speak_all cfg ts (panel_create cfg output_scale).0 r awaiting refl e
