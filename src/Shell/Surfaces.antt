-- ===== src/Shell/Surfaces.antt =====
-- The layer surfaces that shell/src/luna-shell-main.c makes: one for each redraw of each panel.
use luna_os_arm.Prelude.{
  ℕ, ◌+◌, ◌≡◌, refl, inl, inr, Option, none, some, List, [], ◌∷◌, ◌++◌, ltb, if◌then◌else◌, ◌>>=◌,
  arith, Option-cases, Bool-cases, replicate, ◌/◌,
}
use luna_os_arm.Shell.Pixels.{mul_int}
use luna_os_arm.Shell.Buffers.{
  Output, Action, create_shm_file, create_panel_for_output, hand_over, panel_surface, paint_panel,
  panel_h_logical,
}
use luna_os_arm.Shell.Main.{redraw_all}
use luna_os_arm.Shell.Drawn.{works}

abbrev layers : Action → ℕ
layers (Action.layer_surface l) = 1
layers a = 0

abbrev pub surfaces : List Action → ℕ
surfaces [] = 0
surfaces (a ∷ acts) = layers a + surfaces acts

-- The outputs that are drawn on.
abbrev pub drawn_on : List Output → ℕ
drawn_on [] = 0
drawn_on (out ∷ outs) = if ltb 0 out.width then 1 + drawn_on outs else drawn_on outs

-- What code that may be undefined gives, makes `n` surfaces.
abbrev Makes : ℕ → Option (List Action) → Type 0
Makes n r = (acts : List Action) → r ≡ some acts → surfaces acts ≡ n

surfaces-++ : (xs ys : List Action) → surfaces (xs ++ ys) ≡ surfaces xs + surfaces ys
surfaces-++ [] ys = omega arith
surfaces-++ (a ∷ xs) ys = omega (arith, surfaces-++ xs ys)

Makes-bind :
    {A : Type 0} {n : ℕ} (o : Option A) {f : A → Option (List Action)}
    → ((a : A) → Makes n (f a))
    → Makes n (o >>= f)
Makes-bind none h acts e = cc
Makes-bind (some a) h acts e = h a acts e

Makes-then :
    (m n : ℕ) (x y : Option (List Action))
    → Makes m x
    → Makes n y
    → Makes (m + n) (x >>= λ front. y >>= λ more. some (front ++ more))
Makes-then m n none y hx hy acts e = cc
Makes-then m n (some front) none hx hy acts e = cc
Makes-then m n (some front) (some more) hx hy acts e =
    let same : acts ≡ front ++ more = cc in
    rw same (omega (arith, surfaces-++ front more, hx front refl, hy more refl))

create_panel-Makes : (fd : ℕ) (out : Output) → Makes 1 (create_panel_for_output (works fd) out)
unfolding create_panel_for_output create_shm_file
create_panel-Makes fd out = Makes-bind (mul_int panel_h_logical out.scale) (λ phys_h.
    Makes-bind (mul_int out.width 4) (λ stride. Makes-bind (mul_int stride phys_h) (λ size acts e.
      elim (Option-cases (paint_panel out.width phys_h out.scale (replicate (size / 4) 0))) [
        | inl outside ↦ absurd (ground (arith, e))
        | inr (px, inside) ↦
            let same : acts
                ≡ Action.opened fd
                  ∷ Action.unlinked
                  ∷ (Action.mapped size ∷ panel_surface
                      ++ hand_over fd size out.width phys_h stride out.scale px) =
              ground (arith, e) in
            rw same refl
      ])))

-- When the system makes every buffer, a redraw makes a layer surface for each output that it draws on,
-- though each of them has one.
pub redraw_all-Makes :
    (n : ℕ) (outs : List Output) (fds : ℕ → ℕ)
    → Makes (drawn_on outs) (redraw_all (λ i. works (fds i)) n outs)
unfolding redraw_all
redraw_all-Makes n [] fds acts e = (let same : acts ≡ [] = cc in rw same refl)
redraw_all-Makes n (out ∷ outs) fds acts e =
    let rest = redraw_all-Makes (n + 1) outs fds in
    elim (Bool-cases (ltb 0 out.width)) [
      | inr off ↦ simp off (rest acts (simp off at e))
      | inl on ↦ simp on (
          Makes-then 1 (drawn_on outs) (create_panel_for_output (works (fds n)) out) _
            (create_panel-Makes (fds n) out) rest acts (simp on at e))
    ]
