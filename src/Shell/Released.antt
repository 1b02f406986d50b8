-- ===== src/Shell/Released.antt =====
-- The panels, the wallpapers and the redraw of shell/src/luna-shell-main.c leave nothing held.
use luna_os_arm.Prelude.{
  ℕ, Bool, true, false, Option, none, some, List, [], ◌∷◌, ◌++◌, ◌≡◌, refl, if◌then◌else◌, ltb, ◌+◌,
  ◌>>=◌,
}
use luna_os_arm.Shell.Buffers.{
  Output, Shm, Action, create_panel_for_output, create_wallpaper_for_output, panel_h_logical,
  panel_surface, wallpaper_surface, paint_panel, gradient,
}
use luna_os_arm.Shell.Pixels.{mul_int}
use luna_os_arm.Shell.Main.{create_all, redraw_all}
use luna_os_arm.Shell.Held.{
  Released, Released-++, with_file-Released, show_buffer-released, panel-IsNeutral,
  wallpaper-IsNeutral, follow_all,
}

-- What code that may be undefined gives, runs to its end.
abbrev pub Releases : Option (List Action) → Type 0
Releases r = (acts : List Action) → r ≡ some acts → Released acts

pub Releases-some : (acts : List Action) → Released acts → Releases (some acts)
Releases-some acts h acts' e = (let same : acts' ≡ acts = cc in rw same h)

pub Releases-if :
    (b : Bool) (x y : Option (List Action))
    → Releases x
    → Releases y
    → Releases (if b then x else y)
Releases-if true x y hx hy = hx
Releases-if false x y hx hy = hy

pub Releases-bind :
    {A : Type 0} (o : Option A) {f : A → Option (List Action)}
    → ((a : A) → Releases (f a))
    → Releases (o >>= f)
Releases-bind none h acts e = cc
Releases-bind (some a) h acts e = h a acts e

-- One after the other.
pub Releases-then :
    (x y : Option (List Action))
    → Releases x
    → Releases y
    → Releases (x >>= λ front. y >>= λ more. some (front ++ more))
Releases-then none y hx hy acts e = cc
Releases-then (some front) none hx hy acts e = cc
Releases-then (some front) (some more) hx hy acts e =
    Releases-some (front ++ more) (Released-++ front more (hx front refl) (hy more refl)) acts e

pub done : Releases (some [])
unfolding follow_all
done = Releases-some [] refl

pub create_panel-Releases : (shm : Shm) (out : Output) → Releases (create_panel_for_output shm out)
unfolding create_panel_for_output
create_panel-Releases shm out = Releases-bind (mul_int panel_h_logical out.scale) (λ phys_h.
    Releases-bind (mul_int out.width 4) (λ stride. Releases-bind (mul_int stride phys_h) (λ size.
      with_file-Released shm _ (λ fd.
        show_buffer-released shm fd size out.width phys_h stride out.scale panel_surface
          (paint_panel out.width phys_h out.scale) panel-IsNeutral))))

pub create_wallpaper-Releases :
    (shade : ℕ → ℕ → ℕ) (shm : Shm) (out : Output)
    → Releases (create_wallpaper_for_output shade shm out)
unfolding create_wallpaper_for_output
create_wallpaper-Releases shade shm out = Releases-bind (mul_int out.width 4) (λ stride.
    Releases-bind (mul_int stride out.height) (λ size. with_file-Released shm _ (λ fd.
      show_buffer-released shm fd size out.width out.height stride out.scale wallpaper_surface
        (gradient shade out.width out.height out.height 0) wallpaper-IsNeutral)))

pub redraw_all-Releases :
    (shms : ℕ → Shm) (n : ℕ) (outs : List Output) → Releases (redraw_all shms n outs)
unfolding redraw_all
redraw_all-Releases shms n [] = done
redraw_all-Releases shms n (out ∷ outs) =
    let rest = redraw_all-Releases shms (n + 1) outs in
    Releases-if (ltb 0 out.width) _ _
      (Releases-then (create_panel_for_output (shms n) out) _ (create_panel-Releases (shms n) out)
        rest)
      rest

-- Whatever the system answers while the shell starts: each call of `create_all` uses what is held,
-- and at the end every descriptor is closed, every mapping unmapped and every pool destroyed.
pub create_all-Released :
    (shade : ℕ → ℕ → ℕ) (shms : ℕ → Shm) (n : ℕ) (outs : List Output) (acts : List Action)
    → create_all shade shms n outs ≡ some acts
    → Released acts
unfolding create_all
create_all-Released shade shms n [] = done
create_all-Released shade shms n (out ∷ outs) =
    let rest = create_all-Released shade shms (n + 2) outs in
    let panel =
      Releases-then (create_panel_for_output (shms (n + 1)) out) _
        (create_panel-Releases (shms (n + 1)) out) rest in
    Releases-if (ltb 0 out.width) _ _
      (Releases-then (create_wallpaper_for_output shade (shms n) out) _
        (create_wallpaper-Releases shade (shms n) out) panel)
      rest
