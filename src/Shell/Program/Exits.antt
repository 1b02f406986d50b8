-- ===== src/Shell/Program/Exits.antt =====
-- What the main program of shell/src/luna-shell-main.c returns, and that it leaves nothing held.
use luna_os_arm.Prelude.{
  ℕ, zero, suc, ◌+◌, ◌*◌, ◌-◌, ◌≡◌, refl, subst, ◌∙◌, Bool, true, false, ◌&&◌, ◌||◌, Option, none,
  some, List, [], ◌∷◌, ◌++◌, ◌==◌, ltb, if◌then◌else◌, length, get_elem?, arith, Bool-cases, inl,
  inr, bind-some,
}
use luna_os_arm.Shell.Buffers.{
  Output, Shm, Action, create_panel_for_output, create_wallpaper_for_output,
}
use luna_os_arm.Shell.Main.{
  Shell, initial, Interface, registry_global, seat_capabilities, kb_key, is_ready, redraw_all,
}
use luna_os_arm.Shell.Held.{Released, Released-++}
use luna_os_arm.Shell.Released.{
  Releases, Releases-if, Releases-then, done, create_panel-Releases, create_wallpaper-Releases,
  redraw_all-Releases,
}
use luna_os_arm.Shell.Program.{
  News, announced, hear, hear_all, is_told, create_for, create_each, serve, World, with_globals,
  main,
}

or_assoc : (a b c : Bool) → ((a || b) || c) ≡ (a || (b || c))
or_assoc true b c = refl
or_assoc false b c = refl

-- What a shell has bound after some news.
record Knows (news : List News) (s t : Shell) : Type 0 where
  compositor : t.compositor ≡ (s.compositor || is_told Interface.compositor news)
  shm : t.shm ≡ (s.shm || is_told Interface.shm news)
  layer_shell : t.layer_shell ≡ (s.layer_shell || is_told Interface.layer_shell news)

hear-Knows : (n : News) (s : Shell) → Knows (n ∷ []) s (hear n s)
unfolding hear registry_global seat_capabilities kb_key
hear-Knows (announced Interface.compositor version) s = ground arith
hear-Knows (announced Interface.shm version) s = ground arith
hear-Knows (announced Interface.seat version) s = ground arith
hear-Knows (announced Interface.layer_shell version) s = ground arith
hear-Knows (announced Interface.output version) s = ground arith
hear-Knows (announced Interface.other version) s = ground arith
hear-Knows _ s = ground arith

told-cons :
    (i : Interface) (n : News) (news : List News)
    → is_told i (n ∷ news) ≡ (is_told i (n ∷ []) || is_told i news)
told-cons i (announced iface version) news = ground arith
told-cons i _ news = refl

hear_all-Knows : (news : List News) (s : Shell) → Knows news s (hear_all news s)
unfolding hear_all
hear_all-Knows [] s = ground arith
hear_all-Knows (n ∷ news) s =
    let now = hear-Knows n s in
    let later = hear_all-Knows news (hear n s) in
    record {
      compositor =
          ground (arith, now.compositor, later.compositor, told-cons Interface.compositor n news);
      shm = ground (arith, now.shm, later.shm, told-cons Interface.shm n news);
      layer_shell =
          ground
            (arith, now.layer_shell, later.layer_shell, told-cons Interface.layer_shell n news);
    }

-- All that the program does not run without.
abbrev pub has_all : List News → Bool
has_all news =
    is_told Interface.compositor news
    && is_told Interface.shm news
    && is_told Interface.layer_shell news

is_ready-hear_all : (news : List News) → is_ready (hear_all news initial) ≡ has_all news
is_ready-hear_all news =
    let knows = hear_all-Knows news initial in
    simp (knows.compositor, knows.shm, knows.layer_shell) refl

create_for-Releases :
    (shade : ℕ → ℕ → ℕ) (shms : ℕ → Shm) (k : ℕ) (out : Option Output)
    → Releases (create_for shade shms k out)
create_for-Releases shade shms k none = done
create_for-Releases shade shms k (some out) =
    Releases-if (ltb 0 out.width) _ _
      (Releases-then (create_wallpaper_for_output shade (shms (2 * k)) out)
        (create_panel_for_output (shms (2 * k + 1)) out)
        (create_wallpaper-Releases shade (shms (2 * k)) out)
        (create_panel-Releases (shms (2 * k + 1)) out))
      done

create_each-Released :
    (shade : ℕ → ℕ → ℕ) (shms : ℕ → Shm) (told : ℕ → List News) (k : ℕ) (s s' : Shell)
    (acts : List Action)
    → create_each shade shms told k s ≡ some (s', acts)
    → Released acts
unfolding create_each
create_each-Released shade shms told zero s s' acts e =
    (let same : [] ≡ acts = cc in subst Released same (done [] refl))
create_each-Released shade shms told (suc k) s s' acts e =
    let here = hear_all (told k) s in
    let at = get_elem? here.outputs (length here.outputs - 1 - k) in
    let (front, made, e') = bind-some (create_for shade shms k at) e in
    let ((last, more), others, e'') = bind-some (create_each shade shms told k here) e' in
    let same : front ++ more ≡ acts = cc in
    subst Released same (
      Released-++ front more (create_for-Releases shade shms k at front made)
        (create_each-Released shade shms told k here last more others))

pub serve-Releases :
    (shms : ℕ → ℕ → Shm) (redraws last_sec : ℕ) (turns : List (List News × ℕ)) (s : Shell)
    → Releases (serve shms redraws last_sec turns s)
unfolding serve
serve-Releases shms redraws last_sec [] s = done
serve-Releases shms redraws last_sec ((news, now) ∷ turns) s =
    Releases-if (now == last_sec) _ _ (serve-Releases shms redraws last_sec turns (hear_all news s))
      (Releases-then (redraw_all (shms redraws) 0 (hear_all news s).outputs) _
        (redraw_all-Releases (shms redraws) 0 (hear_all news s).outputs)
        (serve-Releases shms (redraws + 1) now turns (hear_all news s)))

-- What the program returns and asked for.
record IsExit (expected : ℕ) (r : ℕ × List Action) : Type 0 where
  code : r.0 ≡ expected
  released : Released r.1

with_globals-IsExit :
    (w : World) (s : Shell) (r : ℕ × List Action) → with_globals w s ≡ some r → IsExit 0 r
with_globals-IsExit w s r e =
    let ((s', created), made, e') =
      bind-some (create_each w.shade w.shms w.told (length s.outputs) s) e in
    let (acts, served, e'') = bind-some (serve w.redraw_shms 0 0 w.turns s') e' in
    let same : (0, created ++ acts) ≡ r = cc in
    subst (IsExit 0) same (record {
      code = refl;
      released =
          Released-++ created acts
            (create_each-Released w.shade w.shms w.told (length s.outputs) s s' created made)
            (serve-Releases w.redraw_shms 0 0 w.turns s' acts served);
    })

refused-IsExit : (r : ℕ × List Action) → some (1, []) ≡ some r → IsExit 1 r
refused-IsExit r e =
    (let same : (1, []) ≡ r = cc in
      subst (IsExit 1) same (record { code = refl; released = done [] refl }))

main-IsExit :
    (w : World) (r : ℕ × List Action)
    → main w ≡ some r
    → IsExit (if w.connects && has_all w.heard then 0 else 1) r
unfolding main
main-IsExit w r e = elim (Bool-cases w.connects) [
  | inr lost ↦ simp lost (refused-IsExit r (simp lost at e))
  | inl there ↦ elim (Bool-cases (has_all w.heard)) [
    | inl all ↦
        let ready : is_ready (hear_all w.heard initial) ≡ true = is_ready-hear_all w.heard ∙ all in
        simp (there, all)
          (with_globals-IsExit w (hear_all w.heard initial) r (simp (there, ready) at e))
    | inr lacks ↦
        let ready : is_ready (hear_all w.heard initial) ≡ false =
          is_ready-hear_all w.heard ∙ lacks in
        simp (there, lacks) (refused-IsExit r (simp (there, ready) at e))
  ]
]

-- Whatever the compositor tells the shell and whatever the system answers, if the shell comes to no
-- undefined behaviour and a dispatch fails in the end: it returns 0 if it is connected and has heard of wl_compositor, wl_shm
-- and the layer shell in its two round trips, and 1 if not; and each of its calls uses what is held, and in
-- the end every descriptor is closed, every mapping unmapped and every pool destroyed.
pub main-exits :
    (w : World) (code : ℕ) (acts : List Action)
    → main w ≡ some (code, acts)
    → (code ≡ (if w.connects && has_all w.heard then 0 else 1)) × Released acts
main-exits w code acts e = let exit = main-IsExit w (code, acts) e in (exit.code, exit.released)
