-- ===== src/Launcher/Refused.antt =====
-- What the launcher of shell/src/luna-launcher-wallpaper.c does when the system refuses its memory.
use luna_os_arm.Prelude.{
  ℕ, ◌≡◌, refl, inl, inr, ◌⊎◌, Bool-cases, Option-cases, false, none, some, List, ◌>>=◌, none_chain,
}
use luna_os_arm.Shell.Pixels.{mul_int}
use luna_os_arm.Shell.Buffers.{Shm}
use luna_os_arm.Launcher.{App}
use luna_os_arm.Launcher.Draw.{layout}
use luna_os_arm.Launcher.Memory.{Launcher, remake, present, launcher_render, ll_configure}

-- shm_open or mmap gives nothing.
abbrev pub IsRefused : Shm → Type 0
IsRefused shm = (shm.shm_fd ≡ none) ⊎ ((fd : ℕ) × (shm.shm_fd ≡ some fd) × (shm.maps ≡ false))

-- `ll_configure` does not look at what the system answers: with the memory refused, the launcher
-- that is visible is drawn through a pointer without memory, and the one that is not, when it is.
pub ll_configure-refused :
    (display_scale icon_size : ℕ) (apps : List App) (shm : Shm) (w h : ℕ) (l : Launcher)
    → IsRefused shm
    → (ll_configure display_scale icon_size apps shm w h l >>= λ r. launcher_render apps r.0) ≡ none
unfolding ll_configure launcher_render remake present
ll_configure-refused display_scale icon_size apps shm w h l refused =
    none_chain (layout display_scale icon_size l.grid.hover_idx w h) _ _ (λ grid.
      none_chain (mul_int w grid.scale) _ _ (λ pw. none_chain (mul_int h grid.scale) _ _ (λ ph.
        elim (Option-cases (mul_int pw 4)) [
          | inl far ↦ simp far refl
          | inr (stride, near) ↦ elim (Option-cases (mul_int stride ph)) [
            | inl big ↦ simp (near, big) refl
            | inr (size, fits) ↦ elim (Bool-cases l.visible) [
              | inl shown ↦ elim refused [
                | inl closed ↦ simp (near, fits, shown, closed) refl
                | inr (fd, opens, fails) ↦ simp (near, fits, shown, opens, fails) refl
              ]
              | inr hidden ↦ elim refused [
                | inl closed ↦ simp (near, fits, hidden, closed) refl
                | inr (fd, opens, fails) ↦ simp (near, fits, hidden, opens, fails) refl
              ]
            ]
          ]
        ])))
