-- ===== src/Drm/Layout/Agree.antt =====
-- Where the kernel extension and drm_darwin.h agree on the commands of /dev/dri/card0.
use luna_os_arm.Prelude.{
  ℕ, ◌≡◌, ◌^◌, ◌<◌, refl, ap, sym, ◌∙◌, ◌↔◌, arith, Bool, true, false, Option, none, some, ◌==◌,
  if◌then◌else◌,
}
use luna_os_arm.Drm.Layout.{
  Command, Encoding, offsets, size_of, kernel_struct, user_struct, kernel_number, user_number, nr,
  version, gem_close, prime_handle_to_fd, prime_fd_to_handle, mode_getresources, mode_getcrtc,
  mode_setcrtc, mode_getencoder, mode_getconnector, mode_addfb, mode_rmfb, mode_create_dumb,
  mode_map_dumb, mode_destroy_dumb,
}

abbrev pub is_prime : Command → Bool
is_prime prime_handle_to_fd = true
is_prime prime_fd_to_handle = true
is_prime _ = false

-- The number that a client passes for a command is the one that the kernel extension declares exactly
-- if the command is neither of the two PRIME commands. The argument of a PRIME command has 12 bytes in
-- the kernel extension and 16 in drm_darwin.h; the argument of every other command has the same size,
-- and its fields the same offsets, in both files.
pub commands_agree :
    (e : Encoding) (c : Command)
    → ((kernel_number e c ≡ user_number e c) ↔ (is_prime c ≡ false))
      × (is_prime c ≡ true → (size_of (kernel_struct c) ≡ 12) × (size_of (user_struct c) ≡ 16))
      × (is_prime c ≡ false
          → (size_of (kernel_struct c) ≡ size_of (user_struct c))
            × (offsets 0 (kernel_struct c) ≡ offsets 0 (user_struct c)))
unfolding kernel_number user_number kernel_struct user_struct
commands_agree e version = ((λ same. refl, λ h. refl), λ h. cc, λ h. (refl, refl))
commands_agree e gem_close = ((λ same. refl, λ h. refl), λ h. cc, λ h. (refl, refl))
commands_agree e prime_handle_to_fd = (
  (
    λ same.
        (let sizes = e.same_size _ _ _ 12 16 (omega arith) (omega arith) same in
          absurd (omega arith)),
    λ h. cc,
  ),
  λ h. (refl, refl),
  λ h. cc,
)
commands_agree e prime_fd_to_handle = (
  (
    λ same.
        (let sizes = e.same_size _ _ _ 12 16 (omega arith) (omega arith) same in
          absurd (omega arith)),
    λ h. cc,
  ),
  λ h. (refl, refl),
  λ h. cc,
)
commands_agree e mode_getresources = ((λ same. refl, λ h. refl), λ h. cc, λ h. (refl, refl))
commands_agree e mode_getcrtc = ((λ same. refl, λ h. refl), λ h. cc, λ h. (refl, refl))
commands_agree e mode_setcrtc = ((λ same. refl, λ h. refl), λ h. cc, λ h. (refl, refl))
commands_agree e mode_getencoder = ((λ same. refl, λ h. refl), λ h. cc, λ h. (refl, refl))
commands_agree e mode_getconnector = ((λ same. refl, λ h. refl), λ h. cc, λ h. (refl, refl))
commands_agree e mode_addfb = ((λ same. refl, λ h. refl), λ h. cc, λ h. (refl, refl))
commands_agree e mode_rmfb = ((λ same. refl, λ h. refl), λ h. cc, λ h. (refl, refl))
commands_agree e mode_create_dumb = ((λ same. refl, λ h. refl), λ h. cc, λ h. (refl, refl))
commands_agree e mode_map_dumb = ((λ same. refl, λ h. refl), λ h. cc, λ h. (refl, refl))
commands_agree e mode_destroy_dumb = ((λ same. refl, λ h. refl), λ h. cc, λ h. (refl, refl))

of_nr : ℕ → Option Command
of_nr n =
    if n == 0x0
    then some version
    else if n == 0x9
    then some gem_close
    else if n == 0x2d
    then some prime_handle_to_fd
    else if n == 0x2e
    then some prime_fd_to_handle
    else if n == 0xa0
    then some mode_getresources
    else if n == 0xa1
    then some mode_getcrtc
    else if n == 0xa2
    then some mode_setcrtc
    else if n == 0xa6
    then some mode_getencoder
    else if n == 0xa7
    then some mode_getconnector
    else if n == 0xae
    then some mode_addfb
    else if n == 0xaf
    then some mode_rmfb
    else if n == 0xb2
    then some mode_create_dumb
    else if n == 0xb3
    then some mode_map_dumb
    else if n == 0xb4
    then some mode_destroy_dumb
    else none

of_nr-nr : (c : Command) → of_nr (nr c) ≡ some c
unfolding of_nr nr
of_nr-nr version = refl
of_nr-nr gem_close = refl
of_nr-nr prime_handle_to_fd = refl
of_nr-nr prime_fd_to_handle = refl
of_nr-nr mode_getresources = refl
of_nr-nr mode_getcrtc = refl
of_nr-nr mode_setcrtc = refl
of_nr-nr mode_getencoder = refl
of_nr-nr mode_getconnector = refl
of_nr-nr mode_addfb = refl
of_nr-nr mode_rmfb = refl
of_nr-nr mode_create_dumb = refl
of_nr-nr mode_map_dumb = refl
of_nr-nr mode_destroy_dumb = refl

pub of_numbers : (c d : Command) → nr c ≡ nr d → c ≡ d
of_numbers c d same =
    let both : some c ≡ some d = sym (of_nr-nr c) ∙ ap of_nr same ∙ of_nr-nr d in cc

nr-small : (c : Command) → nr c < 2 ^ 8
unfolding nr
nr-small version = omega arith
nr-small gem_close = omega arith
nr-small prime_handle_to_fd = omega arith
nr-small prime_fd_to_handle = omega arith
nr-small mode_getresources = omega arith
nr-small mode_getcrtc = omega arith
nr-small mode_setcrtc = omega arith
nr-small mode_getencoder = omega arith
nr-small mode_getconnector = omega arith
nr-small mode_addfb = omega arith
nr-small mode_rmfb = omega arith
nr-small mode_create_dumb = omega arith
nr-small mode_map_dumb = omega arith
nr-small mode_destroy_dumb = omega arith

-- No two commands of the kernel extension have one number, so that its switch tells them apart.
pub kernel_number_injective :
    (e : Encoding) (c d : Command) → kernel_number e c ≡ kernel_number e d → c ≡ d
unfolding kernel_number
kernel_number_injective e c d same =
    of_numbers c d
      (e.same_number _ _ _ (nr c) (nr d) _ _ (omega arith) (nr-small c) (nr-small d) same)

-- The number of the kernel extension is the one that a client passes just where both name one
-- command, when it is not a PRIME command.
pub kernel_number-user_number :
    (e : Encoding) (c d : Command)
    → is_prime c ≡ false
    → (kernel_number e c ≡ user_number e d) ↔ (c ≡ d)
unfolding kernel_number user_number
kernel_number-user_number e c d proper = (
  λ same.
      of_numbers c d
        (e.same_number _ _ _ (nr c) (nr d) _ _ (omega arith) (nr-small c) (nr-small d) same),
  λ same. (let (agree, _, _) = commands_agree e c in agree.1 proper ∙ ap (user_number e) same),
)
