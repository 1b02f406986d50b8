-- ===== src/Shim/Switch.antt =====
-- The `switch` of `drm_ioctl` (drm-shim/kern/IODRMShim.cpp) over the command numbers, on the numbers
-- that the clients of drm_darwin.h pass.
use luna_os_arm.Prelude.{
  ℕ, ◌≡◌, refl, ◌∙◌, ◌||◌, ap, sym, ==_iff, Bool-cases, inl, inr, Bool, true, false, Option, none,
  some, List, [], ◌∷◌, ◌==◌, if◌then◌else◌,
}
use luna_os_arm.Errno
use luna_os_arm.Drm
use luna_os_arm.Drm.{Request}
use luna_os_arm.Drm.Layout.{
  Command, Encoding, kernel_number, user_number, nr, version, gem_close, prime_handle_to_fd,
  prime_fd_to_handle, mode_getresources, mode_getcrtc, mode_setcrtc, mode_getencoder,
  mode_getconnector, mode_addfb, mode_rmfb, mode_create_dumb, mode_map_dumb, mode_destroy_dumb,
}
use luna_os_arm.Drm.Layout.Agree.{is_prime, of_numbers, kernel_number-user_number}
use luna_os_arm.Shim.{Shim}
use luna_os_arm.Shim.Dispatch.{handle_ioctl}

-- The `case` labels, in their order.
abbrev cases : List Command
cases =
    version ∷ mode_getresources ∷ mode_getconnector ∷ mode_getencoder ∷ mode_getcrtc ∷ mode_setcrtc
    ∷ mode_addfb ∷ mode_create_dumb ∷ mode_map_dumb ∷ mode_destroy_dumb ∷ gem_close ∷ []

-- The label that a number reaches; `none` is `default`.
find_case : Encoding → ℕ → List Command → Option Command
find_case e cmd [] = none
find_case e cmd (c ∷ cs) = if kernel_number e c == cmd then some c else find_case e cmd cs

unfoldable pub switch : Encoding → ℕ → Option Command
unfolding find_case
switch e cmd = find_case e cmd cases

-- The command of a request.
unfoldable pub command_of : Request → Option Command
command_of (Drm.version v) = some version
command_of (Drm.get_resources r) = some mode_getresources
command_of (Drm.get_connector c) = some mode_getconnector
command_of (Drm.get_encoder e) = some mode_getencoder
command_of (Drm.get_crtc c) = some mode_getcrtc
command_of (Drm.set_crtc c) = some mode_setcrtc
command_of (Drm.add_fb f) = some mode_addfb
command_of (Drm.rm_fb b) = some mode_rmfb
command_of (Drm.create_dumb r) = some mode_create_dumb
command_of (Drm.map_dumb r) = some mode_map_dumb
command_of (Drm.destroy_dumb h) = some mode_destroy_dumb
command_of (Drm.gem_close h) = some gem_close
command_of (Drm.prime_handle_to_fd p) = some prime_handle_to_fd
command_of (Drm.prime_fd_to_handle p) = some prime_fd_to_handle
command_of (Drm.other n) = none

-- RMFB has no `case`, and the PRIME numbers have none either.
abbrev pub is_served : Command → Bool
is_served mode_rmfb = false
is_served prime_handle_to_fd = false
is_served prime_fd_to_handle = false
is_served _ = true

-- The first label that is the command.
find_same : Command → List Command → Option Command
find_same c [] = none
find_same c (d ∷ ds) = if nr d == nr c then some d else find_same c ds

any_prime : List Command → Bool
any_prime [] = false
any_prime (c ∷ cs) = is_prime c || any_prime cs

nr_injective : (c d : Command) → nr c ≡ nr d → c ≡ d
nr_injective c d same = of_numbers c d same

same_test :
    (e : Encoding) (c d : Command)
    → is_prime c ≡ false
    → (kernel_number e c == user_number e d) ≡ (nr c == nr d)
same_test e c d proper =
    let (to, from) = kernel_number-user_number e c d proper in
    elim (Bool-cases (nr c == nr d)) [
      | inl eq ↦
          let same = nr_injective c d ((==_iff (nr c) (nr d)).0 eq) in
          (==_iff (kernel_number e c) (user_number e d)).1 (from same) ∙ sym eq
      | inr ne ↦ elim (Bool-cases (kernel_number e c == user_number e d)) [
        | inl eq ↦
            let same = to ((==_iff (kernel_number e c) (user_number e d)).0 eq) in
            let also = (==_iff (nr c) (nr d)).1 (ap nr same) in cc
        | inr differ ↦ differ ∙ sym ne
      ]
    ]

or-false : (a : Bool) {b : Bool} → (a || b) ≡ false → (a ≡ false) × (b ≡ false)
or-false true h = cc
or-false false h = (refl, h)

find_case-user_number :
    (e : Encoding) (c : Command) (cs : List Command)
    → any_prime cs ≡ false
    → find_case e (user_number e c) cs ≡ find_same c cs
unfolding find_case find_same any_prime
find_case-user_number e c [] proper = refl
find_case-user_number e c (d ∷ ds) proper =
    let (here, there) = or-false (is_prime d) proper in
    rw (same_test e d c here) rw (find_case-user_number e c ds there) refl

find_same_lem : (c : Command) → find_same c cases ≡ (if is_served c then some c else none)
unfolding find_same nr
find_same_lem version = refl
find_same_lem gem_close = refl
find_same_lem prime_handle_to_fd = refl
find_same_lem prime_fd_to_handle = refl
find_same_lem mode_getresources = refl
find_same_lem mode_getcrtc = refl
find_same_lem mode_setcrtc = refl
find_same_lem mode_getencoder = refl
find_same_lem mode_getconnector = refl
find_same_lem mode_addfb = refl
find_same_lem mode_rmfb = refl
find_same_lem mode_create_dumb = refl
find_same_lem mode_map_dumb = refl
find_same_lem mode_destroy_dumb = refl

unserved :
    (contiguous : ℕ → Option ℕ) (req : Request) (c : Command) (s : Shim)
    → command_of req ≡ some c
    → is_served c ≡ false
    → handle_ioctl contiguous req s ≡ (Errno.notty, req, s)
unfolding command_of handle_ioctl
unserved contiguous (Drm.rm_fb b) c s h off = refl
unserved contiguous (Drm.prime_handle_to_fd p) c s h off = refl
unserved contiguous (Drm.prime_fd_to_handle p) c s h off = refl
unserved contiguous (Drm.other n) c s h off = refl
unserved contiguous (Drm.version v) c s h off = cc
unserved contiguous (Drm.get_resources r) c s h off = cc
unserved contiguous (Drm.get_connector d) c s h off = cc
unserved contiguous (Drm.get_encoder d) c s h off = cc
unserved contiguous (Drm.get_crtc d) c s h off = cc
unserved contiguous (Drm.set_crtc d) c s h off = cc
unserved contiguous (Drm.add_fb f) c s h off = cc
unserved contiguous (Drm.create_dumb r) c s h off = cc
unserved contiguous (Drm.map_dumb r) c s h off = cc
unserved contiguous (Drm.destroy_dumb d) c s h off = cc
unserved contiguous (Drm.gem_close d) c s h off = cc

-- The number that a client of drm_darwin.h passes for a command reaches the `case` of that command
-- when the command is neither RMFB nor one of the two PRIME commands. Each of those three reaches
-- no `case`: its request gets ENOTTY, and neither the request nor the shim changes.
pub switch-user_number :
    (e : Encoding) (contiguous : ℕ → Option ℕ) (req : Request) (c : Command) (s : Shim)
    → command_of req ≡ some c
    → (switch e (user_number e c) ≡ (if is_served c then some c else none))
      × (is_served c ≡ false → handle_ioctl contiguous req s ≡ (Errno.notty, req, s))
unfolding switch any_prime
switch-user_number e contiguous req c s is =
    (find_case-user_number e c cases refl ∙ find_same_lem c, unserved contiguous req c s is)
