-- ===== src/Drm/Layout/Tests.antt =====
-- An encoding of commands, and the two PRIME structures.
use luna_os_arm.Prelude.{◌+◌, ◌*◌, ◌%◌, ◌^◌, ◌≡◌, ◌↔◌, refl, false, true, arith}
use luna_os_arm.Drm.Layout.{
  Encoding, prime_handle_to_fd, mode_create_dumb, kernel_struct, user_struct, kernel_number,
  user_number, size_of, offsets,
}
use luna_os_arm.Drm.Layout.Agree.{is_prime, commands_agree}

-- The size and the number, without the direction and the group.
abbrev pub encoding : Encoding
encoding = record {
  ioc = λ d g n s. s % 2 ^ 13 * 256 + n % 256;
  same_size = λ d g n a b hg hn e. omega arith;
  same_number = λ d d' g n m a b hg hn hm e. omega arith;
}

prime_sizes :
    (size_of (kernel_struct prime_handle_to_fd) ≡ 12)
    × (size_of (user_struct prime_handle_to_fd) ≡ 16)
unfolding kernel_struct user_struct
prime_sizes = (refl, refl)

commands_agree_example :
    ((kernel_number encoding mode_create_dumb ≡ user_number encoding mode_create_dumb)
      ↔ (is_prime mode_create_dumb ≡ false))
    × (is_prime mode_create_dumb ≡ true
        → (size_of (kernel_struct mode_create_dumb) ≡ 12)
          × (size_of (user_struct mode_create_dumb) ≡ 16))
    × (is_prime mode_create_dumb ≡ false
        → (size_of (kernel_struct mode_create_dumb) ≡ size_of (user_struct mode_create_dumb))
          × (offsets 0 (kernel_struct mode_create_dumb) ≡ offsets 0 (user_struct mode_create_dumb)))
commands_agree_example = commands_agree encoding mode_create_dumb
