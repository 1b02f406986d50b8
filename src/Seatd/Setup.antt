-- ===== src/Seatd/Setup.antt =====
-- How seatd-darwin.c starts: the options of `main` and the socket. What socket, bind and listen
-- answer is an argument.
use luna_os_arm.Prelude.{
  ℕ, zero, suc, ◌≡◌, refl, inl, inr, Bool, true, false, Option, none, some, List, [], ◌∷◌,
  if◌then◌else◌, Bool-cases, length, ◌≤◌, arith,
}
use luna_os_arm.Prelude.Text.{codes, str_eq}

-- `socket_path` and `group_name`
pub record Options : Type 0 where
  pub socket_path : List ℕ
  pub group_name : List ℕ

-- The body of the loop behind an option that is `-s`: its value, and the arguments behind it. The
-- value is then looked at as an option itself.
abbrev pub is_option : List ℕ → List ℕ → Bool
is_option name arg = str_eq arg name

abbrev set_group : List ℕ → Options → Options
set_group value o = record o { group_name = value }

abbrev set_path : List ℕ → Options → Options
set_path value o = record o { socket_path = value }

-- `if (!strcmp(argv[i], "-g") && i+1 < argc) group_name = argv[++i]`: the options and the arguments
-- that are left.
abbrev pub after_group : (arg : List ℕ) → List (List ℕ) → Options → Options × List (List ℕ)
after_group arg [] o = (o, [])
after_group arg (value ∷ rest) o =
    if is_option (codes "-g") arg then (set_group value o, rest) else (o, value ∷ rest)

-- One turn of the loop: `-s` first, and then `-g` for the argument that `i` points to by then.
abbrev pub after_turn : (arg : List ℕ) → List (List ℕ) → Options → Options × List (List ℕ)
after_turn arg [] o = after_group arg [] o
after_turn arg (value ∷ rest) o =
    if is_option (codes "-s") arg
    then after_group value rest (set_path value o)
    else after_group arg (value ∷ rest) o

-- The loop over the arguments, of which there are at most `n`.
unfoldable pub parse_args : (n : ℕ) → List (List ℕ) → Options → Options
parse_args zero args o = o
parse_args (suc n) [] o = o
parse_args (suc n) (arg ∷ rest) o = parse_args n (after_turn arg rest o).1 (after_turn arg rest o).0

-- What `setup_socket` asks of the system.
pub data Call : Type 0 where
  path_unlinked : Call
  socket_opened : ℕ → Call
  mode_set : Call
  socket_closed : ℕ → Call

-- `setup_socket`: the descriptor, `none` for -1.
unfoldable pub setup_socket : (socket : Option ℕ) → (binds listens : Bool) → Option ℕ × List Call
setup_socket none binds listens = (none, path_unlinked ∷ [])
setup_socket (some fd) false listens =
    (none, path_unlinked ∷ socket_opened fd ∷ socket_closed fd ∷ [])
setup_socket (some fd) true false =
    (none, path_unlinked ∷ socket_opened fd ∷ mode_set ∷ socket_closed fd ∷ [])
setup_socket (some fd) true true = (some fd, path_unlinked ∷ socket_opened fd ∷ mode_set ∷ [])

-- The descriptors that are open after the calls.
abbrev pub open_after : List Call → Option ℕ → Option ℕ
open_after [] held = held
open_after (path_unlinked ∷ cs) held = open_after cs held
open_after (mode_set ∷ cs) held = open_after cs held
open_after (socket_opened fd ∷ cs) held = open_after cs (some fd)
open_after (socket_closed fd ∷ cs) held = open_after cs none

-- On every path `setup_socket` leaves open what it returns, and nothing else.
pub setup_socket-open_after :
    (socket : Option ℕ) (binds listens : Bool)
    → open_after (setup_socket socket binds listens).1 none ≡ (setup_socket socket binds listens).0
unfolding setup_socket
setup_socket-open_after none binds listens = refl
setup_socket-open_after (some fd) false listens = refl
setup_socket-open_after (some fd) true false = refl
setup_socket-open_after (some fd) true true = refl

after_group-length :
    (arg : List ℕ) (rest : List (List ℕ)) (o : Options)
    → length (after_group arg rest o).1 ≤ length rest
after_group-length arg [] o = omega arith
after_group-length arg (value ∷ rest) o = elim (Bool-cases (is_option (codes "-g") arg)) [
  | inl group ↦ simp group (omega arith)
  | inr other ↦ simp other (omega arith)
]

after_turn-length :
    (arg : List ℕ) (rest : List (List ℕ)) (o : Options)
    → length (after_turn arg rest o).1 ≤ length rest
after_turn-length arg [] o = omega arith
after_turn-length arg (value ∷ rest) o = elim (Bool-cases (is_option (codes "-s") arg)) [
  | inl path ↦ simp path (omega (arith, after_group-length value rest (set_path value o)))
  | inr other ↦ simp other (after_group-length arg (value ∷ rest) o)
]

-- The loop over the arguments ends: as many turns as there are arguments are enough, and further
-- ones change nothing.
pub parse_args-enough :
    (n m : ℕ) (args : List (List ℕ)) (o : Options)
    → length args ≤ n
    → n ≤ m
    → parse_args m args o ≡ parse_args n args o
unfolding parse_args
parse_args-enough zero zero args o enough more = refl
parse_args-enough zero (suc m) [] o enough more = refl
parse_args-enough zero (suc m) (arg ∷ rest) o enough more = absurd (omega arith)
parse_args-enough (suc n) zero args o enough more = absurd (omega arith)
parse_args-enough (suc n) (suc m) [] o enough more = refl
parse_args-enough (suc n) (suc m) (arg ∷ rest) o enough more =
    parse_args-enough n m (after_turn arg rest o).1 (after_turn arg rest o).0
      (omega (arith, after_turn-length arg rest o)) (omega arith)
