-- ===== src/EventLoop/Tests.antt =====
-- A loop with one source that is removed, and one that is full.
use luna_os_arm.Prelude.{ℕ, zero, suc, ◌≡◌, pos, true, false, some, List, [], ◌∷◌, ◌++◌}
use luna_os_arm.EventLoop.{
  Loop, Source, create, no_entry, Call, adds_fd, adds_timer, removes, run, destroy, Kevent,
}
use luna_os_arm.EventLoop.Counts.{created_count, released_count}
use luna_os_arm.EventLoop.Balance.{run-destroy}

abbrev calls : List Call
calls = adds_fd (pos 5) 1 7 0 ∷ adds_timer 8 0 ∷ removes 0 ∷ removes 0 ∷ []

run-destroy_example :
    released_count ((run calls create).1 ++ destroy (run calls create).0)
    ≡ created_count (run calls create).1
run-destroy_example = run-destroy calls

abbrev pairs : ℕ → List Call
pairs zero = []
pairs (suc n) = adds_fd (pos 5) 1 7 0 ∷ removes n ∷ pairs n

abbrev live : Source
live = record no_entry { fd_func = some 7 }

abbrev loop : Loop
loop = record { sources = live ∷ []; source_count = 1 }

abbrev writable : Kevent
writable = record { udata = some 0; is_write = true; is_eof = false; is_error = false }
