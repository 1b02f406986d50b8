-- ===== src/Seatd/Tests.antt =====
-- One client asks the seat daemon for the display, and leaves.
use luna_os_arm.Prelude.{
  ℕ, pos, ◌≡◌, refl, inl, inr, true, false, none, some, List, [], ◌∷◌, get_elem?, arith,
}
use luna_os_arm.Prelude.Text.{codes}
use luna_os_arm.Seatd.{
  Client, Message, Action, sent_fd, sent, closed, watched, Opened, descriptor, no_access,
  is_allowed, hold, handle_open_device, dispatch_message, accept_client, client_event, Event,
  connects, speaks, run, new_client, no_client, no_clients, max_clients, msg_open_device,
  msg_close_device, msg_disable_seat,
}
use luna_os_arm.Seatd.Daemon
use luna_os_arm.Seatd.Setup.{parse_args, setup_socket}
use luna_os_arm.Seatd.Access.{Sends, Asks, run-Sends}
use luna_os_arm.Seatd.Race.{accepts, handles, tests, run_halves, run_halves-race}
use luna_os_arm.Seatd.Progress.{Accepted, messages_then, run-accepts}
use luna_os_arm.Seatd.Clients.{IsTable, no_clients-IsTable, run-IsTable}

abbrev card : List ℕ
card = codes "/dev/dri/card0"

-- Every device opens as descriptor 9.
abbrev opens : List ℕ → Opened
opens path = descriptor 9

abbrev ask : Message
ask = record { type = 1; text = card }

abbrev events : List Event
events = connects (pos 5) 100 ∷ speaks 0 (some ask) ∷ speaks 0 none ∷ []

abbrev client : Client
client = new_client (pos 5) 100

sends : Sends (run opens events no_clients).1 9
unfolding run luna_os_arm.Seatd.step accept_client luna_os_arm.Seatd.free_slot no_clients
    client_event luna_os_arm.Seatd.handle_client_message dispatch_message handle_open_device
    is_allowed
sends = inr (inl refl)

run-Sends_example :
    (path : List ℕ) × Asks events path × (is_allowed path ≡ true) × (opens path ≡ descriptor 9)
run-Sends_example = run-Sends opens events no_clients 9 sends

run-IsTable_example : IsTable (run opens events no_clients).0
run-IsTable_example = run-IsTable opens events no_clients no_clients-IsTable

slot_three : get_elem? no_clients 3 ≡ some no_client
unfolding no_clients
slot_three = refl

run-accepts_example :
    Accepted
      (pos 7)
      200
      (run opens (speaks 3 none ∷ messages_then ((4, some ask) ∷ []) (pos 7) 200) no_clients).0
run-accepts_example =
    run-accepts opens 3 no_client ((4, some ask) ∷ []) (pos 7) 200 no_clients slot_three refl

run_halves-race_example :
    (run_halves opens (handles 0 none ∷ accepts (pos 7) 200 ∷ tests 0 ∷ []) (client ∷ no_clients)).1
    ≡ closed (pos 5) ∷ watched 0 ∷ []
run_halves-race_example =
    run_halves-race opens 0 client (pos 7) 200 (client ∷ no_clients) refl
      (λ j c lt e. absurd (omega arith)) refl

abbrev wakes : List Daemon.Wake
wakes =
    Daemon.queued (connects (pos 5) 100)
    ∷ Daemon.signalled Daemon.terminate
    ∷ Daemon.queued (speaks 0 (some ask))
    ∷ []

main-signals_example :
    Daemon.main [] (some 3) true true opens wakes
    ≡ Daemon.serves (parse_args 0 [] Daemon.defaults) 3 (setup_socket (some 3) true true).1 (
      record { clients = (run opens (Daemon.events wakes) no_clients).0; running = false },
      (run opens (Daemon.events wakes) no_clients).1,
    )
main-signals_example = Daemon.main-signals [] 3 opens wakes
