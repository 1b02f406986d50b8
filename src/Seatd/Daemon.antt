-- ===== src/Seatd/Daemon.antt =====
-- The life of the seat daemon (seatd-darwin/seatd-darwin.c: main, sig_handler): from its arguments to
-- what the queue runs after dispatch_main, with the signals that arrive.
use luna_os_arm.Prelude.{
  ℕ, ◌≡◌, refl, ap, ◌∙◌, Bool, true, false, not, ◌&&◌, ◌||◌, Option, none, some, List, [], ◌∷◌,
  ◌++◌, length, arith,
}
use luna_os_arm.Prelude.Text.{codes}
use luna_os_arm.Seatd.{Client, Opened, Event, Action, step, run, no_clients}
use luna_os_arm.Seatd.Setup.{Options, Call, parse_args, setup_socket}

pub data Signal : Type 0 where
  interrupt terminate broken_pipe : Signal

-- What happens to a daemon that serves: a source of the queue fires, or a signal arrives.
pub data Wake : Type 0 where
  queued : Event → Wake
  signalled : Signal → Wake

-- `g_clients` and `g_running`
pub record Daemon : Type 0 where
  pub clients : List Client
  pub running : Bool

-- `sig_handler`, which SIGINT and SIGTERM have; SIGPIPE is ignored.
unfoldable pub sig_handler : Signal → Daemon → Daemon
sig_handler interrupt d = record d { running = false }
sig_handler terminate d = record d { running = false }
sig_handler broken_pipe d = d

unfoldable pub wake : (List ℕ → Opened) → Wake → Daemon → Daemon × List Action
wake opens (queued e) d =
    let (cls, out) = step opens e d.clients in (record d { clients = cls }, out)
wake opens (signalled s) d = (sig_handler s d, [])

-- `dispatch_main`, which does not return: the daemon after some of what happens.
unfoldable pub serve : (List ℕ → Opened) → List Wake → Daemon → Daemon × List Action
serve opens [] d = (d, [])
serve opens (w ∷ ws) d =
    let (d', out) = wake opens w d in let (d'', more) = serve opens ws d' in (d'', out ++ more)

pub data Outcome : Type 0 where
  exited : (code : ℕ) → List Call → Outcome
  serves : Options → (server_fd : ℕ) → List Call → Daemon × List Action → Outcome

-- `SEATD_SOCKET` and `VIDEO_GROUP`
abbrev pub defaults : Options
defaults = record { socket_path = codes "/run/seatd.sock"; group_name = codes "video" }

abbrev pub idle : Daemon
idle = record { clients = no_clients; running = true }

abbrev pub after_setup : Options → (List ℕ → Opened) → List Wake → Option ℕ × List Call → Outcome
after_setup o opens ws (none, calls) = exited 1 calls
after_setup o opens ws (some fd, calls) = serves o fd calls (serve opens ws idle)

-- `main`, with the arguments behind the program's name and what socket, bind and listen answer.
unfoldable pub main :
    (args : List (List ℕ)) (socket : Option ℕ) (binds listens : Bool)
    → (List ℕ → Opened)
    → List Wake
    → Outcome
main args socket binds listens opens ws =
    after_setup (parse_args (length args) args defaults) opens ws
      (setup_socket socket binds listens)

-- What the queue ran.
abbrev pub events : List Wake → List Event
events [] = []
events (queued e ∷ ws) = e ∷ events ws
events (signalled s ∷ ws) = events ws

abbrev pub is_stop : Signal → Bool
is_stop broken_pipe = false
is_stop _ = true

-- Whether SIGINT or SIGTERM was among it.
abbrev pub stopped : List Wake → Bool
stopped [] = false
stopped (queued e ∷ ws) = stopped ws
stopped (signalled s ∷ ws) = is_stop s || stopped ws

abbrev served : (List ℕ → Opened) → List Wake → Daemon → Daemon × List Action
served opens ws d = (
  record { clients = (run opens (events ws) d.clients).0; running = d.running && not (stopped ws) },
  (run opens (events ws) d.clients).1,
)

serve_lem :
    (opens : List ℕ → Opened) (ws : List Wake) (d : Daemon) → serve opens ws d ≡ served opens ws d
unfolding serve wake run sig_handler
serve_lem opens [] d = ground arith
serve_lem opens (queued e ∷ ws) d =
    simp (serve_lem opens ws (record d { clients = (step opens e d.clients).0 })) refl
serve_lem opens (signalled interrupt ∷ ws) d =
    serve_lem opens ws (record d { running = false }) ∙ ground arith
serve_lem opens (signalled terminate ∷ ws) d =
    serve_lem opens ws (record d { running = false }) ∙ ground arith
serve_lem opens (signalled broken_pipe ∷ ws) d = serve_lem opens ws d

-- SIGINT and SIGTERM clear `g_running`, and nothing else comes of them: with whatever signals in
-- between, a daemon that got its socket has the clients, and has answered, as if only the events of
-- the queue had come.
pub main-signals :
    (args : List (List ℕ)) (fd : ℕ) (opens : List ℕ → Opened) (ws : List Wake)
    → main args (some fd) true true opens ws
      ≡ serves (parse_args (length args) args defaults) fd (setup_socket (some fd) true true).1 (
        record { clients = (run opens (events ws) no_clients).0; running = not (stopped ws) },
        (run opens (events ws) no_clients).1,
      )
unfolding main setup_socket
main-signals args fd opens ws =
    ap
      (λ (r : Daemon × List Action).
        serves (parse_args (length args) args defaults) fd (setup_socket (some fd) true true).1 r)
      (serve_lem opens ws idle)
