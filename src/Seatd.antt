-- ===== src/Seatd.antt =====
-- The seat daemon (seatd-darwin/seatd-darwin.c): its table of clients, and its handlers. The files
-- and sockets of the system are arguments of each call, what is sent is an output.
pub mod Paths
pub mod Access
pub mod Clients
pub mod Progress
pub mod Race
pub mod Setup
pub mod Daemon
mod Tests
use luna_os_arm.Prelude.{
  ℕ, zero, suc, ◌+◌, ◌^◌, ℤ, pos, negsuc, is_neg, negate, Bool, true, false, not, Option, none,
  some, List, [], ◌∷◌, ◌++◌, ◌==◌, ◌&&◌, ◌||◌, ltb, if◌then◌else◌, get_elem?, set, replicate,
  length,
}
use luna_os_arm.Prelude.Text.{codes, starts_with}
use luna_os_arm.Errno

abbrev pub max_clients : ℕ
max_clients = 16

abbrev pub max_held : ℕ
max_held = 8

abbrev pub msg_open_device : ℕ
msg_open_device = 1

abbrev pub msg_close_device : ℕ
msg_close_device = 2

abbrev pub msg_enable_seat : ℕ
msg_enable_seat = 3

abbrev pub msg_disable_seat : ℕ
msg_disable_seat = 4

-- `struct seatd_msg`; `text` is `data` as a C string, ended by the handler at its last byte.
pub record Message : Type 0 where
  pub type : ℕ
  pub text : List ℕ

-- `struct client`; `held` are the first `held_count` entries of `held_fds`.
pub record Client : Type 0 where
  pub fd : ℤ
  pub pid : ℕ
  pub active : Bool
  pub held : List ℕ

-- What `main` leaves in a slot of `g_clients`.
abbrev pub no_client : Client
no_client = record { fd = negsuc 0; pid = 0; active = false; held = [] }

-- What the daemon does to the system.
pub data Action : Type 0 where
  -- `send_fd(sock, fd, code)`: a reply code, with a descriptor if there is one.
  sent_fd : ℤ → Option ℕ → ℤ → Action
  -- `send(sock, &reply, sizeof(reply), 0)`
  sent : ℤ → ℤ → Action
  closed : ℤ → Action
  -- `dispatch_source_cancel(src)` for a client's slot.
  cancelled : ℕ → Action
  -- A new event source for a client's slot.
  watched : ℕ → Action

-- What `open(path, O_RDWR | O_CLOEXEC)` does: a descriptor, or the errno.
pub data Opened : Type 0 where
  descriptor : ℕ → Opened
  no_access : ℕ → Opened

-- The test of `handle_open_device`: `/dev/dri/` or `/dev/input/`, and anything behind it.
unfoldable pub is_allowed : List ℕ → Bool
is_allowed path = starts_with (codes "/dev/dri/") path || starts_with (codes "/dev/input/") path

-- `if (cl->held_count < 8) cl->held_fds[cl->held_count++] = dev_fd`
abbrev pub hold : ℕ → Client → Client
hold dev_fd cl =
    if ltb (length cl.held) max_held then record cl { held = cl.held ++ (dev_fd ∷ []) } else cl

-- `handle_open_device`
unfoldable pub handle_open_device : (List ℕ → Opened) → Client → List ℕ → Client × List Action
handle_open_device opens cl path =
    if is_allowed path
    then elim (opens path) [
      | no_access errno ↦ (cl, sent_fd cl.fd none (negate errno) ∷ [])
      | descriptor dev_fd ↦
          (hold dev_fd cl, sent_fd cl.fd (some dev_fd) (pos 0) ∷ closed (pos dev_fd) ∷ [])
    ]
    else (cl, sent_fd cl.fd none (negate Errno.perm) ∷ [])

-- The `switch` of `handle_client_message`.
unfoldable pub dispatch_message : (List ℕ → Opened) → Client → Message → Client × List Action
dispatch_message opens cl msg =
    if msg.type == msg_open_device
    then handle_open_device opens cl msg.text
    else if msg.type == msg_close_device
    then (cl, sent cl.fd (pos 0) ∷ [])
    else if (msg.type == msg_enable_seat) || (msg.type == msg_disable_seat)
    then (cl, sent cl.fd (pos 0) ∷ [])
    else (cl, [])

-- `handle_client_message`: `none` is a `recv` of 0 or less.
unfoldable pub handle_client_message :
    (List ℕ → Opened) → Client → Option Message → Client × List Action
handle_client_message opens cl none =
    (record cl { fd = negsuc 0; active = false }, closed cl.fd ∷ [])
handle_client_message opens cl (some msg) = dispatch_message opens cl msg

-- The first slot with a negative descriptor, from slot `i` on.
unfoldable pub free_slot : List Client → ℕ → Option ℕ
free_slot [] i = none
free_slot (cl ∷ cls) i = let rest = free_slot cls (i + 1) in if is_neg cl.fd then some i else rest

abbrev pub new_client : ℤ → ℕ → Client
new_client cfd pid = record { fd = cfd; pid = pid; active = true; held = [] }

-- `accept_client`, with the result of `accept` and the peer's pid.
unfoldable pub accept_client : ℤ → ℕ → List Client → List Client × List Action
accept_client cfd pid cls = if is_neg cfd then (cls, []) else elim (free_slot cls 0) [
  | some i ↦ (set cls i (new_client cfd pid), watched i ∷ [])
  | none ↦ (cls, closed cfd ∷ [])
]

-- `if (g_clients[i].fd < 0) dispatch_source_cancel(src)`
abbrev pub cancel_if_closed : ℕ → Client → List Action
cancel_if_closed i cl = if is_neg cl.fd then cancelled i ∷ [] else []

-- The event handler of a client's source, `slot` being what the table has there.
abbrev pub client_event_at :
    (List ℕ → Opened) → ℕ → Option Message → List Client → Option Client → List Client × List Action
client_event_at opens i msg cls none = (cls, [])
client_event_at opens i msg cls (some cl) =
    let (cl', out) = handle_client_message opens cl msg in
    (set cls i cl', out ++ cancel_if_closed i cl')

unfoldable pub client_event :
    (List ℕ → Opened) → ℕ → Option Message → List Client → List Client × List Action
client_event opens i msg cls = client_event_at opens i msg cls (get_elem? cls i)

-- `g_clients` after `main` has cleared it.
unfoldable pub no_clients : List Client
no_clients = replicate max_clients no_client

-- An event of the daemon's queue: a connection, or a message of the client in a slot.
pub data Event : Type 0 where
  connects : ℤ → ℕ → Event
  speaks : ℕ → Option Message → Event

unfoldable pub step : (List ℕ → Opened) → Event → List Client → List Client × List Action
step opens (connects cfd pid) cls = accept_client cfd pid cls
step opens (speaks i msg) cls = client_event opens i msg cls

-- The events in the order in which the queue runs them.
unfoldable pub run : (List ℕ → Opened) → List Event → List Client → List Client × List Action
run opens [] cls = (cls, [])
run opens (e ∷ es) cls =
    let (cls', out) = step opens e cls in
    let (cls'', more) = run opens es cls' in (cls'', out ++ more)
