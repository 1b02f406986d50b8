-- ===== src/Seatd/Progress.antt =====
-- Connections after a client of seatd-darwin.c has gone.
use luna_os_arm.Prelude.{
  ℕ, ℤ, is_neg, ◌≡◌, refl, sym, ◌∙◌, subst, inl, inr, true, false, Option, none, some, List, [],
  ◌∷◌, get_elem?, set, length, get_elem?-set_self, lt-length_of_get_elem?, Bool-cases, ltb,
}
use native.Mathlib.Decide.{ℕ_discrete}
use luna_os_arm.Seatd.{
  Client, Message, Opened, Event, connects, speaks, hold, handle_client_message, accept_client,
  client_event, client_event_at, step, run, new_client, max_held, Action,
}
use luna_os_arm.Seatd.Access.{handle_open_device_lem, dispatch_message_lem}
use luna_os_arm.Seatd.Clients.{accept_client_lem, client_event-get_elem?}

-- Slot `i` has no client.
record IsFree (cls : List Client) (i : ℕ) : Type 0 where
  client : Client
  there : get_elem? cls i ≡ some client
  free : is_neg client.fd ≡ true

hold-fd : (fd : ℕ) (cl : Client) → (hold fd cl).fd ≡ cl.fd
hold-fd fd cl = elim (Bool-cases (ltb (length cl.held) max_held)) [
  | inl t ↦ simp t refl
  | inr f ↦ simp f refl
]

handle_client_message-fd :
    (opens : List ℕ → Opened) (cl : Client) (msg : Option Message)
    → is_neg cl.fd ≡ true
    → is_neg (handle_client_message opens cl msg).0.fd ≡ true
unfolding handle_client_message
handle_client_message-fd opens cl none free = refl
handle_client_message-fd opens cl (some msg) free = elim (dispatch_message_lem opens cl msg) [
  | inl (_, eq) ↦ simp eq (elim (handle_open_device_lem opens cl msg.text) [
    | inl (_, e) ↦ simp e free
    | inr (inl (_, _, _, e)) ↦ simp e free
    | inr (inr (fd, _, _, e)) ↦ simp (e, hold-fd fd cl) free
  ])
  | inr (inl (_, _, _, eq)) ↦ simp eq free
  | inr (inr (_, eq)) ↦ simp eq free
]

set-IsFree :
    (cls : List Client) (i : ℕ) (old cl : Client)
    → get_elem? cls i ≡ some old
    → is_neg cl.fd ≡ true
    → IsFree (set cls i cl) i
set-IsFree cls i old cl at free = record {
  client = cl;
  there = get_elem?-set_self cls i cl (lt-length_of_get_elem? cls i at);
  free = free;
}

-- What anyone says does not fill the slot.
speaks-IsFree :
    (opens : List ℕ → Opened) (i j : ℕ) (msg : Option Message) (cls : List Client)
    → IsFree cls i
    → IsFree (client_event opens j msg cls).0 i
unfolding client_event
speaks-IsFree opens i j msg cls slot = elim (ℕ_discrete j i) [
  | no other ↦ record {
    client = slot.client;
    there = client_event-get_elem? opens j i msg cls other ∙ slot.there;
    free = slot.free;
  }
  | yes same ↦ rw same (
      subst (λ r. IsFree (client_event_at opens i msg cls r).0 i) (sym slot.there)
        (set-IsFree cls i slot.client _ slot.there
          (handle_client_message-fd opens slot.client msg slot.free)))
]

leaves-IsFree :
    (opens : List ℕ → Opened) (i : ℕ) (cl : Client) (cls : List Client)
    → get_elem? cls i ≡ some cl
    → IsFree (client_event opens i none cls).0 i
unfolding client_event handle_client_message
leaves-IsFree opens i cl cls at =
    subst (λ r. IsFree (client_event_at opens i none cls r).0 i) (sym at)
      (set-IsFree cls i cl _ at refl)

-- Some slot has the new client.
abbrev pub Accepted : ℤ → ℕ → List Client → Type 0
Accepted cfd pid cls = (j : ℕ) × (get_elem? cls j ≡ some (new_client cfd pid))

accept_client-free :
    (cfd : ℤ) (pid : ℕ) (cls : List Client) (i : ℕ)
    → is_neg cfd ≡ false
    → IsFree cls i
    → Accepted cfd pid (accept_client cfd pid cls).0
accept_client-free cfd pid cls i good slot = elim (accept_client_lem cfd pid cls good) [
  | inl (full, _) ↦ absurd (let taken = full i slot.client slot.there in let free = slot.free in cc)
  | inr (j, first, eq) ↦
      subst (λ (r : List Client × List Action). Accepted cfd pid r.0) (sym eq)
        (
          j,
          get_elem?-set_self cls j (new_client cfd pid) (lt-length_of_get_elem? cls j first.there),
        )
]

-- Messages, and a connection behind them.
abbrev pub messages_then : List (ℕ × Option Message) → ℤ → ℕ → List Event
messages_then [] cfd pid = connects cfd pid ∷ []
messages_then ((i, msg) ∷ said) cfd pid = speaks i msg ∷ messages_then said cfd pid

accepted :
    (opens : List ℕ → Opened) (said : List (ℕ × Option Message)) (cfd : ℤ) (pid i : ℕ)
    (cls : List Client)
    → is_neg cfd ≡ false
    → IsFree cls i
    → Accepted cfd pid (run opens (messages_then said cfd pid) cls).0
unfolding run step
accepted opens [] cfd pid i cls good slot = accept_client-free cfd pid cls i good slot
accepted opens ((j, msg) ∷ said) cfd pid i cls good slot =
    accepted opens said cfd pid i (client_event opens j msg cls).0 good
      (speaks-IsFree opens i j msg cls slot)

-- Once the client of a slot of the table has disconnected, whatever the clients say in between, the
-- next connection that `accept` gives gets a slot.
pub run-accepts :
    (opens : List ℕ → Opened) (i : ℕ) (cl : Client) (said : List (ℕ × Option Message)) (cfd : ℤ)
    (pid : ℕ) (cls : List Client)
    → get_elem? cls i ≡ some cl
    → is_neg cfd ≡ false
    → Accepted cfd pid (run opens (speaks i none ∷ messages_then said cfd pid) cls).0
unfolding run step
run-accepts opens i cl said cfd pid cls at good =
    accepted opens said cfd pid i (client_event opens i none cls).0 good
      (leaves-IsFree opens i cl cls at)
