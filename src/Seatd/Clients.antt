-- ===== src/Seatd/Clients.antt =====
-- The table of clients of seatd-darwin.c: its slots, and what they hold.
use luna_os_arm.Prelude.{
  ℕ, zero, suc, ◌+◌, ◌≤◌, ◌<◌, ℤ, is_neg, ◌≡◌, ◌≢◌, refl, sym, ◌∙◌, ap, subst, ◌⊎◌, inl, inr, true,
  false, not, Option, none, some, List, [], ◌∷◌, arith, length, get_elem?, set, Bool-cases,
  Option-cases, length-set, length-append, get_elem?-set_self, get_elem?-set_ne, length-replicate,
  get_elem?-replicate, lt-length_of_get_elem?, ltb,
}
use native.Mathlib.Decide.{ℕ_discrete}
use luna_os_arm.Seatd.{
  Client, Message, closed, watched, Opened, hold, handle_client_message, accept_client, free_slot,
  client_event, client_event_at, Event, connects, speaks, step, run, new_client, no_client,
  no_clients, max_clients, max_held,
}
use luna_os_arm.Seatd.Access.{handle_open_device_lem, dispatch_message_lem}

-- A client is active exactly while its slot is taken, and holds at most `held_fds` has room for.
pub record IsSound (cl : Client) : Type 0 where
  pub few : length cl.held ≤ max_held
  pub taken : cl.active ≡ not (is_neg cl.fd)

pub record IsTable (cls : List Client) : Type 0 where
  pub slots : length cls ≡ max_clients
  pub sound : (i : ℕ) (cl : Client) → get_elem? cls i ≡ some cl → IsSound cl

no_clients-IsSound : (i : ℕ) (cl : Client) → get_elem? no_clients i ≡ some cl → IsSound cl
unfolding no_clients
no_clients-IsSound i cl eq =
    let bound = lt-length_of_get_elem? no_clients i eq in
    let same = get_elem?-replicate max_clients i no_client (omega arith) in
    let it : no_client ≡ cl = cc (same, eq) in
    subst IsSound it (record { few = omega arith; taken = refl })

pub no_clients-IsTable : IsTable no_clients
unfolding no_clients
no_clients-IsTable = record {
  slots = length-replicate max_clients no_client;
  sound = λ i cl eq. no_clients-IsSound i cl eq;
}

pub hold-few :
    (fd : ℕ) (cl : Client) → length cl.held ≤ max_held → length (hold fd cl).held ≤ max_held
hold-few fd cl few = elim (Bool-cases (ltb (length cl.held) max_held)) [
  | inl t ↦ simp t (ground (arith, length-append cl.held (fd ∷ [])))
  | inr f ↦ simp f few
]

hold-IsSound : (fd : ℕ) (cl : Client) → IsSound cl → IsSound (hold fd cl)
hold-IsSound fd cl s = elim (Bool-cases (ltb (length cl.held) max_held)) [
  | inl t ↦ record { few = hold-few fd cl s.few; taken = simp t s.taken }
  | inr f ↦ record { few = hold-few fd cl s.few; taken = simp f s.taken }
]

handle_client_message-IsSound :
    (opens : List ℕ → Opened) (cl : Client) (msg : Option Message)
    → IsSound cl
    → IsSound (handle_client_message opens cl msg).0
unfolding handle_client_message
handle_client_message-IsSound opens cl none s = record { few = s.few; taken = refl }
handle_client_message-IsSound opens cl (some msg) s = elim (dispatch_message_lem opens cl msg) [
  | inl (_, eq) ↦ simp eq (elim (handle_open_device_lem opens cl msg.text) [
    | inl (_, e) ↦ simp e s
    | inr (inl (_, _, _, e)) ↦ simp e s
    | inr (inr (fd, _, _, e)) ↦ simp e (hold-IsSound fd cl s)
  ])
  | inr (inl (_, _, _, eq)) ↦ simp eq s
  | inr (inr (_, eq)) ↦ simp eq s
]

set-IsTable :
    (cls : List Client) (i : ℕ) (cl : Client) → IsSound cl → IsTable cls → IsTable (set cls i cl)
set-IsTable cls i cl sound v = record {
  slots = length-set cls i cl ∙ v.slots;
  sound = λ j cl' eq. elim (ℕ_discrete i j) [
    | yes same ↦
        let bound = lt-length_of_get_elem? (set cls i cl) j eq in
        let here = get_elem?-set_self cls i cl (omega (arith, length-set cls i cl)) in
        subst IsSound (cc (here, eq, same)) sound
    | no other ↦ v.sound j cl' (sym (get_elem?-set_ne cls i j cl other) ∙ eq)
  ];
}

-- Where the free slot is, if there is one: the first in the table.
pub record IsFirst (cls : List Client) (i : ℕ) : Type 0 where
  pub client : Client
  pub there : get_elem? cls i ≡ some client
  pub free : is_neg client.fd ≡ true
  pub before : (j : ℕ) (cl : Client) → j < i → get_elem? cls j ≡ some cl → is_neg cl.fd ≡ false

abbrev pub IsFull : List Client → Type 0
IsFull cls = (j : ℕ) (cl : Client) → get_elem? cls j ≡ some cl → is_neg cl.fd ≡ false

IsFull-cons : (c : Client) (cls : List Client) → is_neg c.fd ≡ false → IsFull cls → IsFull (c ∷ cls)
IsFull-cons c cls f all zero cl e =
    let it : c ≡ cl = cc e in subst (λ (x : Client). is_neg x.fd ≡ false) it f
IsFull-cons c cls f all (suc j) cl e = all j cl e

IsFirst-suc :
    (c : Client) (cls : List Client) (i : ℕ)
    → is_neg c.fd ≡ false
    → IsFirst cls i
    → IsFirst (c ∷ cls) (suc i)
IsFirst-suc c cls i f first = record {
  client = first.client;
  there = first.there;
  free = first.free;
  before = λ j cl lt. go j cl lt;
}
  where
    go : (j : ℕ) (cl : Client) → j < suc i → get_elem? (c ∷ cls) j ≡ some cl → is_neg cl.fd ≡ false
    go zero cl lt e = let it : c ≡ cl = cc e in subst (λ (x : Client). is_neg x.fd ≡ false) it f
    go (suc j) cl lt e = first.before j cl (omega arith) e

free_slot_lem :
    (cls : List Client) (k : ℕ)
    → ((free_slot cls k ≡ none) × IsFull cls)
      ⊎ ((i : ℕ) × (free_slot cls k ≡ some (i + k)) × IsFirst cls i)
unfolding free_slot
free_slot_lem [] k = inl (refl, λ j cl e. cc)
free_slot_lem (c ∷ cls) k = elim (Bool-cases (is_neg c.fd)) [
  | inl t ↦ inr (
    0,
    simp t (ap some (omega arith)),
    record { client = c; there = refl; free = t; before = λ j cl lt e. absurd (omega arith) },
  )
  | inr f ↦ elim (free_slot_lem cls (k + 1)) [
    | inl (full, all) ↦ inl (simp (f, full), λ j. IsFull-cons c cls f all j)
    | inr (i, eq, first) ↦
        inr (suc i, simp (f, eq) (ap some (omega arith)), IsFirst-suc c cls i f first)
  ]
]

-- A connection that `accept` gave takes the least free slot and leaves the other slots as they
-- were; where no slot is free, it is closed and the table stays as it was.
pub accept_client_lem :
    (cfd : ℤ) (pid : ℕ) (cls : List Client)
    → is_neg cfd ≡ false
    → (IsFull cls × (accept_client cfd pid cls ≡ (cls, closed cfd ∷ [])))
      ⊎ ((i : ℕ) × IsFirst cls i
          × (accept_client cfd pid cls ≡ (set cls i (new_client cfd pid), watched i ∷ [])))
unfolding accept_client
accept_client_lem cfd pid cls f = elim (free_slot_lem cls 0) [
  | inl (none_free, full) ↦ inl (full, simp (f, none_free))
  | inr (i, eq, first) ↦
      let found : free_slot cls 0 ≡ some i = eq ∙ ap some (omega arith) in
      inr (i, first, simp (f, found))
]

accept_client-IsTable :
    (cfd : ℤ) (pid : ℕ) (cls : List Client) → IsTable cls → IsTable (accept_client cfd pid cls).0
unfolding accept_client
accept_client-IsTable cfd pid cls v = elim (Bool-cases (is_neg cfd)) [
  | inl t ↦ simp t v
  | inr f ↦ elim (accept_client_lem cfd pid cls f) [
    | inl (_, eq) ↦ subst (λ r. IsTable r.0) (sym eq) v
    | inr (i, _, eq) ↦
        subst (λ r. IsTable r.0) (sym eq)
          (set-IsTable cls i (new_client cfd pid) (record { few = omega arith; taken = simp f }) v)
  ]
]

client_event-IsTable :
    (opens : List ℕ → Opened) (i : ℕ) (msg : Option Message) (cls : List Client)
    → IsTable cls
    → IsTable (client_event opens i msg cls).0
unfolding client_event
client_event-IsTable opens i msg cls v = elim (Option-cases (get_elem? cls i)) [
  | inl nothing ↦ subst (λ r. IsTable (client_event_at opens i msg cls r).0) (sym nothing) v
  | inr (cl, eq) ↦
      subst (λ r. IsTable (client_event_at opens i msg cls r).0) (sym eq)
        (set-IsTable cls i _ (handle_client_message-IsSound opens cl msg (v.sound i cl eq)) v)
]

-- Whatever the events, a table that has 16 slots, in which a slot is active exactly while it has
-- a descriptor and no client holds more devices than `held_fds` has room for, stays such a
-- table.
pub run-IsTable :
    (opens : List ℕ → Opened) (es : List Event) (cls : List Client)
    → IsTable cls
    → IsTable (run opens es cls).0
unfolding run step
run-IsTable opens [] cls v = v
run-IsTable opens (connects cfd pid ∷ es) cls v =
    run-IsTable opens es _ (accept_client-IsTable cfd pid cls v)
run-IsTable opens (speaks i msg ∷ es) cls v =
    run-IsTable opens es _ (client_event-IsTable opens i msg cls v)

-- What one client says leaves every other slot of the table as it was.
pub client_event-get_elem? :
    (opens : List ℕ → Opened) (i j : ℕ) (msg : Option Message) (cls : List Client)
    → i ≢ j
    → get_elem? (client_event opens i msg cls).0 j ≡ get_elem? cls j
unfolding client_event
client_event-get_elem? opens i j msg cls other = elim (Option-cases (get_elem? cls i)) [
  | inl nothing ↦
      subst (λ r. get_elem? (client_event_at opens i msg cls r).0 j ≡ get_elem? cls j) (sym nothing)
        refl
  | inr (cl, eq) ↦
      subst (λ r. get_elem? (client_event_at opens i msg cls r).0 j ≡ get_elem? cls j) (sym eq)
        (get_elem?-set_ne cls i j _ other)
]
