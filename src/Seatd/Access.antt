-- ===== src/Seatd/Access.antt =====
-- Which descriptors seatd-darwin.c hands out, and what it answers.
use luna_os_arm.Prelude.{
  ℕ, ◌≤◌, ◌<◌, ℤ, pos, is_neg, negate, ◌≡◌, refl, subst, ◌∙◌, ap, ◌≢◌, ◌⊎◌, inl, inr, true, false,
  Option, none, some, List, [], ◌∷◌, ◌++◌, arith, ◌==◌, get_elem?, Bool-cases, Option-cases,
}
use luna_os_arm.Errno
use luna_os_arm.Seatd.{
  Client, Message, Action, sent_fd, sent, closed, cancelled, watched, Opened, descriptor, no_access,
  is_allowed, hold, handle_open_device, dispatch_message, handle_client_message, accept_client,
  free_slot, client_event, client_event_at, cancel_if_closed, Event, connects, speaks, step, run,
  msg_open_device, msg_close_device, msg_disable_seat,
}

abbrev Hands : Action → ℕ → Type 0
Hands (sent_fd sock (some fd') code) fd = fd' ≡ fd
Hands (sent_fd sock none code) fd = ⊥
Hands (sent sock code) fd = ⊥
Hands (closed c) fd = ⊥
Hands (cancelled i) fd = ⊥
Hands (watched i) fd = ⊥

-- The descriptor `fd` is handed to a client by one of the actions.
abbrev pub Sends : List Action → ℕ → Type 0
Sends [] fd = ⊥
Sends (a ∷ out) fd = Hands a fd ⊎ Sends out fd

-- The event is a message that asks for the device at a path.
abbrev AsksNow : Event → List ℕ → Type 0
AsksNow (connects cfd pid) path = ⊥
AsksNow (speaks i none) path = ⊥
AsksNow (speaks i (some msg)) path = (msg.type ≡ msg_open_device) × (msg.text ≡ path)

abbrev pub Asks : List Event → List ℕ → Type 0
Asks [] path = ⊥
Asks (e ∷ es) path = AsksNow e path ⊎ Asks es path

Sends-++ : (xs ys : List Action) (fd : ℕ) → Sends (xs ++ ys) fd → Sends xs fd ⊎ Sends ys fd
Sends-++ [] ys fd h = inr h
Sends-++ (x ∷ xs) ys fd (inl now) = inl (inl now)
Sends-++ (x ∷ xs) ys fd (inr later) = elim (Sends-++ xs ys fd later) [
  | inl a ↦ inl (inr a)
  | inr b ↦ inr b
]

Opened-cases : (o : Opened) → ((fd : ℕ) × (o ≡ descriptor fd)) ⊎ ((e : ℕ) × (o ≡ no_access e))
Opened-cases (descriptor fd) = inl (fd, refl)
Opened-cases (no_access e) = inr (e, refl)

-- What `handle_open_device` answers: -EPERM for a path it does not allow, -errno where the open
-- fails, else the descriptor, which it closes at once and holds. Only `held` of the client changes.
pub handle_open_device_lem :
    (opens : List ℕ → Opened) (cl : Client) (path : List ℕ)
    → ((is_allowed path ≡ false)
        × (handle_open_device opens cl path ≡ (cl, sent_fd cl.fd none (negate Errno.perm) ∷ [])))
      ⊎ ((errno : ℕ) × (is_allowed path ≡ true)
          × (opens path ≡ no_access errno)
          × (handle_open_device opens cl path ≡ (cl, sent_fd cl.fd none (negate errno) ∷ [])))
      ⊎ ((dev_fd : ℕ) × (is_allowed path ≡ true)
          × (opens path ≡ descriptor dev_fd)
          × (handle_open_device opens cl path
              ≡ (hold dev_fd cl, sent_fd cl.fd (some dev_fd) (pos 0) ∷ closed (pos dev_fd) ∷ [])))
unfolding handle_open_device
handle_open_device_lem opens cl path = elim (Bool-cases (is_allowed path)) [
  | inl ok ↦ elim (Opened-cases (opens path)) [
    | inl (dev_fd, eq) ↦ inr (inr (dev_fd, ok, eq, simp (ok, eq)))
    | inr (errno, eq) ↦ inr (inl (errno, ok, eq, simp (ok, eq)))
  ]
  | inr bad ↦ inl (bad, simp bad)
]

neither : ⊥ ⊎ ⊥ → ⊥
neither (inl h) = h
neither (inr h) = h

only_first : {A : Type 0} → A ⊎ (⊥ ⊎ ⊥) → A
only_first (inl a) = a
only_first (inr h) = elim (neither h) [ ]

handle_open_device-Sends :
    (opens : List ℕ → Opened) (cl : Client) (path : List ℕ) (fd : ℕ)
    → Sends (handle_open_device opens cl path).1 fd
    → (is_allowed path ≡ true) × (opens path ≡ descriptor fd)
handle_open_device-Sends opens cl path fd h = elim (handle_open_device_lem opens cl path) [
  | inl (bad, eq) ↦ elim (neither (rw eq at h)) [ ]
  | inr (inl (errno, ok, fails, eq)) ↦ elim (neither (rw eq at h)) [ ]
  | inr (inr (dev_fd, ok, fits, eq)) ↦ (ok, fits ∙ ap descriptor (only_first (rw eq at h)))
]

-- Every message but an open leaves the client as it was: a close, an enable or a disable of the
-- seat is answered by 0 and takes no descriptor back, any other message is not answered.
pub dispatch_message_lem :
    (opens : List ℕ → Opened) (cl : Client) (msg : Message)
    → ((msg.type ≡ msg_open_device)
        × (dispatch_message opens cl msg ≡ handle_open_device opens cl msg.text))
      ⊎ ((msg.type ≢ msg_open_device)
          × (msg_close_device ≤ msg.type)
          × (msg.type ≤ msg_disable_seat)
          × (dispatch_message opens cl msg ≡ (cl, sent cl.fd (pos 0) ∷ [])))
      ⊎ (((msg.type ≡ 0) ⊎ (msg_disable_seat < msg.type))
          × (dispatch_message opens cl msg ≡ (cl, [])))
unfolding dispatch_message
dispatch_message_lem opens cl msg = elim (Bool-cases (msg.type == 1)) [
  | inl a ↦ inl (ground arith, simp a)
  | inr a ↦ inr (elim (Bool-cases (msg.type == 2)) [
    | inl b ↦ inl (ground arith, ground arith, ground arith, simp (a, b))
    | inr b ↦ elim (Bool-cases (msg.type == 3)) [
      | inl c ↦ inl (ground arith, ground arith, ground arith, simp (a, b, c))
      | inr c ↦ elim (Bool-cases (msg.type == 4)) [
        | inl d ↦ inl (ground arith, ground arith, ground arith, simp (a, b, c, d))
        | inr d ↦ inr (ground arith, simp (a, b, c, d))
      ]
    ]
  ])
]

dispatch_message-Sends :
    (opens : List ℕ → Opened) (cl : Client) (msg : Message) (fd : ℕ)
    → Sends (dispatch_message opens cl msg).1 fd
    → (msg.type ≡ msg_open_device) × (is_allowed msg.text ≡ true) × (opens msg.text ≡ descriptor fd)
dispatch_message-Sends opens cl msg fd h = elim (dispatch_message_lem opens cl msg) [
  | inl (asks, eq) ↦
      let (ok, fits) = handle_open_device-Sends opens cl msg.text fd (rw eq at h) in
      (asks, ok, fits)
  | inr (inl (_, _, _, eq)) ↦ elim (neither (rw eq at h)) [ ]
  | inr (inr (_, eq)) ↦ let no : ⊥ = rw eq at h in elim no [ ]
]

cancel-Sends : (i : ℕ) (cl : Client) (fd : ℕ) → Sends (cancel_if_closed i cl) fd → ⊥
cancel-Sends i cl fd h = elim (Bool-cases (is_neg cl.fd)) [
  | inl t ↦ neither (simp t at h)
  | inr f ↦ let no : ⊥ = simp f at h in no
]

handled-Sends :
    (opens : List ℕ → Opened) (cl : Client) (i : ℕ) (msg : Option Message) (fd : ℕ)
    → Sends
        ((handle_client_message opens cl msg).1
          ++ cancel_if_closed i (handle_client_message opens cl msg).0)
        fd
    → (path : List ℕ) × AsksNow (speaks i msg) path
      × (is_allowed path ≡ true)
      × (opens path ≡ descriptor fd)
unfolding handle_client_message
handled-Sends opens cl i none fd h = elim (only_first h) [ ]
handled-Sends opens cl i (some msg) fd h =
    elim (Sends-++ (dispatch_message opens cl msg).1 _ fd h) [
      | inl now ↦
          let (asks, ok, fits) = dispatch_message-Sends opens cl msg fd now in
          (msg.text, (asks, refl), ok, fits)
      | inr later ↦ elim (cancel-Sends i (dispatch_message opens cl msg).0 fd later) [ ]
    ]

client_event-Sends :
    (opens : List ℕ → Opened) (i : ℕ) (msg : Option Message) (cls : List Client) (fd : ℕ)
    → Sends (client_event opens i msg cls).1 fd
    → (path : List ℕ) × AsksNow (speaks i msg) path
      × (is_allowed path ≡ true)
      × (opens path ≡ descriptor fd)
unfolding client_event
client_event-Sends opens i msg cls fd h = elim (Option-cases (get_elem? cls i)) [
  | inl n ↦
      let nothing : ⊥ = subst (λ r. Sends (client_event_at opens i msg cls r).1 fd) n h in
      elim nothing [ ]
  | inr (cl, eq) ↦
      handled-Sends opens cl i msg fd
        (subst (λ r. Sends (client_event_at opens i msg cls r).1 fd) eq h)
]

accept_client-Sends :
    (cfd : ℤ) (pid : ℕ) (cls : List Client) (fd : ℕ) → Sends (accept_client cfd pid cls).1 fd → ⊥
unfolding accept_client
accept_client-Sends cfd pid cls fd h = elim (Bool-cases (is_neg cfd)) [
  | inl t ↦ let nothing : ⊥ = simp t at h in nothing
  | inr f ↦ elim (Option-cases (free_slot cls 0)) [
    | inl full ↦ neither (simp (f, full) at h)
    | inr (i, eq) ↦ neither (simp (f, eq) at h)
  ]
]

step-Sends :
    (opens : List ℕ → Opened) (e : Event) (cls : List Client) (fd : ℕ)
    → Sends (step opens e cls).1 fd
    → (path : List ℕ) × AsksNow e path × (is_allowed path ≡ true) × (opens path ≡ descriptor fd)
unfolding step
step-Sends opens (connects cfd pid) cls fd h = elim (accept_client-Sends cfd pid cls fd h) [ ]
step-Sends opens (speaks i msg) cls fd h = client_event-Sends opens i msg cls fd h

-- Whatever the events, and whatever the table holds: each descriptor that the daemon hands out is
-- the one that `open` gave for a path that some client asked for and that the path check allows.
pub run-Sends :
    (opens : List ℕ → Opened) (es : List Event) (cls : List Client) (fd : ℕ)
    → Sends (run opens es cls).1 fd
    → (path : List ℕ) × Asks es path × (is_allowed path ≡ true) × (opens path ≡ descriptor fd)
unfolding run
run-Sends opens [] cls fd h = elim h [ ]
run-Sends opens (e ∷ es) cls fd h = elim (Sends-++ (step opens e cls).1 _ fd h) [
  | inl now ↦
      let (path, asks, ok, fits) = step-Sends opens e cls fd now in (path, inl asks, ok, fits)
  | inr later ↦
      let (path, asks, ok, fits) = run-Sends opens es _ fd later in (path, inr asks, ok, fits)
]
