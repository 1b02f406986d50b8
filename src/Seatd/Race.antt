-- ===== src/Seatd/Race.antt =====
-- The handlers of seatd-darwin.c on their concurrent queue: the handler of a client's source has
-- two halves, the message and the test `if (g_clients[i].fd < 0)`, and others may run in between.
use luna_os_arm.Prelude.{
  ℕ, ◌<◌, ℤ, negsuc, is_neg, ◌≡◌, refl, sym, ◌∙◌, ap, inl, inr, false, Option, none, some, List, [],
  ◌∷◌, ◌++◌, arith, get_elem?, set, get_elem?-set_self, get_elem?-set_ne, lt-length_of_get_elem?,
  length-set, Option-cases,
}
use native.Mathlib.Decide.{dec_lt}
use luna_os_arm.Seatd.{
  Client, Message, Action, closed, watched, Opened, handle_client_message, accept_client,
  new_client, cancel_if_closed, client_event,
}
use luna_os_arm.Seatd.Clients.{IsFirst, accept_client_lem}

-- What runs as one: a connection, a message, the test behind it.
pub data Half : Type 0 where
  accepts : ℤ → ℕ → Half
  handles : ℕ → Option Message → Half
  tests : ℕ → Half

abbrev handle_at :
    (List ℕ → Opened) → ℕ → Option Message → List Client → Option Client → List Client × List Action
handle_at opens i msg cls none = (cls, [])
handle_at opens i msg cls (some cl) =
    let (cl', out) = handle_client_message opens cl msg in (set cls i cl', out)

abbrev test_at : ℕ → Option Client → List Action
test_at i none = []
test_at i (some cl) = cancel_if_closed i cl

unfoldable pub half : (List ℕ → Opened) → Half → List Client → List Client × List Action
half opens (accepts cfd pid) cls = accept_client cfd pid cls
half opens (handles i msg) cls = handle_at opens i msg cls (get_elem? cls i)
half opens (tests i) cls = (cls, test_at i (get_elem? cls i))

-- The halves in any order.
unfoldable pub run_halves : (List ℕ → Opened) → List Half → List Client → List Client × List Action
run_halves opens [] cls = (cls, [])
run_halves opens (h ∷ hs) cls =
    let (cls', out) = half opens h cls in
    let (cls'', more) = run_halves opens hs cls' in (cls'', out ++ more)

-- A client that has left.
abbrev left : Client → Client
left cl = record cl { fd = negsuc 0; active = false }

-- Where the client of a slot leaves, and all slots before it are taken, the slot is the first.
first_is :
    (cls : List Client) (i k : ℕ) (cl : Client)
    → get_elem? cls i ≡ some cl
    → ((j : ℕ) (c : Client) → j < i → get_elem? cls j ≡ some c → is_neg c.fd ≡ false)
    → IsFirst (set cls i (left cl)) k
    → k ≡ i
first_is cls i k cl at taken first = elim (dec_lt k i) [
  | yes lt ↦
      let there =
        sym (get_elem?-set_ne cls i k (left cl) (λ e. absurd (omega arith))) ∙ first.there in
      let full = taken k first.client lt there in let free = first.free in absurd cc
  | no ge ↦ elim (dec_lt i k) [
    | yes gt ↦
        let here = get_elem?-set_self cls i (left cl) (lt-length_of_get_elem? cls i at) in
        let full : is_neg (left cl).fd ≡ false = first.before i (left cl) gt here in
        absurd (ground (arith, full))
    | no le ↦ omega arith
  ]
]

append_nil : {A : Type 0} (xs : List A) → xs ++ [] ≡ xs
append_nil [] = refl
append_nil (x ∷ xs) = ap (λ ys. x ∷ ys) (append_nil xs)

-- The two halves one after the other are the handler.
pub run_halves-client_event :
    (opens : List ℕ → Opened) (i : ℕ) (msg : Option Message) (cls : List Client)
    → run_halves opens (handles i msg ∷ tests i ∷ []) cls ≡ client_event opens i msg cls
unfolding run_halves half client_event
run_halves-client_event opens i msg cls = elim (Option-cases (get_elem? cls i)) [
  | inl nothing ↦ simp nothing refl
  | inr (cl, at) ↦
      let here =
        get_elem?-set_self cls i (handle_client_message opens cl msg).0
          (lt-length_of_get_elem? cls i at) in
      simp (at, here, append_nil) refl
]

still_watched :
    (cls : List Client) (i : ℕ) (cl : Client) (cfd : ℤ) (pid : ℕ)
    → get_elem? cls i ≡ some cl
    → is_neg cfd ≡ false
    → test_at i (get_elem? (set (set cls i (left cl)) i (new_client cfd pid)) i) ≡ []
still_watched cls i cl cfd pid at good =
    let bound = lt-length_of_get_elem? cls i at in
    let here =
      get_elem?-set_self (set cls i (left cl)) i (new_client cfd pid)
        (omega (arith, bound, length-set cls i (left cl))) in
    simp (here, good) refl

-- A client leaves whose slot has only taken slots before it, and a connection comes before the test
-- of the handler: the connection gets the slot, the test finds it taken, and the source of the
-- client that left is not cancelled.
pub run_halves-race :
    (opens : List ℕ → Opened) (i : ℕ) (cl : Client) (cfd : ℤ) (pid : ℕ) (cls : List Client)
    → get_elem? cls i ≡ some cl
    → ((j : ℕ) (c : Client) → j < i → get_elem? cls j ≡ some c → is_neg c.fd ≡ false)
    → is_neg cfd ≡ false
    → (run_halves opens (handles i none ∷ accepts cfd pid ∷ tests i ∷ []) cls).1
      ≡ closed cl.fd ∷ watched i ∷ []
unfolding run_halves half handle_client_message
run_halves-race opens i cl cfd pid cls at taken good =
    elim (accept_client_lem cfd pid (set cls i (left cl)) good) [
      | inl (full, _) ↦ absurd (
          let full_here =
            full i (left cl)
              (get_elem?-set_self cls i (left cl) (lt-length_of_get_elem? cls i at)) in
          ground (arith, full_here))
      | inr (k, first, eq) ↦
          let same = first_is cls i k cl at taken first in
          simp (at, eq, same, still_watched cls i cl cfd pid at good) refl
    ]
