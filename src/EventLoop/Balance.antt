-- ===== src/EventLoop/Balance.antt =====
-- The GCD sources of the event loop: each that is created is released once.
use luna_os_arm.Prelude.{
  ℕ, zero, suc, ◌+◌, ◌≡◌, refl, ◌∙◌, ap, subst, inl, inr, false, Option, none, some, List, [], ◌∷◌,
  ◌++◌, arith, ltb, length, get_elem?, replicate, length-replicate, Bool-cases, Option-cases,
  get_elem?_of_lt,
}
use luna_os_arm.EventLoop.{
  Source, Loop, Action, created, freed, max_sources, no_entry, create, update, next_source, add_fd,
  add_timer, fd_source, timer_source, fd_actions, source_remove, removed, release_all, destroy,
  has_dispatch, has_flag, event_readable, event_writable, Call, adds_fd, adds_timer, removes, apply,
  run, timer,
}
use luna_os_arm.EventLoop.Counts.{
  bit, created_count, released_count, created_count-++, released_count-++, live, live-update,
  update_past, length-update, IsBlank, release_all_lem, update-IsBlank, removed-IsBlank,
  has_dispatch-IsBlank,
}

-- The array has its size, and the entries that were never handed out have no GCD source.
pub record IsKept (loop : Loop) : Type 0 where
  pub size : length loop.sources ≡ max_sources
  pub blank : IsBlank loop.source_count loop.sources

-- The GCD sources that were created are released or in the array.
record Accounts (before after : Loop) (out : List Action) : Type 0 where
  kept : IsKept after
  balance : created_count out + live before.sources ≡ live after.sources + released_count out

abbrev when_added : (ℕ → List Action) → Option ℕ → List Action
when_added acts none = []
when_added acts (some i) = acts i

adding :
    (f : Source → Source) (acts : ℕ → List Action) (loop : Loop) (k : ℕ)
    → IsKept loop
    → ((src : Source) → has_dispatch src ≡ false → bit (has_dispatch (f src)) ≡ k)
    → ((i : ℕ) → (created_count (acts i) ≡ k) × (released_count (acts i) ≡ 0))
    → Accounts loop (next_source f loop).0 (when_added acts (next_source f loop).1)
adding f acts loop k kept fills counts = elim (Bool-cases (ltb loop.source_count max_sources)) [
  | inr full ↦ simp full (record { kept = kept; balance = omega arith })
  | inl space ↦
      let n = loop.source_count in
      let (src, at) = get_elem?_of_lt loop.sources n (ground (arith, kept.size)) in
      let unused = has_dispatch-IsBlank n loop.sources src kept.blank at in
      let counted = live-update loop.sources n f src at in
      let filled = fills src unused in
      let off : bit (has_dispatch src) ≡ 0 = simp unused in
      let out = counts n in
      let next : suc n ≡ n + 1 = omega arith in
      simp space (record {
        kept = record {
          size = length-update loop.sources n f ∙ kept.size;
          blank =
              subst (λ m. IsBlank m (update n f loop.sources)) next
                (update-IsBlank n f loop.sources kept.blank);
        };
        balance = omega (arith, out.0, out.1);
      })
]

removing :
    (i : ℕ) (loop : Loop)
    → IsKept loop
    → Accounts loop (source_remove i loop).0 (source_remove i loop).1
unfolding source_remove
removing i loop kept = record {
  kept = record {
    size = length-update loop.sources i removed ∙ kept.size;
    blank = removed-IsBlank loop.source_count i loop.sources kept.blank;
  };
  balance = elim (Option-cases (get_elem? loop.sources i)) [
    | inl nothing ↦ simp (nothing, update_past loop.sources i removed nothing) (omega arith)
    | inr (src, at) ↦
        let counted = live-update loop.sources i removed src at in
        elim (Bool-cases (has_dispatch src)) [
          | inl t ↦ let one : bit (has_dispatch src) ≡ 1 = simp t in simp (at, t) (omega arith)
          | inr f ↦ let off : bit (has_dispatch src) ≡ 0 = simp f in simp (at, f) (omega arith)
        ]
  ];
}

apply-Accounts :
    (c : Call) (loop : Loop) → IsKept loop → Accounts loop (apply c loop).0 (apply c loop).1
unfolding add_fd add_timer
apply-Accounts (adds_fd fd mask func data') loop kept =
    adding (fd_source fd mask func data') (λ i. fd_actions i fd mask) loop
      (bit (has_flag mask event_readable)) kept
      (λ src h. elim (Bool-cases (has_flag mask event_readable)) [
        | inl t ↦ simp t
        | inr f ↦ simp f (ap bit h)
      ])
      (λ i. elim (Bool-cases (has_flag mask event_readable)) [
        | inl t ↦ (simp t, simp t)
        | inr f ↦ elim (Bool-cases (has_flag mask event_writable)) [
          | inl w ↦ (simp (f, w), simp (f, w))
          | inr n ↦ (simp (f, n), simp (f, n))
        ]
      ])
apply-Accounts (adds_timer func data') loop kept =
    adding (timer_source func data') (λ i. created i timer ∷ []) loop 1 kept (λ src h. refl)
      (λ i. (refl, refl))
apply-Accounts (removes i) loop kept = removing i loop kept

replicate-IsBlank : (n m : ℕ) → IsBlank n (replicate m no_entry)
replicate-IsBlank n zero = tt
replicate-IsBlank zero (suc m) = (refl, replicate-IsBlank zero m)
replicate-IsBlank (suc n) (suc m) = replicate-IsBlank n m

replicate-live : (m : ℕ) → live (replicate m no_entry) ≡ 0
replicate-live zero = refl
replicate-live (suc m) = omega (arith, replicate-live m)

create-IsKept : IsKept create
unfolding create
create-IsKept = record {
  size = length-replicate max_sources no_entry;
  blank = replicate-IsBlank 0 max_sources;
}

create-live : live create.sources ≡ 0
unfolding create
create-live = replicate-live max_sources

destroyed : (loop : Loop) → IsKept loop → released_count (destroy loop) ≡ live loop.sources
unfolding destroy
destroyed loop kept = omega (
  arith,
  (release_all_lem loop.source_count 0 loop.sources kept.blank).0,
  released_count-++ (release_all loop.source_count 0 loop.sources) (freed ∷ []),
)

run-Accounts :
    (cs : List Call) (loop : Loop) → IsKept loop → Accounts loop (run cs loop).0 (run cs loop).1
unfolding run
run-Accounts [] loop kept = record { kept = kept; balance = omega arith }
run-Accounts (c ∷ cs) loop kept =
    let first = apply-Accounts c loop kept in
    let rest = run-Accounts cs (apply c loop).0 first.kept in
    record {
      kept = rest.kept;
      balance = omega (
        arith,
        first.balance,
        rest.balance,
        created_count-++ (apply c loop).1 (run cs (apply c loop).0).1,
        released_count-++ (apply c loop).1 (run cs (apply c loop).0).1,
      );
    }

-- From the creation of a loop to its end, whatever is added and removed in between, in any order
-- and any number of times: as many GCD sources are released as were created.
pub run-destroy :
    (cs : List Call)
    → released_count ((run cs create).1 ++ destroy (run cs create).0)
      ≡ created_count (run cs create).1
run-destroy cs =
    let acc = run-Accounts cs create create-IsKept in
    omega (
      arith,
      acc.balance,
      create-live,
      destroyed (run cs create).0 acc.kept,
      released_count-++ (run cs create).1 (destroy (run cs create).0),
    )
