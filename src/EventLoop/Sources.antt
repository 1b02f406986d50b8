-- ===== src/EventLoop/Sources.antt =====
-- The sources of the event loop: how many it can ever hand out, and which callbacks it runs.
use luna_os_arm.Prelude.{
  ℕ, zero, suc, ◌+◌, ◌≤◌, ◌<◌, min, ◌≡◌, ap, ◌⊎◌, inl, inr, true, false, none, some, List, [], ◌∷◌,
  arith, if◌then◌else◌, ltb, get_elem?, Bool-cases, Option-cases, ℤ,
}
use luna_os_arm.EventLoop.{
  Source, Loop, Action, created, resumed, write_watched, timer_set, cancelled_src, released, freed,
  called, ticked, max_sources, create, update, next_source, add_fd, add_timer, source_remove,
  removed, Call, adds_fd, adds_timer, fd_source, timer_source, removes, run,
}
use luna_os_arm.EventLoop.Counts.{update_past}

-- The additions among the calls.
abbrev pub adds : List Call → ℕ
adds [] = 0
adds (adds_fd fd mask func data' ∷ cs) = 1 + adds cs
adds (adds_timer func data' ∷ cs) = 1 + adds cs
adds (removes i ∷ cs) = adds cs

next_source-source_count :
    (f : Source → Source) (loop : Loop)
    → (next_source f loop).0.source_count
      ≡ (if ltb loop.source_count max_sources then loop.source_count + 1 else loop.source_count)
next_source-source_count f loop = elim (Bool-cases (ltb loop.source_count max_sources)) [
  | inl t ↦ simp t
  | inr n ↦ simp n
]

create-few : create.source_count ≤ max_sources
unfolding create
create-few = omega arith

added :
    (f : Source → Source) (cs : List Call) (loop : Loop)
    → (next_source f loop).0.source_count ≤ max_sources
    → loop.source_count ≤ max_sources
    → (run cs (next_source f loop).0).0.source_count
      ≡ min max_sources ((next_source f loop).0.source_count + adds cs)
    → (run cs (next_source f loop).0).0.source_count
      ≡ min max_sources (loop.source_count + (1 + adds cs))
added f cs loop h h' rec = ground (arith, rec, next_source-source_count f loop)

next_source-few :
    (f : Source → Source) (loop : Loop)
    → loop.source_count ≤ max_sources
    → (next_source f loop).0.source_count ≤ max_sources
next_source-few f loop h = ground (arith, next_source-source_count f loop)

-- The count of sources grows by one with each addition up to 256, and no removal takes it back.
pub run-source_count :
    (cs : List Call) (loop : Loop)
    → loop.source_count ≤ max_sources
    → (run cs loop).0.source_count ≡ min max_sources (loop.source_count + adds cs)
unfolding run add_fd add_timer source_remove
run-source_count [] loop h = omega arith
run-source_count (adds_fd fd mask func data' ∷ cs) loop h =
    let f = fd_source fd mask func data' in
    let few = next_source-few f loop h in
    added f cs loop few h (run-source_count cs (next_source f loop).0 few)
run-source_count (adds_timer func data' ∷ cs) loop h =
    let f = timer_source func data' in
    let few = next_source-few f loop h in
    added f cs loop few h (run-source_count cs (next_source f loop).0 few)
run-source_count (removes i ∷ cs) loop h =
    run-source_count cs (record loop { sources = update i removed loop.sources }) h

-- A loop to which 256 sources were ever added refuses every further one, even where all of them
-- were removed again.
pub add_fd-refused :
    (cs : List Call) (fd : ℤ) (mask func data' : ℕ)
    → max_sources ≤ adds cs
    → add_fd fd mask func data' (run cs create).0 ≡ ((run cs create).0, none, [])
unfolding add_fd
add_fd-refused cs fd mask func data' many =
    let full : ltb (run cs create).0.source_count max_sources ≡ false =
      ground (arith, run-source_count cs create create-few) in
    simp full

get_elem?-update :
    (srcs : List Source) (i : ℕ) (f : Source → Source) (src : Source)
    → get_elem? srcs i ≡ some src
    → get_elem? (update i f srcs) i ≡ some (f src)
get_elem?-update [] i f src e = cc e
get_elem?-update (x ∷ srcs) zero f src e =
    let same : x ≡ src = cc e in ap (λ (y : Source). some (f y)) same
get_elem?-update (x ∷ srcs) (suc i) f src e = get_elem?-update srcs i f src e

-- A source that has been removed asks nothing more of the system when it is removed again.
pub source_remove-twice : (i : ℕ) (loop : Loop) → (source_remove i (source_remove i loop).0).1 ≡ []
unfolding source_remove
source_remove-twice i loop = elim (Option-cases (get_elem? (update i removed loop.sources) i)) [
  | inl nothing ↦ simp nothing
  | inr (src, e) ↦ elim (Option-cases (get_elem? loop.sources i)) [
    | inl before ↦ simp (update_past loop.sources i removed before, before)
    | inr (src', at) ↦ simp (get_elem?-update loop.sources i removed src' at)
  ]
]

-- The source at `i` is there and cancelled.
abbrev pub IsCancelled : ℕ → Loop → Type 0
IsCancelled i loop = (src : Source) × (get_elem? loop.sources i ≡ some src) × (src.cancelled ≡ true)

abbrev CallsNow : Action → ℕ → Type 0
CallsNow (created j d) i = ⊥
CallsNow (resumed j) i = ⊥
CallsNow (write_watched j fd) i = ⊥
CallsNow (timer_set j n m) i = ⊥
CallsNow (cancelled_src j) i = ⊥
CallsNow (released j) i = ⊥
CallsNow freed i = ⊥
CallsNow (called j func fd mask data') i = j ≡ i
CallsNow (ticked j func data') i = j ≡ i

-- A callback of the source at `i` is run.
abbrev pub Calls : List Action → ℕ → Type 0
Calls [] i = ⊥
Calls (a ∷ out) i = CallsNow a i ⊎ Calls out i

-- A source that was handed out and is cancelled.
abbrev IsDead : ℕ → Loop → Type 0
IsDead i loop = (i < loop.source_count) × IsCancelled i loop
