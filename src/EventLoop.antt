-- ===== src/EventLoop.antt =====
-- The event loop (libwayland-darwin/wayland-darwin-event-loop.c): its array of sources, and what
-- its functions ask of GCD and kqueue. The callbacks are their numbers, called is an output.
pub mod Counts
pub mod Balance
pub mod Sources
mod Tests
use luna_os_arm.Prelude.{
  ℕ, zero, suc, ◌+◌, ◌-◌, ◌*◌, ◌/◌, ◌%◌, ◌^◌, ℤ, pos, negsuc, is_neg, Bool, true, false, not,
  Option, none, some, List, [], ◌∷◌, ◌++◌, ◌==◌, ◌&&◌, ◌||◌, ltb, if◌then◌else◌, get_elem?, set,
  replicate, length, bit_and,
}

abbrev pub max_sources : ℕ
max_sources = 256

abbrev pub event_readable : ℕ
event_readable = 1

abbrev pub event_writable : ℕ
event_writable = 2

abbrev pub event_hangup : ℕ
event_hangup = 4

abbrev pub event_error : ℕ
event_error = 8

-- What `dispatch_src` of a source is.
pub data DispatchSource : Type 0 where
  no_source : DispatchSource
  reads : DispatchSource
  timer : DispatchSource

-- `struct wl_event_source`; a function pointer is a number, `none` the null pointer.
pub record Source : Type 0 where
  pub fd : ℤ
  pub mask : ℕ
  pub fd_func : Option ℕ
  pub timer_func : Option ℕ
  pub data' : ℕ
  pub dispatch_src : DispatchSource
  pub is_timer : Bool
  pub cancelled : Bool

abbrev pub no_entry : Source
no_entry = record {
  fd = pos 0;
  mask = 0;
  fd_func = none;
  timer_func = none;
  data' = 0;
  dispatch_src = no_source;
  is_timer = false;
  cancelled = false;
}

-- `struct wl_event_loop` without the handles that only the system reads.
pub record Loop : Type 0 where
  pub sources : List Source
  pub source_count : ℕ

-- What the loop asks of the system for its source at an index, and the callbacks it runs.
pub data Action : Type 0 where
  created : ℕ → DispatchSource → Action
  resumed : ℕ → Action
  write_watched : ℕ → ℤ → Action
  timer_set : ℕ → ℕ → ℕ → Action
  cancelled_src : ℕ → Action
  released : ℕ → Action
  freed : Action
  called : ℕ → Option ℕ → ℤ → ℕ → ℕ → Action
  ticked : ℕ → Option ℕ → ℕ → Action

-- `wl_event_loop_create`, for the array that `calloc` clears.
unfoldable pub create : Loop
create = record { sources = replicate max_sources no_entry; source_count = 0 }

abbrev pub has_flag : ℕ → ℕ → Bool
has_flag mask flag = not (bit_and mask flag == 0)

-- The source that `wl_event_loop_add_fd` fills in.
abbrev pub fd_source : ℤ → ℕ → ℕ → ℕ → Source → Source
fd_source fd mask func data' src = record src {
  fd = fd;
  mask = mask;
  fd_func = some func;
  data' = data';
  dispatch_src = if has_flag mask event_readable then reads else src.dispatch_src;
}

abbrev pub fd_actions : ℕ → ℤ → ℕ → List Action
fd_actions i fd mask =
    if has_flag mask event_readable
    then created i reads ∷ resumed i ∷ []
    else if has_flag mask event_writable
    then write_watched i fd ∷ []
    else []

abbrev pub update : ℕ → (Source → Source) → List Source → List Source
update i f [] = []
update zero f (src ∷ srcs) = f src ∷ srcs
update (suc i) f (src ∷ srcs) = src ∷ update i f srcs

-- `loop->sources[loop->source_count++]`, changed by `f`; `none` is the null pointer.
abbrev pub next_source : (Source → Source) → Loop → Loop × Option ℕ
next_source f loop =
    if ltb loop.source_count max_sources
    then (
      record {
        sources = update loop.source_count f loop.sources;
        source_count = loop.source_count + 1;
      },
      some loop.source_count,
    )
    else (loop, none)

-- `wl_event_loop_add_fd`
unfoldable pub add_fd : ℤ → ℕ → ℕ → ℕ → Loop → Loop × Option ℕ × List Action
add_fd fd mask func data' loop =
    let (loop', src) = next_source (fd_source fd mask func data') loop in
    (loop', src, elim src [ none ↦ [] | some i ↦ fd_actions i fd mask ])

abbrev pub timer_source : ℕ → ℕ → Source → Source
timer_source func data' src = record src {
  is_timer = true;
  timer_func = some func;
  data' = data';
  dispatch_src = timer;
}

-- `wl_event_loop_add_timer`: the timer is not resumed.
unfoldable pub add_timer : ℕ → ℕ → Loop → Loop × Option ℕ × List Action
add_timer func data' loop =
    let (loop', src) = next_source (timer_source func data') loop in
    (loop', src, elim src [ none ↦ [] | some i ↦ created i timer ∷ [] ])

abbrev pub has_dispatch : Source → Bool
has_dispatch src = elim src.dispatch_src [ no_source ↦ false | reads ↦ true | timer ↦ true ]

-- `(uint64_t)ms * NSEC_PER_MSEC`
abbrev interval : ℤ → ℕ
interval (pos ms) = (ms * 1000000) % 2 ^ 64
interval (negsuc n) = ((2 ^ 64 - 1 - n % 2 ^ 64) * 1000000) % 2 ^ 64

abbrev is_positive : ℤ → Bool
is_positive (pos zero) = false
is_positive (pos (suc n)) = true
is_positive (negsuc n) = false

-- `wl_event_source_timer_update` of the source at `i`
unfoldable pub timer_update : ℕ → Source → ℤ → ℤ × List Action
timer_update i src ms =
    if has_dispatch src
    then (
      pos 0,
      timer_set i (interval ms) (interval ms / 10)
          ∷ (if is_positive ms && not src.cancelled then resumed i ∷ [] else []),
    )
    else (negsuc 0, [])

-- The source after `wl_event_source_remove`.
abbrev pub removed : Source → Source
removed src = record src { cancelled = true; dispatch_src = no_source }

abbrev pub remove_actions : ℕ → Option Source → List Action
remove_actions i none = []
remove_actions i (some src) = if has_dispatch src then cancelled_src i ∷ released i ∷ [] else []

-- `wl_event_source_remove` of the source at `i`
unfoldable pub source_remove : ℕ → Loop → Loop × List Action
source_remove i loop = (
  record loop { sources = update i removed loop.sources },
  remove_actions i (get_elem? loop.sources i),
)

-- The first `n` sources from index `i` on, as `wl_event_loop_destroy` walks them.
abbrev pub release_all : ℕ → ℕ → List Source → List Action
release_all zero i srcs = []
release_all (suc n) i [] = []
release_all (suc n) i (src ∷ srcs) = remove_actions i (some src) ++ release_all n (i + 1) srcs

-- `wl_event_loop_destroy`
unfoldable pub destroy : Loop → List Action
destroy loop = release_all loop.source_count 0 loop.sources ++ (freed ∷ [])

-- The event handler of a read source, and of a timer.
unfoldable pub source_ready : ℕ → Source → List Action
source_ready i src = if src.cancelled then [] else elim src.dispatch_src [
  | no_source ↦ []
  | reads ↦ called i src.fd_func src.fd event_readable src.data' ∷ []
  | timer ↦ ticked i src.timer_func src.data' ∷ []
]

-- `struct kevent`, as far as the loop reads it: the source of `udata`, whether the filter is
-- EVFILT_WRITE, and whether EV_EOF and EV_ERROR are set.
pub record Kevent : Type 0 where
  pub udata : Option ℕ
  pub is_write : Bool
  pub is_eof : Bool
  pub is_error : Bool

-- The mask that `wl_event_loop_dispatch` gives to the callback.
abbrev pub event_mask : Kevent → ℕ
event_mask e =
    (if e.is_write then event_writable else 0)
    + (if e.is_eof then event_hangup else 0)
    + (if e.is_error then event_error else 0)

abbrev pub call_source : ℕ → Kevent → Option Source → List Action
call_source i e none = []
call_source i e (some src) = if src.cancelled || (event_mask e == 0) then [] else elim src.fd_func [
  | none ↦ []
  | some func ↦ called i (some func) src.fd (event_mask e) src.data' ∷ []
]

abbrev pub kevent_of : Option ℕ → Kevent → Loop → List Action
kevent_of none e loop = []
kevent_of (some i) e loop = call_source i e (get_elem? loop.sources i)

abbrev pub one_kevent : Kevent → Loop → List Action
one_kevent e loop = kevent_of e.udata e loop

-- The loop of `wl_event_loop_dispatch` over the events that `kevent` gave; `react` is what the
-- callbacks that are run do to the loop.
unfoldable pub dispatch : (List Action → Loop → Loop) → List Kevent → Loop → Loop × List Action
dispatch react [] loop = (loop, [])
dispatch react (e ∷ es) loop =
    let out = one_kevent e loop in
    let (loop', more) = dispatch react es (react out loop) in (loop', out ++ more)

-- The `timespec` of `wl_event_loop_dispatch`; `none` is to wait without an end.
abbrev pub wait_time : ℤ → Option (ℕ × ℕ)
wait_time (pos ms) = some (ms / 1000, ms % 1000 * 1000000)
wait_time (negsuc n) = none

-- What the compositor asks of the loop.
pub data Call : Type 0 where
  adds_fd : ℤ → ℕ → ℕ → ℕ → Call
  adds_timer : ℕ → ℕ → Call
  removes : ℕ → Call

abbrev pub apply : Call → Loop → Loop × List Action
apply (adds_fd fd mask func data') loop =
    let (loop', src, out) = add_fd fd mask func data' loop in (loop', out)
apply (adds_timer func data') loop =
    let (loop', src, out) = add_timer func data' loop in (loop', out)
apply (removes i) loop = source_remove i loop

unfoldable pub run : List Call → Loop → Loop × List Action
run [] loop = (loop, [])
run (c ∷ cs) loop =
    let (loop', out) = apply c loop in let (loop'', more) = run cs loop' in (loop'', out ++ more)
