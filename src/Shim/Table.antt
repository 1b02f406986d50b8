-- ===== src/Shim/Table.antt =====
-- The table of dumb buffers: `findBO` after a write, and what `allocHandle` finds.
use luna_os_arm.Prelude.{
  ℕ, zero, suc, ◌+◌, ◌-◌, ◌≤◌, ◌<◌, ◌≡◌, refl, ◌∙◌, ◌⊎◌, inl, inr, true, Option, none, some, List,
  [], ◌∷◌, arith, ◌==◌, if◌then◌else◌, get_elem?, length, get_elem?-set_self, get_elem?-set_ne,
  Bool-cases,
}
use luna_os_arm.Shim.{
  Shim, DumbBo, find_bo, if_in_use, first_free, alloc_handle, put_bo, max_dumb_bos,
}

-- `findBO` after a write to a slot.
pub find_bo-put_bo :
    (s : Shim) (h k : ℕ) (b : DumbBo)
    → length s.bos ≡ max_dumb_bos
    → 1 ≤ h
    → h ≤ max_dumb_bos
    → find_bo (put_bo s h b) k ≡ (if k == h then if_in_use (some b) else find_bo s k)
unfolding find_bo
find_bo-put_bo s h k b n lo hi = ground (
  arith,
  get_elem?-set_self s.bos (h - 1) b (omega arith),
  get_elem?-set_ne s.bos (h - 1) (k - 1) b,
)

-- A handle that `findBO` accepts is in range.
pub find_bo_range :
    (s : Shim) (h : ℕ) {b : DumbBo} → find_bo s h ≡ some b → (1 ≤ h) × (h ≤ max_dumb_bos)
unfolding find_bo
find_bo_range s h e = ground arith

pub find_bo-in_use : (s : Shim) (h : ℕ) {b : DumbBo} → find_bo s h ≡ some b → b.in_use ≡ true
unfolding find_bo
find_bo-in_use s h e = ground arith

-- A slot that is taken.
abbrev Busy : Option DumbBo → Type 0
Busy o = (b : DumbBo) × (if_in_use o ≡ some b)

-- What the loop of `allocHandle` finds.
abbrev Found : List DumbBo → ℕ → ℕ → Type 0
Found bs i r =
    ((r ≡ 0) × ((j : ℕ) → j < length bs → Busy (get_elem? bs j)))
    ⊎ ((k : ℕ) × (r ≡ i + k + 1)
        × (k < length bs)
        × (if_in_use (get_elem? bs k) ≡ none)
        × ((j : ℕ) → j < k → Busy (get_elem? bs j)))

Busy-cons :
    (b : DumbBo) (bs : List DumbBo) (n : ℕ)
    → b.in_use ≡ true
    → ((j : ℕ) → j < n → Busy (get_elem? bs j))
    → (j : ℕ) → j < suc n
    → Busy (get_elem? (b ∷ bs) j)
Busy-cons b bs n used h zero lt = (b, rw used)
Busy-cons b bs n used h (suc j) lt = h j (omega arith)

Found-cons :
    (b : DumbBo) (bs : List DumbBo) (i r : ℕ)
    → b.in_use ≡ true
    → Found bs (i + 1) r
    → Found (b ∷ bs) i r
Found-cons b bs i r used (inl (e, all)) = inl (e, Busy-cons b bs (length bs) used all)
Found-cons b bs i r used (inr (k, e, lt, free, below)) =
    inr (suc k, omega arith, omega arith, free, Busy-cons b bs k used below)

first_free-Found : (bs : List DumbBo) (i : ℕ) → Found bs i (first_free bs i)
unfolding first_free
first_free-Found [] i = inl (refl, λ j h. elim h [ ])
first_free-Found (b ∷ bs) i = elim (Bool-cases b.in_use) [
  | inl used ↦ simp used (Found-cons b bs i _ used (first_free-Found bs (i + 1)))
  | inr free ↦ simp free (inr (0, omega arith, omega arith, simp free, λ j h. elim h [ ]))
]

-- A handle that `findBO` accepts.
abbrev pub Live : Shim → ℕ → Type 0
Live s h = (b : DumbBo) × (find_bo s h ≡ some b)

-- 0 if every handle is live, and else the least handle that is not.
abbrev pub LeastFree : Shim → ℕ → Type 0
LeastFree s r =
    ((r ≡ 0) × ((h : ℕ) → 1 ≤ h → h ≤ max_dumb_bos → Live s h))
    ⊎ ((1 ≤ r) × (r ≤ max_dumb_bos) × (find_bo s r ≡ none) × ((h : ℕ) → 1 ≤ h → h < r → Live s h))

find_bo_slot :
    (s : Shim) (h : ℕ)
    → 1 ≤ h
    → h ≤ max_dumb_bos
    → find_bo s h ≡ if_in_use (get_elem? s.bos (h - 1))
unfolding find_bo
find_bo_slot s h lo hi = ground arith

slot-Live :
    (s : Shim) (h : ℕ) → 1 ≤ h → h ≤ max_dumb_bos → Busy (get_elem? s.bos (h - 1)) → Live s h
slot-Live s h lo hi (b, e) = (b, find_bo_slot s h lo hi ∙ e)

Found-LeastFree : (s : Shim) (r : ℕ) → length s.bos ≡ max_dumb_bos → Found s.bos 0 r → LeastFree s r
Found-LeastFree s r n (inl (e, all)) =
    inl (e, λ h lo hi. slot-Live s h lo hi (all (h - 1) (omega arith)))
Found-LeastFree s r n (inr (k, e, lt, free, below)) = inr (
  omega arith,
  omega arith,
  find_bo_slot s r (omega arith) (omega arith) ∙ (let i : r - 1 ≡ k = omega arith in rw i free),
  λ h lo hi. slot-Live s h lo (omega arith) (below (h - 1) (omega arith)),
)

-- On a table of 256 slots `allocHandle` returns the least handle that is not live, or 0 if all 256
-- handles are live.
pub alloc_handle_least : (s : Shim) → length s.bos ≡ max_dumb_bos → LeastFree s (alloc_handle s)
unfolding alloc_handle
alloc_handle_least s n = Found-LeastFree s (first_free s.bos 0) n (first_free-Found s.bos 0)
