-- ===== src/Gbm/Swap.antt =====
-- The order in which darwin-gbm.c hands out the two buffers of a surface, and mapping a buffer.
use luna_os_arm.Prelude.{
  ℕ, zero, suc, ◌+◌, ◌%◌, ◌≡◌, refl, true, false, some, List, arith, get_elem?,
}
use luna_os_arm.Device.{Device}
use luna_os_arm.Gbm.{Bo, bo_map}
use luna_os_arm.Gbm.Surface.{
  Surface, back_index, lock_front_buffer, release_buffer, has_free_buffers, new_surface,
}

-- One turn of a client: lock the next buffer, then release it.
abbrev turn : Surface → Surface
turn surf = release_buffer (lock_front_buffer surf).1

abbrev pub turns : ℕ → Surface → Surface
turns zero surf = surf
turns (suc n) surf = turns n (turn surf)

-- The buffer that the next lock gives has the parity of `n`, and the surface is unlocked.
record Phase (bos : List Bo) (n : ℕ) (surf : Surface) : Type 0 where
  same : surf.bos ≡ bos
  parity : back_index surf.front ≡ n % 2
  free : surf.locked ≡ false

turn-Phase :
    (bos : List Bo) (n : ℕ) (surf : Surface) → Phase bos n surf → Phase bos (n + 1) (turn surf)
unfolding lock_front_buffer release_buffer back_index
turn-Phase bos n surf p = record { same = p.same; parity = omega (arith, p.parity); free = refl }

turns-Phase :
    (bos : List Bo) (k n m : ℕ) (surf : Surface)
    → n + k ≡ m
    → Phase bos n surf
    → Phase bos m (turns k surf)
turns-Phase bos zero n m surf e p = let e' : n ≡ m = omega arith in rw (← e') p
turns-Phase bos (suc k) n m surf e p =
    turns-Phase bos k (n + 1) m (turn surf) (omega arith) (turn-Phase bos n surf p)

new_surface-Phase :
    (w h fmt flags : ℕ) (bos : List Bo) → Phase bos 0 (new_surface w h fmt flags bos)
unfolding back_index
new_surface-Phase w h fmt flags bos = record { same = refl; parity = refl; free = refl }

-- A client of a new surface that locks and releases in turn is given the two buffers alternately,
-- the first one first; between turns the surface has a free buffer, while one is locked it has
-- none.
pub lock_alternates :
    (w h fmt flags : ℕ) (bos : List Bo) (n : ℕ)
    → let surf = turns n (new_surface w h fmt flags bos) in
      ((lock_front_buffer surf).0 ≡ get_elem? bos (n % 2))
      × (has_free_buffers surf ≡ true)
      × (has_free_buffers (lock_front_buffer surf).1 ≡ false)
unfolding lock_front_buffer has_free_buffers
lock_alternates w h fmt flags bos n =
    let p =
      turns-Phase bos n 0 n (new_surface w h fmt flags bos) (omega arith)
        (new_surface-Phase w h fmt flags bos) in
    (rw (p.same, p.parity), rw p.free, refl)

-- A buffer object is mapped once: after a successful `gbm_bo_map` every further one gives the same
-- stride and address, on whatever state, and leaves the object alone.
pub bo_map_once :
    (d : Device) (bo : Bo) (s t : d.State) (out : ℕ × ℕ)
    → (bo_map d bo s).0 ≡ some out
    → bo_map d (bo_map d bo s).1 t ≡ (some out, (bo_map d bo s).1)
unfolding bo_map
bo_map_once d bo s t out e = ground arith
