-- ===== src/Prelude/Bits.antt =====
-- `&` with a mask that clears the low bits, as arithmetic.
use Prim.Native.Nat.{
  ℕ, zero, suc, ◌+◌, ◌-◌, ◌*◌, ◌/◌, ◌%◌, ◌≤◌, ◌<◌, ◌^◌, min, bit_and, digits, bit_and-bitwise,
}
use mathlib.Core.Path.{◌≡◌, refl, ◌∙◌, sym}
use native.Mathlib.Omega.{arith}

-- The digit recursion that the native operation stands for, on `fuel` digits.
abbrev conj : ℕ → ℕ → ℕ → ℕ
conj fuel = digits (λ y. 0) min fuel

conj-zero : (k b : ℕ) → conj k 0 b ≡ 0
conj-zero zero b = refl
conj-zero (suc k) b = refl

-- Any two amounts of fuel that cover the first operand give one result.
conj_fuel : (a b k l : ℕ) → a ≤ k → a ≤ l → conj k a b ≡ conj l a b
conj_fuel zero b k l p q = conj-zero k b ∙ sym (conj-zero l b)
conj_fuel (suc a) b zero l p q = absurd (omega arith)
conj_fuel (suc a) b (suc k) zero p q = absurd (omega arith)
conj_fuel (suc a) b (suc k) (suc l) p q =
    omega (arith, conj_fuel (suc a / 2) (b / 2) k l (omega arith) (omega arith))

-- One binary digit of `&`.
bit_and-halves : (a b : ℕ) → bit_and a b ≡ bit_and (a / 2) (b / 2) * 2 + min (a % 2) (b % 2)
bit_and-halves zero b =
    omega
      (arith, bit_and-bitwise 0 b, bit_and-bitwise 0 (b / 2), conj-zero 0 b, conj-zero 0 (b / 2))
bit_and-halves (suc a) b = omega (
  arith,
  bit_and-bitwise (suc a) b,
  bit_and-bitwise (suc a / 2) (b / 2),
  conj_fuel (suc a / 2) (b / 2) a (suc a / 2) (omega arith) (omega arith),
)

-- The mask of `k` ones.
abbrev pub ones : ℕ → ℕ
ones zero = 0
ones (suc k) = 2 * ones k + 1

pub bit_and-ones : (k a : ℕ) → a ≤ ones k → bit_and a (ones k) ≡ a
bit_and-ones zero zero h = refl
bit_and-ones zero (suc a) h = absurd (omega arith)
bit_and-ones (suc k) a h =
    omega (arith, bit_and-halves a (ones (suc k)), bit_and-ones k (a / 2) (omega arith), ap_half)
  where
    ap_half : bit_and (a / 2) (ones (suc k) / 2) ≡ bit_and (a / 2) (ones k)
    ap_half = let e : ones (suc k) / 2 ≡ ones k = omega arith in rw e

-- Clearing the lowest bit of a mask that clears more.
pub bit_and-double : (a m : ℕ) → bit_and a (m * 2) ≡ bit_and (a / 2) m * 2
bit_and-double a m =
    let e : m * 2 / 2 ≡ m = omega arith in
    let s : bit_and a (m * 2) ≡ bit_and (a / 2) (m * 2 / 2) * 2 + min (a % 2) (m * 2 % 2) =
      bit_and-halves a (m * 2) in
    omega (arith, rw e at s)

-- `a & ~63` on `uint32_t` rounds down to a multiple of 64.
pub bit_and-not_63 : (a : ℕ) → a < 2 ^ 32 → bit_and a (2 ^ 32 - 1 - 63) ≡ a / 64 * 64
bit_and-not_63 a h = omega (
  arith,
  bit_and-double a 2147483616,
  bit_and-double (a / 2) 1073741808,
  bit_and-double (a / 2 / 2) 536870904,
  bit_and-double (a / 2 / 2 / 2) 268435452,
  bit_and-double (a / 2 / 2 / 2 / 2) 134217726,
  bit_and-double (a / 2 / 2 / 2 / 2 / 2) 67108863,
  bit_and-ones 26 (a / 2 / 2 / 2 / 2 / 2 / 2) (omega arith),
)
