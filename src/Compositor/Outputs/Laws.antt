-- ===== src/Compositor/Outputs/Laws.antt =====
-- The scale that the outputs of compositor/src/main.c leave in the server.
use luna_os_arm.Prelude.{
  ℕ, zero, suc, ◌^◌, ◌/◌, ◌*◌, ◌+◌, ◌%◌, ◌<◌, ◌≤◌, ◌≡◌, subst, inl, inr, Bool, true, false, Option,
  none, some, List, [], ◌∷◌, ltb, Bool-cases, bind-some, arith,
}
use native.Mathlib.Nat.{div-add-mod', mod-lt}
use luna_os_arm.Compositor.Outputs.{
  Scale, Monitor, Outputs, Request, above_one, to_int, scale_of, server_new_output, run,
}

pow2_pos : (k : ℕ) → 0 < 2 ^ k
pow2_pos zero = omega arith
pow2_pos (suc k) = omega (arith, pow2_pos k)

no_quotient : (q m d r : ℕ) → q ≡ 0 → q * d + r ≡ m → r < d → m < d
no_quotient q m d r none_there whole part =
    let whole' : 0 * d + r ≡ m = subst (λ (n : ℕ). n * d + r ≡ m) none_there whole in omega arith

-- The quotient by a smaller number.
quotient_pos : (m d : ℕ) → 0 < d → d < m → 1 ≤ m / d
quotient_pos m d pos lt = elim (Bool-cases (ltb 0 (m / d))) [
  | inl there ↦ ground arith
  | inr empty ↦
      let less : m < d =
        no_quotient (m / d) m d (m % d) (ground arith) (div-add-mod' m d) (mod-lt m pos) in
      absurd (omega arith)
]

to_int-pos : (s : Scale) (n : ℕ) → above_one s ≡ true → to_int s ≡ some n → (1 ≤ n) × (n < 2 ^ 31)
to_int-pos s n above e =
    let pos = quotient_pos s.mantissa (2 ^ s.exponent) (pow2_pos s.exponent) (ground arith) in
    elim (Bool-cases (ltb (s.mantissa / 2 ^ s.exponent) (2 ^ 31))) [
      | inl small ↦
          let same : s.mantissa / 2 ^ s.exponent ≡ n = (let e' = simp small at e in cc) in
          subst (λ (k : ℕ). (1 ≤ k) × (k < 2 ^ 31)) same (pos, ground arith)
      | inr large ↦ absurd (ground (arith, e))
    ]

scale_of-int :
    (s : Scale) (old n : ℕ)
    → (1 ≤ old) × (old < 2 ^ 31)
    → scale_of s old ≡ some n
    → (1 ≤ n) × (n < 2 ^ 31)
unfolding scale_of
scale_of-int s old n int e = elim (Bool-cases (above_one s)) [
  | inl above ↦ to_int-pos s n above (simp above at e)
  | inr below ↦
      let same : some old ≡ some n = simp below at e in
      subst (λ (k : ℕ). (1 ≤ k) × (k < 2 ^ 31)) (cc same) int
]

-- The scale in the server is an `int` and not zero.
abbrev pub IsInt : Outputs → Type 0
IsInt s = (1 ≤ s.output_scale) × (s.output_scale < 2 ^ 31)

server_new_output-IsInt :
    (m : Monitor) (s : Outputs) (r : Outputs × List Request)
    → IsInt s
    → server_new_output true m s ≡ some r
    → IsInt r.0
unfolding server_new_output
server_new_output-IsInt m s r int e =
    let (n, c, e') = bind-some (scale_of m.scale s.output_scale) e in
    let bounds = scale_of-int m.scale s.output_scale n int c in
    subst (λ (t : Option (Outputs × List Request)). elim t [ none ↦ Unit | some q ↦ IsInt q.0 ]) e'
      bounds

-- Whatever outputs come, with whatever scales, as long as none faults: the scale that the server
-- keeps stays a positive `int`, below 2^31.
pub run-output_scale :
    (ms : List (Bool × Monitor)) (s s' : Outputs) (out : List Request)
    → IsInt s
    → run ms s ≡ some (s', out)
    → IsInt s'
unfolding run server_new_output
run-output_scale [] s s' out int e =
    (let same : some (s, []) ≡ some (s', out) = e in
      let at : s ≡ s' = cc same in subst IsInt at int)
run-output_scale ((false, m) ∷ ms) s s' out int e = cc
run-output_scale ((true, m) ∷ ms) s s' out int e =
    let ((t, made), a, e') = bind-some (server_new_output true m s) e in
    let ((t', more), b, e'') = bind-some (run ms t) e' in
    let last : t' ≡ s' = cc in
    subst IsInt last (run-output_scale ms t t' more (server_new_output-IsInt m s (t, made) int a) b)
