-- ===== src/Demo/Decimal.antt =====
-- demo/main.cpp: the decimal digits of a number.
use httpserver_cpp.Base.{
  ℕ, zero, suc, ◌+◌, ◌*◌, ◌-◌, ◌/◌, ◌%◌, ◌<◌, ◌≤◌, ◌≡◌, ap, ◌∙◌, [], ◌∷◌, Bytes, Bool-cases, inl,
  inr, ltb, All, arith,
}
use httpserver_cpp.Demo.{digits, decimal}

-- The number that the digits stand for, after a number `n`.
abbrev pub value : ℕ → Bytes → ℕ
value n [] = n
value n (c ∷ s) = value (n * 10 + (c - b'0')) s

abbrev pub IsDigit : ℕ → Type 0
IsDigit c = (b'0' ≤ c) × (c ≤ b'9')

digits_lem :
    (fuel n : ℕ) (s : Bytes)
    → n < fuel
    → All IsDigit s
    → (value 0 (digits fuel n s) ≡ value n s) × All IsDigit (digits fuel n s)
unfolding digits
digits_lem zero n s enough all = absurd (omega arith)
digits_lem (suc fuel) n s enough all = elim (Bool-cases (ltb n 10)) [
  | inl small ↦
      let below : n < 10 = ground arith in
      rw small (ap (λ k. value k s) (omega arith), (omega arith, all))
  | inr large ↦
      let above : 10 ≤ n = ground arith in
      let (same, each) =
        digits_lem fuel (n / 10) ((b'0' + n % 10) ∷ s) (omega arith) (omega arith, all) in
      rw large (same ∙ ap (λ k. value k s) (omega arith), each)
]

-- The fuel is enough: the digits are those of the number.
pub value-decimal : (n : ℕ) → (value 0 (decimal n) ≡ n) × All IsDigit (decimal n)
unfolding decimal
value-decimal n = digits_lem (suc n) n [] (omega arith) tt
