-- ===== src/Text/Decimal.antt =====
-- Decimal print and parse: a number written by `decimal` is read back by `atoi`.
use Prim.Native.Char.{code}
use Prim.Native.String.{[], ◌∷◌}
use mathlib.Core.Logic.{dif_pos}
use native.Mathlib.Bridge.{le_prop}
use native.Mathlib.Decide.{dec_lt}
use model_interface_gateway.Base.{
  ℕ, zero, suc, String, ◌≡◌, ◌∙◌, ap, refl, ◌+◌, ◌*◌, ◌/◌, ◌%◌, ◌≤◌, ◌<◌, some, arith, ltb,
  Bool-cases, inl, inr,
}
use model_interface_gateway.Base.Int.{pos, max_int64}
use model_interface_gateway.Text.{of_code, digit, decimal_from, decimal, parse_digits, atoi}

pub code-of_code : (n : ℕ) → n < 55296 → code (of_code n) ≡ n
unfolding of_code
code-of_code n h = ap code (dif_pos (dec_lt n 55296) le_prop h _ _)

code-digit : (n : ℕ) → n < 10 → code (digit n) ≡ n + b'0'
unfolding digit
code-digit n h = ground (arith, code-of_code (n + b'0'))

-- One digit more on the right.
parse_digits-digit :
    (n d : ℕ) (rest : String)
    → d < 10
    → parse_digits n (digit d ∷ rest) ≡ parse_digits (n * 10 + d) rest
unfolding parse_digits
parse_digits-digit n d rest h = ground (arith, code-digit d)

parse_digits-decimal_from :
    (fuel n : ℕ) (rest : String)
    → n < fuel
    → parse_digits 0 (decimal_from fuel n rest) ≡ parse_digits n rest
unfolding decimal_from
parse_digits-decimal_from zero n rest h = elim h [ ]
parse_digits-decimal_from (suc fuel) n rest h = elim (Bool-cases (ltb n 10)) [
  | inl last ↦ rw last (
      parse_digits-digit 0 n rest (ground arith)
      ∙ ap (λ (m : ℕ). parse_digits m rest) (omega arith))
  | inr more ↦ rw more (
      parse_digits-decimal_from fuel (n / 10) (digit (n % 10) ∷ rest) (ground arith)
      ∙ parse_digits-digit (n / 10) (n % 10) rest (omega arith)
      ∙ ap (λ (m : ℕ). parse_digits m rest) (omega arith))
]

-- The first character is a digit.
abbrev StartsDigit : String → Type 0
StartsDigit [] = ⊥
StartsDigit (c ∷ s) = (b'0' ≤ code c) × (code c ≤ b'9')

decimal_from-StartsDigit :
    (fuel n : ℕ) (rest : String) → n < fuel → StartsDigit (decimal_from fuel n rest)
unfolding decimal_from
decimal_from-StartsDigit zero n rest h = elim h [ ]
decimal_from-StartsDigit (suc fuel) n rest h = elim (Bool-cases (ltb n 10)) [
  | inl last ↦ rw last (ground (arith, code-digit n), ground (arith, code-digit n))
  | inr more ↦
      rw more (decimal_from-StartsDigit fuel (n / 10) (digit (n % 10) ∷ rest) (ground arith))
]

atoi_of_StartsDigit :
    (s : String) (n : ℕ)
    → StartsDigit s
    → parse_digits 0 s ≡ some n
    → n ≤ max_int64
    → atoi s ≡ some (pos n)
unfolding atoi
atoi_of_StartsDigit [] n h e small = elim h [ ]
atoi_of_StartsDigit (c ∷ s) zero h e small = ground arith
atoi_of_StartsDigit (c ∷ s) (suc n) h e small = ground arith

-- A number that fits an `int` is read back from its decimal text.
pub atoi-decimal : (n : ℕ) → n ≤ max_int64 → atoi (decimal n) ≡ some (pos n)
atoi-decimal n h =
    atoi_of_StartsDigit (decimal n) n (decimal_from-StartsDigit (suc n) n [] (omega arith))
      (parse_digits-decimal_from (suc n) n [] (omega arith) ∙ unfold parse_digits in refl) h
