-- ===== src/Common/Decimal.antt =====
-- A number's decimal digits are read back.
use Prim.Native.Nat.{ℕ, zero, suc, ◌+◌, ◌-◌, ◌*◌, ◌/◌, ◌%◌, ◌<◌}
use mathlib.Core.Path.{◌≡◌, ap, ◌∙◌}
use mathlib.Core.Bool.{◌&&◌}
use mathlib.Core.List.{List, [], ◌∷◌, ◌++◌, append_assoc}
use native.Mathlib.Omega.{arith}
use strym_core.Common.Tests.{ltb, leb, if◌then◌else◌, Bool-cases, tests}
use strym_core.Common.Text.{digits, decimal}
use mathlib.Core.Logic.{inl, inr}

-- The number whose digits stand at the front, behind the digits of `acc`.
unfoldable pub read_number : ℕ → List ℕ → ℕ
read_number acc [] = acc
read_number acc (c ∷ rest) =
    let more = read_number (acc * 10 + (c - 48)) rest in if leb 48 c && ltb c 58 then more else acc

read_digit :
    (acc d : ℕ) (rest : List ℕ)
    → d < 10
    → read_number acc ((48 + d) ∷ rest) ≡ read_number (acc * 10 + d) rest
unfolding read_number
read_digit acc d rest h = let e : 48 + d - 48 ≡ d = omega arith in rw e (ground arith)

read_number-digits :
    (fuel n : ℕ) (rest : List ℕ)
    → n < fuel
    → read_number 0 (digits fuel n ++ rest) ≡ read_number n rest
unfolding digits
read_number-digits zero n rest h = absurd (omega arith)
read_number-digits (suc fuel) n rest h = elim (Bool-cases (ltb n 10)) [
  | inl small ↦
      rw small (read_digit 0 n rest (omega tests) ∙ ap (λ k. read_number k rest) (omega arith))
  | inr large ↦
      rw (large, append_assoc (digits fuel (n / 10)) ((48 + n % 10) ∷ []) rest)
        (read_number-digits fuel (n / 10) ((48 + n % 10) ∷ rest) (ground arith)
          ∙ (read_digit (n / 10) (n % 10) rest (omega arith)
              ∙ ap (λ k. read_number k rest) (omega arith)))
]

pub read_number-decimal :
    (n : ℕ) (rest : List ℕ) → read_number 0 (decimal n ++ rest) ≡ read_number n rest
unfolding decimal
read_number-decimal n rest = read_number-digits (n + 1) n rest (omega arith)
