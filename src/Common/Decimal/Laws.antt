-- ===== src/Common/Decimal/Laws.antt =====
-- Two numbers that print alike are equal: printing has a left inverse.
use Prim.Native.Nat.{ℕ, zero, suc, ◌+◌, ◌-◌, ◌*◌, ◌/◌, ◌%◌, ◌<◌}
use Prim.Native.Char.{code}
use Prim.Native.String.{String, ◌++◌, [], ◌∷◌}
use mathlib.Core.Path.{◌≡◌, ap, ◌∙◌, sym}
use mathlib.Core.Logic.{inl, inr}
use native.Mathlib.Omega.{arith}
use text.Mathlib.TextLemmas.{cons-append, nil-append}
use liquet.Common.Booleans.{ltb, Bool-cases}
use liquet.Common.Decimal.{digit, digits_from, to_string}

abbrev read_from : ℕ → String → ℕ
read_from acc [] = acc
read_from acc (c ∷ s) = read_from (10 * acc + (code c - 48)) s

read_from-append : (acc : ℕ) (s t : String) → read_from acc (s ++ t) ≡ read_from (read_from acc s) t
read_from-append acc [] t = rw nil-append
read_from-append acc (c ∷ s) t = rw cons-append (read_from-append (10 * acc + (code c - 48)) s t)

read_from-digit : (acc d : ℕ) → d < 10 → read_from acc (digit d) ≡ 10 * acc + d
read_from-digit acc zero h = omega arith
read_from-digit acc (suc zero) h = omega arith
read_from-digit acc (suc (suc zero)) h = omega arith
read_from-digit acc (suc (suc (suc zero))) h = omega arith
read_from-digit acc (suc (suc (suc (suc zero)))) h = omega arith
read_from-digit acc (suc (suc (suc (suc (suc zero))))) h = omega arith
read_from-digit acc (suc (suc (suc (suc (suc (suc zero)))))) h = omega arith
read_from-digit acc (suc (suc (suc (suc (suc (suc (suc zero))))))) h = omega arith
read_from-digit acc (suc (suc (suc (suc (suc (suc (suc (suc zero)))))))) h = omega arith
read_from-digit acc (suc (suc (suc (suc (suc (suc (suc (suc (suc n))))))))) h = omega arith

read_from-digits_from : (fuel n : ℕ) → n < fuel → read_from 0 (digits_from fuel n) ≡ n
unfolding digits_from
read_from-digits_from zero n h = elim h [ ]
read_from-digits_from (suc fuel) n h = elim (Bool-cases (ltb n 10)) [
  | inl small ↦ rw small (read_from-digit 0 n (ground arith) ∙ omega arith)
  | inr large ↦
      rw (large, read_from-append, read_from-digits_from fuel (n / 10) (ground arith))
        (read_from-digit (n / 10) (n % 10) (omega arith) ∙ omega arith)
]

pub to_string_injective : (m n : ℕ) → to_string m ≡ to_string n → m ≡ n
unfolding to_string
to_string_injective m n h =
    sym (read_from-digits_from (suc m) m (omega arith))
    ∙ (ap (read_from 0) h ∙ read_from-digits_from (suc n) n (omega arith))
