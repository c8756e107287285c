-- ===== src/Sample/Hex.antt =====
-- Lower-case hexadecimal text and its reader.
use Prim.Native.Nat.{ℕ, zero, suc, ◌+◌, ◌-◌, ◌*◌, ◌/◌, ◌%◌, ◌<◌}
use Prim.Native.Char.{Char, code}
use Prim.Native.String.{String, [], ◌∷◌}
use mathlib.Core.Path.{◌≡◌, refl, ap}
use mathlib.Core.Bool.{Bool, true, ◌&&◌}
use mathlib.Core.Option
use mathlib.Core.Option.{Option, none, some}
use mathlib.Core.List.{List}
use native.Mathlib.Omega.{arith}
use liquet.Common.{nat_eq, nat_eq_iff, leb, if◌then◌else◌, All}
use liquet.Attest.Crates.{IsByte, IsHex, IsHexDigit}

-- A digit picked by binary choice on its four bits.
abbrev pick : {A : Type 0} → ℕ → A → A → A
pick zero a b = a
pick (suc _) a b = b

hex_digit : ℕ → Char
hex_digit n =
    pick (n / 8 % 2)
      (pick (n / 4 % 2) (pick (n / 2 % 2) (pick (n % 2) "0" "1") (pick (n % 2) "2" "3"))
        (pick (n / 2 % 2) (pick (n % 2) "4" "5") (pick (n % 2) "6" "7")))
      (pick (n / 4 % 2) (pick (n / 2 % 2) (pick (n % 2) "8" "9") (pick (n % 2) "a" "b"))
        (pick (n / 2 % 2) (pick (n % 2) "c" "d") (pick (n % 2) "e" "f")))

value : ℕ → ℕ
value c = if leb b'a' c then c - 87 else if leb b'A' c then c - 55 else c - 48

-- A test that is checked digit by digit.
module _ (test : ℕ → Bool) where
  passes_to : ℕ → Bool
  passes_to (suc last) = passes_to last && test last
  passes_to zero = true

  test_of_passes : (digit count : ℕ) → digit < count → passes_to count ≡ true → test digit ≡ true
  unfolding passes_to
  test_of_passes digit (suc last) small all = ground (arith, test_of_passes digit last)
  test_of_passes digit zero small all = absurd (omega arith)

value_table : passes_to (λ n. nat_eq (value (code (hex_digit n))) n) 16 ≡ true
unfolding passes_to value hex_digit
value_table = refl

value-hex_digit : (n : ℕ) → n < 16 → value (code (hex_digit n)) ≡ n
value-hex_digit n h = (nat_eq_iff _ n).0 (test_of_passes _ n 16 h value_table)

abbrev is_hex_digit : ℕ → Bool
is_hex_digit c = if leb c b'9' then leb b'0' c else leb b'a' c && leb c b'f'

digit_table : passes_to (λ n. is_hex_digit (code (hex_digit n))) 16 ≡ true
unfolding passes_to hex_digit
digit_table = refl

IsHexDigit-of_test : (c : ℕ) → is_hex_digit c ≡ true → IsHexDigit c
IsHexDigit-of_test c h = ground arith

hex_digit-IsHexDigit : (n : ℕ) → n < 16 → IsHexDigit (code (hex_digit n))
hex_digit-IsHexDigit n h = IsHexDigit-of_test _ (test_of_passes _ n 16 h digit_table)

unfoldable pub encode : List ℕ → String
unfolding hex_digit
encode List.[] = []
encode (List.◌∷◌ b bs) = hex_digit (b / 16) ∷ (hex_digit (b % 16) ∷ encode bs)

unfoldable pub decode : String → Option (List ℕ)
unfolding value
decode [] = some List.[]
decode (c ∷ []) = none
decode (c ∷ (d ∷ s)) =
    Option.map (λ bs. List.◌∷◌ (16 * value (code c) + value (code d)) bs) (decode s)

pub decode-encode : (bs : List ℕ) → All IsByte bs → decode (encode bs) ≡ some bs
unfolding decode encode
decode-encode List.[] h = refl
decode-encode (List.◌∷◌ b bs) (lt, h) = rw (decode-encode bs h) (
    ap (λ (x : ℕ). some (List.◌∷◌ x bs))
      (omega
        (arith, value-hex_digit (b / 16) (omega arith), value-hex_digit (b % 16) (omega arith))))

pub encode-IsHex : (bs : List ℕ) → All IsByte bs → IsHex (encode bs)
unfolding encode
encode-IsHex List.[] h = tt
encode-IsHex (List.◌∷◌ b bs) (lt, h) = (
  hex_digit-IsHexDigit (b / 16) (omega arith),
  (hex_digit-IsHexDigit (b % 16) (omega arith), encode-IsHex bs h),
)
