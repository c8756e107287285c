-- ===== src/Sample/Toy.antt =====
-- Crates for the examples: two keys, a checksum for a hash, and a signature that shows the key and
-- the parity of the message. They meet what the documentation says and have no security.
use Prim.Native.Nat.{zero, suc, ℕ, ◌+◌, ◌%◌}
use mathlib.Core.Path.{◌≡◌, refl, ap, ◌∙◌, sym, ap₂}
use mathlib.Core.Option.{some-injective}
use text.Mathlib.TextEquality.{Char-path}
use liquet.Common.{Bool, true, false, String, List, [], ◌∷◌, Option, none, some, nat_eq, bool_eq}
use liquet.Common.{if◌then◌else◌, ◌&&◌, All, length, arith}
use liquet.Attest.{DecisionBinding}
use liquet.Attest.Crates.{Crates, IsDocumented, IsByte}
use liquet.Attest.Verify.{bytes_of}
use liquet.Sample.Hex.{encode, decode, decode-encode, encode-IsHex}
use liquet.Sample.Receipts.{binding_codec, receipt_codec}

abbrev sum_bytes : List ℕ → ℕ
sum_bytes [] = 0
sum_bytes (b ∷ bs) = b + sum_bytes bs

-- The operator's key is `true`.
abbrev repeated : ℕ → ℕ → List ℕ
repeated zero b = []
repeated (suc n) b = b ∷ repeated n b

abbrev pub key_bytes : Bool → List ℕ
key_bytes k = repeated 32 (if k then 7 else 9)

abbrev pub parse_key : List ℕ → Option Bool
parse_key [] = none
parse_key (b ∷ _) = if nat_eq b 7 then some true else if nat_eq b 9 then some false else none

abbrev parity : List ℕ → Bool
parity m = nat_eq (sum_bytes m % 2) 1

abbrev bit : Bool → ℕ
bit b = if b then 1 else 0

abbrev signature_of : List ℕ → Option (Bool × Bool)
signature_of (k ∷ (p ∷ [])) = some (nat_eq k 1, nat_eq p 1)
signature_of _ = none

abbrev binding_text : DecisionBinding → String
binding_text b = binding_codec.enc b ""

abbrev first : {A : Type 0} → Option (A × String) → Option A
first none = none
first (some (a, _)) = some a

abbrev pub toy : Crates
toy = record {
  SigningKey = Bool;
  VerifyingKey = Bool;
  Signature = Bool × Bool;
  sha256 = λ m. (sum_bytes m % 256) ∷ (length m % 256) ∷ [];
  hex_encode = encode;
  hex_decode = decode;
  verifying_key = λ k. k;
  key_to_bytes = key_bytes;
  key_from_bytes = parse_key;
  sign = λ k m. (k, parity m);
  signature_to_bytes = λ s. bit s.0 ∷ bit s.1 ∷ [];
  signature_from_slice = signature_of;
  verify_strict = λ k m s. bool_eq k s.0 && bool_eq (parity m) s.1;
  binding_to_vec = λ b. bytes_of (binding_text b);
  decision_to_string = λ s. receipt_codec.enc s "";
  decision_from_str = λ s. first (receipt_codec.dec s);
}

bytes_of_injective : (s t : String) → bytes_of s ≡ bytes_of t → s ≡ t
bytes_of_injective String.[] String.[] h = refl
bytes_of_injective (String.◌∷◌ c s) (String.◌∷◌ d t) h =
    ap₂ String.◌∷◌ (Char-path c d (ground arith)) (bytes_of_injective s t (ground arith))
bytes_of_injective s t h = cc

binding_text_injective :
    (a b : DecisionBinding) → bytes_of (binding_text a) ≡ bytes_of (binding_text b) → a ≡ b
binding_text_injective a b h = some-injective _ _ (
    sym (ap first (binding_codec.dec-enc a ""))
    ∙ (ap (λ t. first (binding_codec.dec t)) (bytes_of_injective _ _ h)
        ∙ ap first (binding_codec.dec-enc b "")))

pub key_facts : (k : Bool) → All IsByte (key_bytes k)
key_facts true = omega arith
key_facts false = omega arith

pub toy-IsDocumented : IsDocumented toy
toy-IsDocumented = record {
  sha256_bytes = λ m. omega arith;
  decode-encode = decode-encode;
  encode_hex = encode-IsHex;
  key_bytes = key_facts;
  key_length = elim [ true ↦ refl | false ↦ refl ];
  key_from-to = elim [ true ↦ refl | false ↦ refl ];
  signature_bytes = λ s. ground arith;
  signature_from-to = λ s. ground arith;
  verify-sign = λ k m. ground arith;
  to_vec_injective = binding_text_injective;
  from-to_string = λ s. ap first (receipt_codec.dec-enc s "");
}
