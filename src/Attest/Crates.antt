-- ===== src/Attest/Crates.antt =====
-- What src/attest.rs and src/erc8004 call of the crates `sha2`, `hex`, `ed25519-dalek` and
-- `serde_json`, and what these document of it. Bytes are numbers below 256.
use Prim.Native.Char.{code}
use liquet.Common.{ℕ, ◌<◌, ◌≤◌, ◌≡◌, ◌≢◌, ◌⊎◌, Bool, true, String, List, Option, some, All, length}
use liquet.Attest.{DecisionBinding, SignedDecision}

abbrev pub IsByte : ℕ → Type 0
IsByte b = b < 256

-- A digit, or a letter from `a` to `f`.
abbrev pub IsHexDigit : ℕ → Type 0
IsHexDigit c = ((b'0' ≤ c) × (c ≤ b'9')) ⊎ ((b'a' ≤ c) × (c ≤ b'f'))

abbrev pub IsHex : String → Type 0
IsHex String.[] = Unit
IsHex (String.◌∷◌ c s) = IsHexDigit (code c) × IsHex s

pub record Crates : Type 1 where
  pub SigningKey : Type 0
  pub VerifyingKey : Type 0
  pub Signature : Type 0
  -- `Sha256`, over all the bytes that the updates fed, in their order
  pub sha256 : List ℕ → List ℕ
  pub hex_encode : List ℕ → String
  pub hex_decode : String → Option (List ℕ)
  pub verifying_key : SigningKey → VerifyingKey
  pub key_to_bytes : VerifyingKey → List ℕ
  pub key_from_bytes : List ℕ → Option VerifyingKey
  pub sign : SigningKey → List ℕ → Signature
  pub signature_to_bytes : Signature → List ℕ
  pub signature_from_slice : List ℕ → Option Signature
  pub verify_strict : VerifyingKey → List ℕ → Signature → Bool
  -- `serde_json::to_vec` of a binding; the code expects that it cannot fail
  pub binding_to_vec : DecisionBinding → List ℕ
  -- `serde_json::to_string` and `from_str` of a signed decision
  pub decision_to_string : SignedDecision → String
  pub decision_from_str : String → Option SignedDecision

pub record IsDocumented (c : Crates) : Type 0 where
  pub sha256_bytes : (m : List ℕ) → All IsByte (c.sha256 m)
  pub decode-encode : (bs : List ℕ) → All IsByte bs → c.hex_decode (c.hex_encode bs) ≡ some bs
  -- `encode` writes lower case
  pub encode_hex : (bs : List ℕ) → All IsByte bs → IsHex (c.hex_encode bs)
  pub key_bytes : (k : c.VerifyingKey) → All IsByte (c.key_to_bytes k)
  pub key_length : (k : c.VerifyingKey) → length (c.key_to_bytes k) ≡ 32
  pub key_from-to : (k : c.VerifyingKey) → c.key_from_bytes (c.key_to_bytes k) ≡ some k
  pub signature_bytes : (s : c.Signature) → All IsByte (c.signature_to_bytes s)
  pub signature_from-to :
      (s : c.Signature) → c.signature_from_slice (c.signature_to_bytes s) ≡ some s
  pub verify-sign :
      (k : c.SigningKey) (m : List ℕ) → c.verify_strict (c.verifying_key k) m (c.sign k m) ≡ true
  -- the output of `to_vec` parses back to the value
  pub to_vec_injective : (a b : DecisionBinding) → c.binding_to_vec a ≡ c.binding_to_vec b → a ≡ b
  pub from-to_string : (s : SignedDecision) → c.decision_from_str (c.decision_to_string s) ≡ some s

-- Two distinct messages with one hash.
pub record Collision (c : Crates) : Type 0 where
  pub left : List ℕ
  pub right : List ℕ
  pub distinct : left ≢ right
  pub same_hash : c.sha256 left ≡ c.sha256 right
