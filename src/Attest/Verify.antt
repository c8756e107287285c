-- ===== src/Attest/Verify.antt =====
-- src/attest.rs: the digest, signing and the two verifications.
pub mod Laws
pub mod Commitment
use Prim.Native.Char.{code}
use Prim.Native.String
use liquet.Common.{ℕ, ◌≡◌, String, List, [], ◌∷◌, ◌++◌, Option, none, some, length, nat_eq}
use liquet.Common.{if◌then◌else◌, Result, ok, err, ◌>>=◌, ok_or}
use liquet.Common.Text.{eq_ignore_ascii_case}
use liquet.Attest.{
  DecisionBinding, SignedDecision, VerifyError, signer_mismatch, malformed, bad_signature,
}
use liquet.Attest.Crates.{Crates}

-- The bytes of an ASCII text.
abbrev pub bytes_of : String → List ℕ
bytes_of String.[] = []
bytes_of (String.◌∷◌ c s) = code c ∷ bytes_of s

-- `b"liquet/decision/v2\0"`
abbrev pub domain : List ℕ
domain = bytes_of "liquet/decision/v2" ++ (0 ∷ [])

-- `try_into` an array of 32 bytes
abbrev exactly_32 : List ℕ → Option (List ℕ)
exactly_32 bs = if nat_eq (length bs) 32 then some bs else none

abbrev and_then : {A B : Type 0} → Option A → (A → Option B) → Option B
and_then none f = none
and_then (some a) f = f a

module _ (c : Crates) where
  -- `DecisionBinding::digest`
  unfoldable pub digest : DecisionBinding → List ℕ
  digest binding = c.sha256 (domain ++ c.binding_to_vec binding)

  -- `hex::encode(binding.digest())`
  abbrev pub digest_hex : DecisionBinding → String
  digest_hex binding = c.hex_encode (digest binding)

  -- The text by which a receiver pins the key.
  abbrev pub signer_text : c.SigningKey → String
  signer_text key = c.hex_encode (c.key_to_bytes (c.verifying_key key))

  unfoldable pub sign_decision : DecisionBinding → c.SigningKey → SignedDecision
  sign_decision binding key = record {
    binding = binding;
    signer = signer_text key;
    signature = c.hex_encode (c.signature_to_bytes (c.sign key (digest binding)));
  }

  unfoldable pub verify_self_consistent : SignedDecision → Result (Unit {0}) VerifyError
  verify_self_consistent signed = do
    pk ← ok_or (and_then (c.hex_decode signed.signer) exactly_32) malformed
    vk ← ok_or (c.key_from_bytes pk) malformed
    sig_bytes ← ok_or (c.hex_decode signed.signature) malformed
    sig ← ok_or (c.signature_from_slice sig_bytes) malformed
    if c.verify_strict vk (digest signed.binding) sig then ok tt else err bad_signature

  unfoldable pub verify_decision : SignedDecision → String → Result (Unit {0}) VerifyError
  unfolding verify_self_consistent
  verify_decision signed trusted_signer =
      if eq_ignore_ascii_case trusted_signer signed.signer
      then verify_self_consistent signed
      else err signer_mismatch
