-- ===== src/Erc8004.antt =====
-- src/erc8004/mod.rs: the response that a signed decision stands for, and the relying party's check.
pub mod Bundle
pub mod Response
pub mod Store
pub mod Validator
pub mod Tests
use liquet.Common.{ℕ, ◌<◌, Bool, true, false, String, Option, none, some, if◌then◌else◌}
use liquet.Common.{Result, ok, err, ◌>>=◌, ◌>>◌, map_err, ok_or}
use liquet.Common.Text.{eq_ignore_ascii_case}
use liquet.Seam.{ReconcileVerdict, matched, half_open, mismatch, unverifiable}
use liquet.Decide.{is_settle}
use liquet.Attest.{SignedDecision, VerifyError}
use liquet.Attest.Crates.{Crates}
use liquet.Attest.Verify.{digest_hex, verify_decision}

abbrev pub pass : ℕ
pass = 100

abbrev pub fail : ℕ
fail = 0

abbrev pub tag_matched : String
tag_matched = "matched"

abbrev tag_half_open : String
tag_half_open = "half-open"

abbrev tag_mismatch : String
tag_mismatch = "mismatch"

abbrev pub tag_unsafe : String
tag_unsafe = "unsafe"

abbrev pub tag_unverifiable : String
tag_unverifiable = "unverifiable"

pub record ValidationResponse : Type 0 where
  pub response : Option ℕ
  pub tag : String
  pub response_hash : String

-- `is_published`
abbrev pub is_published : ValidationResponse → Bool
is_published r = elim r.response [ none ↦ false | some _ ↦ true ]

-- The score and the tag, from the reconcile verdict and whether the decision settles.
unfoldable pub score : ReconcileVerdict → Bool → Option ℕ × String
score unverifiable settles = (none, tag_unverifiable)
score half_open settles = (some fail, tag_half_open)
score mismatch settles = (some fail, tag_mismatch)
score matched settles = if settles then (some pass, tag_matched) else (some fail, tag_unsafe)

pub data BundleError : Type 0 where
  malformed_bundle hash_mismatch : BundleError
  verify : VerifyError → BundleError

module _ (c : Crates) where
  unfoldable pub validation_response : SignedDecision → ValidationResponse
  unfolding score
  validation_response signed =
      let (response, tag) = score signed.binding.reconcile (is_settle signed.binding.decision) in
      record { response = response; tag = tag; response_hash = digest_hex c signed.binding }

  abbrev pub evidence_bundle_json : SignedDecision → String
  evidence_bundle_json signed = c.decision_to_string signed

  unfoldable pub verify_bundle : String → String → String → Result ValidationResponse BundleError
  verify_bundle bundle_json onchain_response_hash trusted_signer = do
    signed ← ok_or (c.decision_from_str bundle_json) malformed_bundle
    if eq_ignore_ascii_case (digest_hex c signed.binding) onchain_response_hash
        then ok tt
        else err hash_mismatch
    map_err verify (verify_decision c signed trusted_signer)
    ok (validation_response signed)
