-- ===== src/Erc8004/Tests/Cases.antt =====
-- The tests of src/erc8004/mod.rs, as Boolean functions of the crates and of two keys, with their
-- fixtures. The golden vector is left out: it is a value of the real SHA-256.
use liquet.Common.{
  ℕ, zero, suc, Bool, true, false, not, ◌&&◌, String, ◌<>◌, ◌==◌, List, [], ◌∷◌, Option, none, some,
  Result, ok, err, nat_eq,
}
use liquet.Seam.{
  svm, evm, ReconcileVerdict, matched, half_open, mismatch, unverifiable, CrossVmProof, red,
  InvariantVerdict, green_verdict,
}
use liquet.Decide.{default_policy, LiquetDecision, settle, hold}
use liquet.Attest.{SignedDecision, signer_mismatch, new_binding}
use liquet.Attest.Crates.{Crates}
use liquet.Attest.Verify.{digest_hex, signer_text, sign_decision}
use liquet.Attest.Tests.Cases.{leg, error_eq}
use liquet.Erc8004.{
  pass, fail, tag_matched, tag_half_open, tag_mismatch, tag_unsafe, tag_unverifiable,
  ValidationResponse, is_published, validation_response, evidence_bundle_json, BundleError,
  malformed_bundle, hash_mismatch, verify, verify_bundle,
}

abbrev pub proof : ReconcileVerdict → CrossVmProof
proof reconcile = record {
  reconcile = reconcile;
  reasons = [];
  legs = leg evm "evm-dig" ∷ leg svm "svm-dig" ∷ [];
  claim_hash = "claim-abc";
  settlement_id = "settlement-1";
}

-- `==` on scores and on errors, derived.
abbrev pub points_eq : Option ℕ → Option ℕ → Bool
points_eq (some m) (some n) = nat_eq m n
points_eq none none = true
points_eq _ _ = false

abbrev bundle_error_eq : BundleError → BundleError → Bool
bundle_error_eq malformed_bundle malformed_bundle = true
bundle_error_eq hash_mismatch hash_mismatch = true
bundle_error_eq (verify e) (verify f) = error_eq e f
bundle_error_eq _ _ = false

-- The score and the tag that a test asserts.
abbrev pub gives : Option ℕ → String → ValidationResponse → Bool
gives points tag r = points_eq r.response points && r.tag == tag

abbrev pub accepted : (ValidationResponse → Bool) → Result ValidationResponse BundleError → Bool
accepted p (ok r) = p r
accepted p (err e) = false

abbrev rejected : BundleError → Result ValidationResponse BundleError → Bool
rejected e (err f) = bundle_error_eq e f
rejected e (ok r) = false

-- `s.repeat(n)`
abbrev repeat : ℕ → String → String
repeat zero s = ""
repeat (suc n) s = s <> repeat n s

abbrev malicious : InvariantVerdict
malicious = record {
  level = red;
  findings =
      record {
        severity = red;
        code = "F2-delegate";
        account = none;
        message = "unlimited delegate on delivery leg";
      }
      ∷ [];
}

module _ (c : Crates) (operator : c.SigningKey) where
  abbrev pub signed : ReconcileVerdict → InvariantVerdict → LiquetDecision → SignedDecision
  signed reconcile invariant decision =
      sign_decision c (new_binding (proof reconcile) invariant default_policy decision) operator

  abbrev pub matched_settle : SignedDecision
  matched_settle = signed matched green_verdict (settle [])

  abbrev pub matched_settle_is_pass_matched : Bool
  matched_settle_is_pass_matched =
      let r = validation_response c matched_settle in
      gives (some pass) tag_matched r && is_published r

  abbrev pub half_open_is_fail_and_published : Bool
  half_open_is_fail_and_published =
      gives (some fail) tag_half_open
        (validation_response c (signed half_open green_verdict (hold ("half-open" ∷ []))))

  abbrev pub mismatch_is_fail : Bool
  mismatch_is_fail =
      gives (some fail) tag_mismatch
        (validation_response c (signed mismatch green_verdict (hold ("mismatch" ∷ []))))

  abbrev pub matched_but_held_on_invariant_is_fail_unsafe_not_matched : Bool
  matched_but_held_on_invariant_is_fail_unsafe_not_matched =
      gives (some fail) tag_unsafe
        (validation_response c (signed matched malicious (hold ("[F2-delegate] ..." ∷ []))))

  abbrev pub unverifiable_abstains : Bool
  unverifiable_abstains =
      let r =
        validation_response c (signed unverifiable green_verdict (hold ("unverifiable" ∷ []))) in
      gives none tag_unverifiable r && not (is_published r)

  abbrev pub verify_bundle_roundtrips_for_trusted_signer : Bool
  verify_bundle_roundtrips_for_trusted_signer =
      let s = matched_settle in
      let bundle = evidence_bundle_json c s in
      let onchain_hash = digest_hex c s.binding in
      accepted (λ r. gives (some pass) tag_matched r && r.response_hash == onchain_hash)
        (verify_bundle c bundle onchain_hash s.signer)

  abbrev pub verify_bundle_rejects_wrong_onchain_hash : Bool
  verify_bundle_rejects_wrong_onchain_hash =
      let s = matched_settle in
      let wrong = repeat 32 "00" in
      rejected hash_mismatch (verify_bundle c (evidence_bundle_json c s) wrong s.signer)

  abbrev pub verify_bundle_rejects_untrusted_signer : c.SigningKey → Bool
  verify_bundle_rejects_untrusted_signer attacker =
      let s = matched_settle in
      let onchain_hash = digest_hex c s.binding in
      let attacker_pk = signer_text c attacker in
      rejected (verify signer_mismatch)
        (verify_bundle c (evidence_bundle_json c s) onchain_hash attacker_pk)

  abbrev pub verify_bundle_rejects_tampered_evidence : Bool
  verify_bundle_rejects_tampered_evidence =
      let s = matched_settle in
      let onchain_hash = digest_hex c s.binding in
      let tampered = record s { binding = record s.binding { decision = hold ("forged" ∷ []) } } in
      rejected hash_mismatch
        (verify_bundle c (evidence_bundle_json c tampered) onchain_hash s.signer)

  abbrev pub verify_bundle_rejects_malformed_json : Bool
  verify_bundle_rejects_malformed_json =
      rejected malformed_bundle (verify_bundle c "{not json" "00" "00")

  abbrev pub tests : c.SigningKey → List Bool
  tests attacker =
      matched_settle_is_pass_matched
      ∷ half_open_is_fail_and_published
      ∷ mismatch_is_fail
      ∷ matched_but_held_on_invariant_is_fail_unsafe_not_matched
      ∷ unverifiable_abstains
      ∷ verify_bundle_roundtrips_for_trusted_signer
      ∷ verify_bundle_rejects_wrong_onchain_hash
      ∷ verify_bundle_rejects_untrusted_signer attacker
      ∷ verify_bundle_rejects_tampered_evidence
      ∷ verify_bundle_rejects_malformed_json
      ∷ []
