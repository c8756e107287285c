-- ===== src/Attest/Tests/Cases.antt =====
-- The tests of src/attest.rs, as Boolean functions of the crates and of two keys, with their fixtures.
-- The golden vector is left out: it is a value of the real SHA-256.
use liquet.Common.{
  Bool, true, false, not, ◌&&◌, String, ◌==◌, List, [], ◌∷◌, ◌++◌, Option, none, some, Result, ok,
  err,
}
use liquet.Common.{length, get_elem?, nat_eq, list_eq}
use liquet.Seam.{
  Vm, svm, evm, vm_eq, producer_recovered, ReexecProof, matched, CrossVmProof, green, Finding,
  green_verdict,
}
use liquet.Decide.{default_policy, settle, hold}
use liquet.Attest.{
  LegDigest, DecisionBinding, new_binding, VerifyError, signer_mismatch, malformed, bad_signature,
}
use liquet.Attest.Crates.{Crates}
use liquet.Attest.Verify.{
  digest, signer_text, sign_decision, verify_self_consistent, verify_decision,
}

abbrev pub leg : Vm → String → ReexecProof
leg vm digest = record {
  vm = vm;
  executed = true;
  poststate_digest = digest;
  covered_accounts = [];
  facts_source = producer_recovered;
  asset = none;
  amount = none;
  recipient = none;
  unverifiable_reason = none;
}

abbrev pub proof : CrossVmProof
proof = record {
  reconcile = matched;
  reasons = [];
  legs = leg evm "evm-dig" ∷ leg svm "svm-dig" ∷ [];
  claim_hash = "claim-abc";
  settlement_id = "settlement-1";
}

abbrev pub binding : DecisionBinding
binding = new_binding proof green_verdict default_policy (settle [])

-- `==` on errors, derived.
abbrev pub error_eq : VerifyError → VerifyError → Bool
error_eq signer_mismatch signer_mismatch = true
error_eq malformed malformed = true
error_eq bad_signature bad_signature = true
error_eq _ _ = false

abbrev passes : Result (Unit {0}) VerifyError → Bool
passes (ok tt) = true
passes (err e) = false

abbrev pub fails_with : VerifyError → Result (Unit {0}) VerifyError → Bool
fails_with e (err f) = error_eq e f
fails_with e (ok tt) = false

abbrev leg_is : Vm → Option LegDigest → Bool
leg_is vm none = false
leg_is vm (some l) = vm_eq l.vm vm

abbrev digest_is : String → Option LegDigest → Bool
digest_is d none = false
digest_is d (some l) = l.poststate_digest == d

abbrev pub binding_captures_all_legs : Bool
binding_captures_all_legs =
    nat_eq (length binding.legs) 2
    && (leg_is evm (get_elem? binding.legs 0)
        && (digest_is "evm-dig" (get_elem? binding.legs 0)
            && leg_is svm (get_elem? binding.legs 1)))

-- `legs[1].poststate_digest = ..`; an index out of range panics, and there are two legs.
abbrev replace_second : String → List LegDigest → List LegDigest
replace_second d (a ∷ (b ∷ legs)) = a ∷ record b { poststate_digest = d } ∷ legs
replace_second d legs = legs

module _ (c : Crates) where
  abbrev pub verify_against_trusted_signer_ok : c.SigningKey → Bool
  verify_against_trusted_signer_ok operator =
      let signed = sign_decision c binding operator in
      let operator_pk = signed.signer in
      passes (verify_decision c signed operator_pk) && passes (verify_self_consistent c signed)

  abbrev pub attacker_key_is_self_consistent_but_not_trusted : c.SigningKey → c.SigningKey → Bool
  attacker_key_is_self_consistent_but_not_trusted operator attacker =
      let operator_pk = signer_text c operator in
      let forged = sign_decision c binding attacker in
      passes (verify_self_consistent c forged)
      && fails_with signer_mismatch (verify_decision c forged operator_pk)

  -- The receipt with another binding, against the signer that it names.
  abbrev pub rebound : c.SigningKey → DecisionBinding → Bool
  rebound operator other =
      let signed = sign_decision c binding operator in
      fails_with bad_signature (verify_decision c (record signed { binding = other }) signed.signer)

  abbrev pub tampered_decision_fails : c.SigningKey → Bool
  tampered_decision_fails operator =
      rebound operator (record binding { decision = hold ("forged" ∷ []) })

  abbrev pub changed_invariant_finding_fails : c.SigningKey → Bool
  changed_invariant_finding_fails operator =
      let injected : Finding = record {
        severity = green;
        code = "injected";
        account = none;
        message = "not what was screened";
      } in
      rebound operator
        (record binding { invariant = record { level = green; findings = injected ∷ [] } })

  abbrev pub replay_against_different_leg_fails : c.SigningKey → Bool
  replay_against_different_leg_fails operator =
      rebound operator
        (record binding { legs = replace_second "some-other-svm-execution" binding.legs })

  abbrev pub extra_leg_changes_binding : Bool
  extra_leg_changes_binding =
      let p = record proof { legs = proof.legs ++ leg svm "sneaky-extra-leg" ∷ [] } in
      let b2 = new_binding p green_verdict default_policy (settle []) in
      not (list_eq nat_eq (digest c binding) (digest c b2))

  abbrev pub malformed_signer_or_signature_rejected : c.SigningKey → Bool
  malformed_signer_or_signature_rejected operator =
      let signed = sign_decision c binding operator in
      fails_with malformed (verify_decision c (record signed { signature = "zz" }) signed.signer)
