-- ===== src/Attest/Tests.antt =====
-- The tests of src/attest.rs over the sample crates, and the theorems at concrete receipts.
pub mod Cases
mod Rebound
use liquet.Common.{every, ap, ◌≡◌, refl, ◌↔◌, ◌⊎◌, true, false, String, [], ◌∷◌}
use liquet.Common.{ok, err}
use liquet.Common.Text.{eq_ignore_ascii_case}
use liquet.Seam.{vm_eq, svm, evm, green_verdict}
use liquet.Decide.{default_policy, settle, hold}
use liquet.Attest.{DecisionBinding, new_binding, signer_mismatch, malformed, bad_signature}
use liquet.Attest.Tests.Cases
use liquet.Attest.Tests.Cases.{proof, binding}
use liquet.Attest.Tests.Rebound.{rebound_lem}
use liquet.Attest.Crates.{Collision}
use liquet.Attest.Verify.{
  digest, signer_text, sign_decision, verify_self_consistent, verify_decision,
}
use liquet.Attest.Verify.Laws.{verify_decision-eq_iff, verify-sign_decision}
use liquet.Attest.Verify.Commitment.{
  SameSettlement, digest-new_binding, Forgery, verify_tampered, verify_untrusted,
}
use liquet.Sample.Toy.{toy, toy-IsDocumented}
use liquet.Sample.Hex.{encode, decode}

receipts : Unit {0}
unfolding new_binding digest sign_decision verify_decision encode decode eq_ignore_ascii_case
receipts = tt

binding_captures_all_legs_exactly :
    binding.legs
    ≡ record { vm = evm; executed = true; poststate_digest = "evm-dig" }
      ∷ record { vm = svm; executed = true; poststate_digest = "svm-dig" }
      ∷ []
unfolding receipts
binding_captures_all_legs_exactly = refl

abbrev forged_decision : String → DecisionBinding
forged_decision reason = record binding { decision = hold (reason ∷ []) }

-- The checksum of the samples sees this change.
tampered_decision_fails_exactly :
    verify_decision toy
      (record (sign_decision toy binding true) { binding = forged_decision "forged." })
      (signer_text toy true)
    ≡ err bad_signature
unfolding receipts
tampered_decision_fails_exactly = refl

malformed_signer_or_signature_rejected_exactly :
    verify_decision toy
      (record (sign_decision toy binding true) { signature = "zz" })
      (signer_text toy true)
    ≡ err malformed
unfolding receipts
malformed_signer_or_signature_rejected_exactly = refl

upper_case_signer :
    verify_decision toy (record (sign_decision toy binding false) { signer = "zz" }) "ZZ"
    ≡ err malformed
unfolding receipts
upper_case_signer = refl

verify_decision-eq_iff_example :
    (verify_decision toy (sign_decision toy binding true) "" ≡ err signer_mismatch)
    ↔ (eq_ignore_ascii_case "" (sign_decision toy binding true).signer ≡ false)
verify_decision-eq_iff_example =
    verify_decision-eq_iff toy (sign_decision toy binding true) "" (err signer_mismatch)

verify-sign_decision_example :
    verify_decision toy (sign_decision toy binding true) (signer_text toy true) ≡ ok tt
verify-sign_decision_example =
    verify-sign_decision toy toy-IsDocumented binding true (signer_text toy true)
      (unfold receipts in refl)

digest-new_binding_example :
    SameSettlement proof proof green_verdict green_verdict default_policy default_policy
      (settle [])
      (settle [])
    ⊎ Collision toy
digest-new_binding_example =
    digest-new_binding toy toy-IsDocumented proof proof green_verdict green_verdict default_policy
      default_policy (settle []) (settle []) refl

-- The sample signature shows a parity alone, and is valid over this other decision too.
verify_tampered_example :
    (forged_decision "forged" ≡ binding)
    ⊎ (Collision toy ⊎ Forgery toy true binding (forged_decision "forged"))
unfolding receipts
verify_tampered_example =
    verify_tampered toy toy-IsDocumented binding (forged_decision "forged") true
      (signer_text toy true) refl

verify_untrusted_example :
    (verify_self_consistent toy (sign_decision toy binding false) ≡ ok tt)
    × (verify_decision toy (sign_decision toy binding false) (signer_text toy true)
        ≡ err signer_mismatch)
verify_untrusted_example = verify_untrusted toy toy-IsDocumented binding false true (λ e. cc)

-- The tests that replace the binding by one of the same checksum pass where signatures are not forged.
tests_pass :
    every
      (λ t. t)
      (Cases.binding_captures_all_legs
        ∷ Cases.verify_against_trusted_signer_ok toy true
        ∷ Cases.attacker_key_is_self_consistent_but_not_trusted toy true false
        ∷ Cases.replay_against_different_leg_fails toy true
        ∷ Cases.extra_leg_changes_binding toy
        ∷ Cases.malformed_signer_or_signature_rejected toy true
        ∷ [])
    ≡ true
unfolding receipts vm_eq
tests_pass = refl

tampered_decision_is_caught :
    (Cases.tampered_decision_fails toy true ≡ true)
    ⊎ (Collision toy ⊎ Forgery toy true binding (forged_decision "forged"))
unfolding receipts
tampered_decision_is_caught =
    rebound_lem toy toy-IsDocumented true (forged_decision "forged")
      (λ e. cc (ap (λ b. b.decision) e))
