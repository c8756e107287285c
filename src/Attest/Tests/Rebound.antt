-- ===== src/Attest/Tests/Rebound.antt =====
-- The tests of src/attest.rs that replace the binding of a receipt, for all documented crates.
use liquet.Common.{◌≡◌, refl, ap, ◌≢◌, ◌⊎◌, inl, inr, true, Result, ok, err}
use liquet.Common.Text.Laws.{eq_ignore_ascii_case_refl}
use liquet.Attest.{DecisionBinding, VerifyError, signer_mismatch, malformed, bad_signature}
use liquet.Attest.Crates.{Crates, IsDocumented, Collision}
use liquet.Attest.Verify.{sign_decision, verify_decision}
use liquet.Attest.Verify.Laws.{verify_decision-eq_iff, sign_decision-Parses}
use liquet.Attest.Verify.Commitment.{Forgery, verify_tampered}
use liquet.Attest.Tests.Cases.{binding, fails_with, rebound}

module _ (c : Crates) (docs : IsDocumented c) where
  -- Each test that replaces the binding by another passes, or SHA-256 has a collision, or the signature
  -- is valid over a digest that was not signed.
  pub rebound_lem :
      (operator : c.SigningKey) (other : DecisionBinding)
      → other ≢ binding
      → (rebound c operator other ≡ true) ⊎ (Collision c ⊎ Forgery c operator binding other)
  rebound_lem operator other changed =
      let signed = sign_decision c binding operator in
      let result = verify_decision c (record signed { binding = other }) signed.signer in
      go result refl
    where
      go :
          (r : Result (Unit {0}) VerifyError)
          → verify_decision c
              (record (sign_decision c binding operator) { binding = other })
              (sign_decision c binding operator).signer
            ≡ r
          → (rebound c operator other ≡ true) ⊎ (Collision c ⊎ Forgery c operator binding other)
      go (err bad_signature) e = inl (ap (fails_with bad_signature) e)
      go (ok tt) e = elim (verify_tampered c docs binding other operator _ e) [
        | inl same ↦ absurd (changed same)
        | inr broken ↦ inr broken
      ]
      go (err malformed) e = absurd (
          ((verify_decision-eq_iff c _ _ (err malformed)).0 e).1 _ _
            (sign_decision-Parses c docs binding other operator))
      go (err signer_mismatch) e =
          let named = (sign_decision c binding operator).signer in
          cc (
            (verify_decision-eq_iff c _ named (err signer_mismatch)).0 e,
            eq_ignore_ascii_case_refl named,
          )
