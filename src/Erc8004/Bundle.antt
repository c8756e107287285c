-- ===== src/Erc8004/Bundle.antt =====
-- src/erc8004/mod.rs, `verify_bundle`: every outcome of the relying party's check, and what it binds.
use liquet.Common.{◌≡◌, refl, ap, ◌∙◌, sym, ◌↔◌, ◌⊎◌, inl, inr, true, false, String}
use liquet.Common.{none, some, Result, ok, err, Option-cases, Bool-cases}
use mathlib.Core.Path.{subst}
use mathlib.Core.Option.{some-injective}
use liquet.Common.Text.{eq_ignore_ascii_case}
use liquet.Common.Text.Laws.{eq_of_IsLower}
use liquet.Attest.{DecisionBinding, SignedDecision, VerifyError}
use liquet.Attest.Crates.{Crates, IsDocumented, Collision}
use liquet.Attest.Verify.{digest, digest_hex, signer_text, sign_decision, verify_decision}
use liquet.Attest.Verify.Laws.{verify-sign_decision}
use liquet.Attest.Verify.Commitment.{IsHex-IsLower, digest_commits}
use liquet.Erc8004.{
  ValidationResponse, BundleError, malformed_bundle, hash_mismatch, verify, validation_response,
  evidence_bundle_json, verify_bundle,
}

module _ (c : Crates) where
  -- The bundle parses, and its binding has the hash up to case.
  abbrev Matches : String → String → SignedDecision → Type 0
  Matches bundle hash signed =
      (c.decision_from_str bundle ≡ some signed)
      × (eq_ignore_ascii_case (digest_hex c signed.binding) hash ≡ true)

  -- What each outcome says, in the order of the checks.
  abbrev pub BundleOutcome :
      String → String → String → Result ValidationResponse BundleError → Type 0
  BundleOutcome bundle hash trusted (err malformed_bundle) = c.decision_from_str bundle ≡ none
  BundleOutcome bundle hash trusted (err hash_mismatch) =
      (signed : SignedDecision) × (c.decision_from_str bundle ≡ some signed)
      × (eq_ignore_ascii_case (digest_hex c signed.binding) hash ≡ false)
  BundleOutcome bundle hash trusted (err (verify e)) =
      (signed : SignedDecision) × Matches bundle hash signed
      × (verify_decision c signed trusted ≡ err e)
  BundleOutcome bundle hash trusted (ok response) =
      (signed : SignedDecision) × Matches bundle hash signed
      × (verify_decision c signed trusted ≡ ok tt)
      × (response ≡ validation_response c signed)

  Result-cases :
      (r : Result (Unit {0}) VerifyError) → (r ≡ ok tt) ⊎ ((e : VerifyError) × (r ≡ err e))
  Result-cases (ok u) = inl refl
  Result-cases (err e) = inr (e, refl)

  verify_bundle_sound :
      (bundle hash trusted : String)
      → BundleOutcome bundle hash trusted (verify_bundle c bundle hash trusted)
  unfolding verify_bundle
  verify_bundle_sound bundle hash trusted = elim (Option-cases (c.decision_from_str bundle)) [
    | inl e ↦ rw e e
    | inr (signed, e) ↦
        elim (Bool-cases (eq_ignore_ascii_case (digest_hex c signed.binding) hash)) [
          | inr differ ↦ rw (e, differ) (signed, e, differ)
          | inl same ↦ elim (Result-cases (verify_decision c signed trusted)) [
            | inl good ↦ rw (e, same, good) (signed, (e, same), good, refl)
            | inr (why, bad) ↦ rw (e, same, bad) (signed, (e, same), bad)
          ]
        ]
  ]

  verify_bundle_of :
      (bundle hash trusted : String) (r : Result ValidationResponse BundleError)
      → BundleOutcome bundle hash trusted r
      → verify_bundle c bundle hash trusted ≡ r
  unfolding verify_bundle
  verify_bundle_of bundle hash trusted (ok a) (signed, (e, same), good, made) =
      rw (e, same, good) (ap ok (sym made))
  verify_bundle_of bundle hash trusted (err malformed_bundle) e = rw e
  verify_bundle_of bundle hash trusted (err hash_mismatch) (signed, e, differ) = rw (e, differ)
  verify_bundle_of bundle hash trusted (err (verify why)) (signed, (e, same), bad) =
      rw (e, same, bad)

  -- The check gives an outcome exactly when the bundle is as that outcome says: a text that does not
  -- parse; a binding whose hash is not the on-chain one; a receipt that fails its verification, with
  -- that error; or a receipt that passes, and then the response derived from it.
  pub verify_bundle-eq_iff :
      (bundle hash trusted : String) (r : Result ValidationResponse BundleError)
      → (verify_bundle c bundle hash trusted ≡ r) ↔ BundleOutcome bundle hash trusted r
  verify_bundle-eq_iff bundle hash trusted r = (
    λ e. subst (BundleOutcome bundle hash trusted) e (verify_bundle_sound bundle hash trusted),
    verify_bundle_of bundle hash trusted r,
  )

module _ (c : Crates) (docs : IsDocumented c) where
  -- With crates as documented, the bundle of a receipt passes the check against its own hash and
  -- signer, in either case, and gives the response that the validator derived.
  pub verify-evidence_bundle_json :
      (b : DecisionBinding) (k : c.SigningKey) (hash trusted : String)
      → eq_ignore_ascii_case (digest_hex c b) hash ≡ true
      → eq_ignore_ascii_case trusted (signer_text c k) ≡ true
      → verify_bundle c (evidence_bundle_json c (sign_decision c b k)) hash trusted
        ≡ ok (validation_response c (sign_decision c b k))
  verify-evidence_bundle_json b k hash trusted same pinned =
      let signed = sign_decision c b k in
      (verify_bundle-eq_iff c (evidence_bundle_json c signed) hash trusted
          (ok (validation_response c signed))).1
        (
          signed,
          (docs.from-to_string signed, unfold sign_decision in same),
          verify-sign_decision c docs b k trusted pinned,
          refl,
        )

  pub digest_hex_injective :
      (a b : DecisionBinding)
      → eq_ignore_ascii_case (digest_hex c a) (digest_hex c b) ≡ true
      → digest c a ≡ digest c b
  unfolding digest
  digest_hex_injective a b same =
      let bytes = docs.sha256_bytes in
      let texts : digest_hex c a ≡ digest_hex c b =
        eq_of_IsLower _ _ (IsHex-IsLower _ (docs.encode_hex _ (bytes _)))
          (IsHex-IsLower _ (docs.encode_hex _ (bytes _))) same in
      some-injective _ _ (
        sym (docs.decode-encode _ (bytes _))
        ∙ (ap c.hex_decode texts ∙ docs.decode-encode _ (bytes _)))

  -- With crates as documented, a bundle that passes against the hash that a receipt published
  -- gives that receipt's response, whoever made the bundle, or SHA-256 has a collision.
  pub verify_bundle_binds :
      (signed : SignedDecision) (bundle trusted : String) (response : ValidationResponse)
      → verify_bundle c bundle (validation_response c signed).response_hash trusted ≡ ok response
      → (response ≡ validation_response c signed) ⊎ Collision c
  unfolding validation_response
  verify_bundle_binds signed bundle trusted response h =
      let (found, (_, same), _, made) =
        (verify_bundle-eq_iff c bundle (validation_response c signed).response_hash trusted
            (ok response)).0
          h in
      elim (digest_commits c docs found.binding signed.binding
        (digest_hex_injective found.binding signed.binding same)) [
          | inl e ↦ inl (made ∙ ap (λ b. validation_response c (record signed { binding = b })) e)
          | inr clash ↦ inr clash
        ]
