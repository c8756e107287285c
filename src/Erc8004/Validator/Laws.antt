-- ===== src/Erc8004/Validator/Laws.antt =====
-- src/erc8004/validator.rs, `handle_request`: every outcome, and what the store then holds.
use liquet.Common.{
  ℕ, String, ◌≡◌, refl, ap, ◌∙◌, sym, subst, ◌≢◌, ◌⊎◌, inl, inr, Option, none, some,
}
use liquet.Common.{Result, ok, err, arith}
use liquet.Common.Text.Laws.{eq_ignore_ascii_case_refl}
use liquet.Seam.{unverifiable}
use liquet.Attest.{DecisionBinding, SignedDecision}
use liquet.Attest.Crates.{Crates, IsDocumented}
use liquet.Attest.Verify.{digest_hex, signer_text, sign_decision}
use liquet.Erc8004.{
  validation_response, score, evidence_bundle_json, tag_unverifiable, verify_bundle,
}
use liquet.Erc8004.Bundle.{verify-evidence_bundle_json}
use liquet.Erc8004.Response.{response-eq-none}
use liquet.Erc8004.Store.{IoError, ResponseUri, embedded_hash, EvidenceStore, IsContentAddressed}
use liquet.Erc8004.Validator.{
  ResolvedRequest, ValidateError, store, SettlementValidator, OnChainAction, respond, abstain,
  answer, act, after_validate, handle_request,
}

module _ (c : Crates) (S : EvidenceStore) where
  -- What each outcome says of the validator, the response and the store.
  abbrev pub HandleOutcome :
      ResolvedRequest
      → SettlementValidator
      → S.State
      → Result OnChainAction ValidateError
      → S.State
      → Type 0
  HandleOutcome req validator s (ok (respond hash points uri digest tag)) t =
      (signed : SignedDecision) × (validator.validate req ≡ ok signed)
      × (hash ≡ req.request_hash)
      × (validation_response c signed
          ≡ record { response = some points; tag = tag; response_hash = digest })
      × (S.put s signed ≡ (ok (record { uri = uri }), t))
  HandleOutcome req validator s (ok (abstain hash tag)) t =
      (signed : SignedDecision) × (validator.validate req ≡ ok signed)
      × (hash ≡ req.request_hash)
      × (signed.binding.reconcile ≡ unverifiable)
      × (tag ≡ tag_unverifiable)
      × (t ≡ s)
  HandleOutcome req validator s (err e) t =
      ((validator.validate req ≡ err e) × (t ≡ s))
      ⊎ ((signed : SignedDecision) × (io : IoError) × (e ≡ store io)
          × (validator.validate req ≡ ok signed)
          × (signed.binding.reconcile ≢ unverifiable)
          × (S.put s signed ≡ (err io, t)))

  abbrev Handled :
      ResolvedRequest
      → SettlementValidator
      → S.State
      → Result OnChainAction ValidateError × S.State
      → Type 0
  Handled req validator s r = HandleOutcome req validator s r.0 r.1

  unverifiable_abstains :
      (signed : SignedDecision)
      → signed.binding.reconcile ≡ unverifiable
      → (validation_response c signed).response ≡ none
  unfolding validation_response score
  unverifiable_abstains signed h = ground arith

  answer_sound :
      (req : ResolvedRequest) (validator : SettlementValidator) (s : S.State)
      (signed : SignedDecision) (points : ℕ) (w : Result ResponseUri IoError × S.State)
      → validator.validate req ≡ ok signed
      → (validation_response c signed).response ≡ some points
      → S.put s signed ≡ w
      → Handled req validator s (answer c S req (validation_response c signed) points w)
  answer_sound req validator s signed points (ok u, t) v r e =
      let vr = validation_response c signed in
      (
        signed,
        v,
        refl,
        λ i. record { response = r i; tag = vr.tag; response_hash = vr.response_hash },
        e,
      )
  answer_sound req validator s signed points (err io, t) v r e =
      inr (signed, io, refl, v, ground (arith, unverifiable_abstains signed), e)

  act_sound :
      (req : ResolvedRequest) (validator : SettlementValidator) (s : S.State)
      (signed : SignedDecision) (points : Option ℕ)
      → validator.validate req ≡ ok signed
      → (validation_response c signed).response ≡ points
      → Handled req validator s (act c S req signed (validation_response c signed) points s)
  act_sound req validator s signed none v r =
      let (reconcile, tag) = (response-eq-none c signed).0 r in
      (signed, v, refl, reconcile, tag, refl)
  act_sound req validator s signed (some points) v r =
      answer_sound req validator s signed points (S.put s signed) v r refl

  after_validate_sound :
      (req : ResolvedRequest) (validator : SettlementValidator) (s : S.State)
      (r : Result SignedDecision ValidateError)
      → validator.validate req ≡ r
      → Handled req validator s (after_validate c S req r s)
  after_validate_sound req validator s (err e) v = inl (v, refl)
  after_validate_sound req validator s (ok signed) v =
      act_sound req validator s signed (validation_response c signed).response v refl

  -- A request ends in one of four ways: a response with the score, hash and tag of the validator's
  -- receipt, at the address where the store has just put its evidence; an abstention, for an
  -- unverifiable settlement, with the store untouched; the validator's error, with the store
  -- untouched; or the store's error in putting the evidence of a verifiable settlement.
  pub handle_request_outcome :
      (req : ResolvedRequest) (validator : SettlementValidator) (s t : S.State)
      (r : Result OnChainAction ValidateError)
      → handle_request c S req validator s ≡ (r, t)
      → HandleOutcome req validator s r t
  unfolding handle_request
  handle_request_outcome req validator s t r e =
      subst (Handled req validator s) e
        (after_validate_sound req validator s (validator.validate req) refl)

module _ (c : Crates) (docs : IsDocumented c) (S : EvidenceStore)
    (lawful : IsContentAddressed c S) where
  response_hash-eq :
      (signed : SignedDecision)
      → (validation_response c signed).response_hash ≡ digest_hex c signed.binding
  unfolding validation_response
  response_hash-eq signed = refl

  -- With crates and a store that keep what they document, when the validator signs with a key,
  -- each response on chain can be checked from its own fields: its address carries its hash, the
  -- store yields a bundle there, and the bundle passes against the hash and the key, and implies
  -- the score and the tag.
  pub respond_verifies :
      (req : ResolvedRequest) (validator : SettlementValidator) (s t : S.State) (k : c.SigningKey)
      (b : DecisionBinding) (points : ℕ) (request_hash uri hash tag : String)
      → validator.validate req ≡ ok (sign_decision c b k)
      → handle_request c S req validator s ≡ (ok (respond request_hash points uri hash tag), t)
      → (embedded_hash (record { uri = uri }) ≡ some hash)
        × ((bundle : String) × (S.get t (record { uri = uri }) ≡ ok bundle)
            × (verify_bundle c bundle hash (signer_text c k)
                ≡ ok (record { response = some points; tag = tag; response_hash = hash })))
  unfolding sign_decision
  respond_verifies req validator s t k b points request_hash uri hash tag made e =
      let (signed, v, _, vr, put) =
        handle_request_outcome c S req validator s t (ok (respond request_hash points uri hash tag))
          e in
      let same : signed ≡ sign_decision c b k = ground arith in
      let evidence : digest_hex c signed.binding ≡ hash =
        sym (response_hash-eq signed) ∙ ap (λ r. r.response_hash) vr in
      let of_b : digest_hex c b ≡ hash = ap (λ x. digest_hex c x.binding) (sym same) ∙ evidence in
      let accepted =
        verify-evidence_bundle_json c docs b k hash (signer_text c k)
          (rw of_b (eq_ignore_ascii_case_refl hash))
          (eq_ignore_ascii_case_refl (signer_text c k)) in
      (
        lawful.embedded s t signed (record { uri = uri }) put ∙ ap some evidence,
        (
          evidence_bundle_json c signed,
          lawful.get-put s t signed (record { uri = uri }) put,
          ap (λ x. verify_bundle c (evidence_bundle_json c x) hash (signer_text c k)) same
              ∙ (accepted ∙ ap ok (ap (validation_response c) (sym same) ∙ vr)),
        ),
      )
