-- ===== src/Erc8004/Validator/Pipeline/Laws.antt =====
-- src/erc8004/liquet_validator.rs: what the wired validator signs, and what a pass on chain means.
use liquet.Common.{ℕ, ◌≤◌, ◌≡◌, refl, ap, ◌∙◌, subst, ◌↔◌, inl, inr, String, some}
use liquet.Common.{Result, ok, err, Result-cases, arith}
use liquet.Seam.{matched, rank, CrossVmProof, InvariantVerdict}
use liquet.Decide.{GatePolicy, decide_crossvm}
use liquet.Attest.{DecisionBinding, SignedDecision, new_binding}
use liquet.Attest.Crates.{Crates, IsDocumented}
use liquet.Attest.Verify.{sign_decision}
use liquet.Adapters.Probatio.{
  XvmVerdict, XvmReceipt, ReconstructedLeg, reconcile_verdict, crossvm_from_receipt,
}
use liquet.Adapters.Custos.{Keys}
use liquet.Adapters.XvmCustos.{Engine, SvmReconstruction, invariant_from_svm_leg}
use liquet.Adapters.XvmCustos.Laws.{IsBoundTo, verdict_of}
use liquet.Adapters.XvmCustos.Replay.{Replay, outcome_of, invariant_from_svm_leg-eq-ok}
use liquet.Erc8004.{pass, verify_bundle}
use liquet.Erc8004.Response.{validation_response_of_gate}
use liquet.Erc8004.Store.{EvidenceStore, IsContentAddressed}
use liquet.Erc8004.Validator.{ResolvedRequest, ValidateError, unresolvable, respond, handle_request}
use liquet.Erc8004.Validator.Laws.{handle_request_outcome, respond_verifies}
use liquet.Erc8004.Validator.Pipeline.{
  EvmReconstruction, Producer, LiquetValidator, ParsedRequest, no_malice, signer_hex, validate,
  liquet_validator,
}

module _ (c : Crates) (keys : Keys) (engine : Engine keys) (producer : Producer keys engine) where
  -- The steps of a validation that succeed.
  pub record Run (request : ResolvedRequest) : Type 0 where
    pub sr : ParsedRequest c keys engine producer
    pub evm : EvmReconstruction
    pub svm : SvmReconstruction keys engine
    pub invariant : InvariantVerdict
    pub parsed :
        producer.request_from_str request.claim_json (no_malice c keys engine producer) ≡ ok sr
    pub evm_leg : producer.reconstruct_evm_leg sr.evm ≡ ok evm
    pub svm_leg : producer.reconstruct_svm_leg_with_malice sr.svm sr.malice ≡ ok svm
    pub screened : invariant_from_svm_leg keys engine svm ≡ ok invariant

  abbrev cross_of : {request : ResolvedRequest} → Run request → CrossVmProof
  cross_of r =
      crossvm_from_receipt (producer.reconcile r.evm.leg r.svm.leg r.sr.claim) r.evm.leg r.svm.leg

  abbrev binding_of : {request : ResolvedRequest} → GatePolicy → Run request → DecisionBinding
  binding_of policy r =
      new_binding (cross_of r) r.invariant policy (decide_crossvm (cross_of r) r.invariant policy)

  -- What a result says: a receipt is that of a run, and an error is one of the request.
  abbrev pub Validated :
      LiquetValidator c keys engine producer
      → ResolvedRequest
      → Result SignedDecision ValidateError
      → Type 0
  Validated validator request (ok signed) =
      (r : Run request) × (signed
        ≡ sign_decision c (binding_of validator.policy r) validator.signing_key)
  Validated validator request (err e) = (¬ Run request) × ((why : String) × (e ≡ unresolvable why))

  -- A validation signs exactly the decision of the cross-VM gate on what its steps yielded; when a
  -- step fails it signs nothing, and the error is that the request cannot be resolved.
  pub validate_outcome :
      (validator : LiquetValidator c keys engine producer) (request : ResolvedRequest)
      (r : Result SignedDecision ValidateError)
      → validate c keys engine producer validator request ≡ r
      → Validated validator request r
  unfolding validate
  validate_outcome validator request r e =
      subst (Validated validator request) e
        (elim (Result-cases
          (producer.request_from_str request.claim_json (no_malice c keys engine producer))) [
            | inr (e, bad) ↦ rw bad (λ x. cc x.parsed, (_, refl))
            | inl (sr, parsed) ↦ elim (Result-cases (producer.reconstruct_evm_leg sr.evm)) [
              | inr (e, bad) ↦ rw (parsed, bad) (λ x. cc (x.parsed, x.evm_leg), (_, refl))
              | inl (evm, evm_leg) ↦
                  elim (Result-cases (producer.reconstruct_svm_leg_with_malice sr.svm sr.malice)) [
                    | inr (e, bad) ↦
                        rw (parsed, evm_leg, bad) (λ x. cc (x.parsed, x.svm_leg), (_, refl))
                    | inl (svm, svm_leg) ↦
                        elim (Result-cases (invariant_from_svm_leg keys engine svm)) [
                          | inr (e, bad) ↦
                              rw (parsed, evm_leg, svm_leg, bad)
                                (λ x. cc (x.parsed, x.svm_leg, x.screened), (_, refl))
                          | inl (invariant, screened) ↦
                              rw (parsed, evm_leg, svm_leg, screened)
                                (
                                  record {
                                    sr = sr;
                                    evm = evm;
                                    svm = svm;
                                    invariant = invariant;
                                    parsed = parsed;
                                    evm_leg = evm_leg;
                                    svm_leg = svm_leg;
                                    screened = screened;
                                  },
                                  refl,
                                )
                        ]
                  ]
            ]
          ])

reconcile_matched : (v : XvmVerdict) → (reconcile_verdict v ≡ matched) ↔ (v ≡ XvmVerdict.matched)
unfolding reconcile_verdict
reconcile_matched XvmVerdict.matched = (λ h. refl, λ h. refl)
reconcile_matched XvmVerdict.half_open = (λ h. cc, λ h. cc)
reconcile_matched XvmVerdict.mismatch = (λ h. cc, λ h. cc)
reconcile_matched XvmVerdict.unverifiable = (λ h. cc, λ h. cc)

pub crossvm_matched :
    (receipt : XvmReceipt) (evm svm : ReconstructedLeg)
    → ((crossvm_from_receipt receipt evm svm).reconcile ≡ matched)
      ↔ (receipt.verdict ≡ XvmVerdict.matched)
unfolding crossvm_from_receipt
crossvm_matched receipt evm svm = reconcile_matched receipt.verdict

module _ (c : Crates) (docs : IsDocumented c) (keys : Keys) (engine : Engine keys)
    (producer : Producer keys engine) (S : EvidenceStore) (lawful : IsContentAddressed c S) where
  -- What the score of a response of the wired validator says of the run behind it.
  pub record Justified (validator : LiquetValidator c keys engine producer)
      (request : ResolvedRequest) (points : ℕ) : Type 0 where
    pub run : Run c keys engine producer request
    pub replay : Replay keys engine run.svm
    pub bound : IsBoundTo keys engine run.svm (outcome_of keys engine replay)
    pub screened_by : run.invariant ≡ verdict_of keys engine (outcome_of keys engine replay)
    pub passes : (points ≡ pass) ↔ (
        ((producer.reconcile run.evm.leg run.svm.leg run.sr.claim).verdict ≡ XvmVerdict.matched)
        × (rank run.invariant.level ≤ rank validator.policy.max_settle_severity))

  -- With crates and a store that keep what they document, a response of the wired validator on
  -- chain comes from a run in which every step succeeded and the screen was of a replay bound to
  -- the delivery leg; its score is a pass exactly when the producer reconciled the legs as matched
  -- and the screen's level is within the policy; and the bundle that the store yields at its
  -- address passes the relying party's check against its hash and the operator's key, and implies
  -- the score and the tag.
  pub handle_request-Justified :
      (validator : LiquetValidator c keys engine producer) (request : ResolvedRequest)
      (s t : S.State) (points : ℕ) (request_hash uri hash tag : String)
      → handle_request c S request (liquet_validator c keys engine producer validator) s
        ≡ (ok (respond request_hash points uri hash tag), t)
      → Justified validator request points
        × ((bundle : String) × (S.get t (record { uri = uri }) ≡ ok bundle)
            × (verify_bundle c bundle hash (signer_hex c keys engine producer validator)
                ≡ ok (record { response = some points; tag = tag; response_hash = hash })))
  unfolding sign_decision
  handle_request-Justified validator request s t points request_hash uri hash tag e =
      let wired = liquet_validator c keys engine producer validator in
      let (signed, valid, _, vr, _) =
        handle_request_outcome c S request wired s t (ok (respond request_hash points uri hash tag))
          e in
      let (r, made) = validate_outcome c keys engine producer validator request (ok signed) valid in
      let (replay, bound, verdict) =
        (invariant_from_svm_leg-eq-ok keys engine r.svm r.invariant).0 r.screened in
      let binding = binding_of c keys engine producer validator.policy r in
      let cross = cross_of c keys engine producer r in
      let scored =
        (validation_response_of_gate c signed cross r.invariant validator.policy
          (ap (λ x. x.binding) made)).0 in
      (
        record {
          run = r;
          replay = replay;
          bound = bound;
          screened_by = verdict;
          passes = ground (
            arith,
            scored,
            ap (λ x. x.response) vr,
            crossvm_matched (producer.reconcile r.evm.leg r.svm.leg r.sr.claim) r.evm.leg r.svm.leg,
          );
        },
        (respond_verifies c docs S lawful request wired s t validator.signing_key binding points
            request_hash uri hash tag (valid ∙ ap ok made) e).1,
      )
