-- ===== src/Erc8004/Validator/Tests.antt =====
-- The wired validator over the sample chain, and its theorems at a concrete request.
use liquet.Common.{◌≡◌, refl, String, ◌<>◌, true, some, ok}
use liquet.Seam.{green_verdict}
use liquet.Decide.{default_policy, decide_crossvm}
use liquet.Attest.{SignedDecision, new_binding}
use liquet.Attest.Verify.{digest_hex, sign_decision}
use liquet.Erc8004.{verify_bundle}
use liquet.Erc8004.Store.Mem.{MemStore, empty_store, mem_get, mem_put, mem_store}
use liquet.Erc8004.Store.Mem.Laws.{mem_store-IsContentAddressed}
use liquet.Erc8004.Validator.Pipeline.{LiquetValidator, signer_hex, validate}
use liquet.Erc8004.Validator.Pipeline.Laws.{
  Validated, validate_outcome, Justified, handle_request-Justified,
}
use liquet.Adapters.Probatio.{ProbatioVm, proof_from_leg, reconcile_verdict, crossvm_from_receipt}
use liquet.Adapters.Custos.{verdict_from_custos}
use liquet.Adapters.XvmCustos.{seed, find_snapshot, screen, invariant_from_svm_leg}
use liquet.Attest.Crates.{Collision}
use liquet.Attest.Verify.{signer_text}
use liquet.Erc8004.Validator.{respond, OnChainAction, handle_request}
use liquet.Erc8004.Validator.Answers.{Answers, handle_request-Answers}
use liquet.Erc8004.Validator.History.{Handles, Serves, respond_survives}
use liquet.Common.{◌⊎◌}
use liquet.Sample.Toy.{toy, toy-IsDocumented}
use liquet.Sample.Wallet.{wallet}
use liquet.Sample.Chain.{chain, agreeable, leg_of, receipt as receipt_of}
use liquet.Erc8004.Tests.Fixtures.{receipt, open_leg, always, always-SignsWith, request, running}

abbrev wired : LiquetValidator toy wallet chain agreeable
wired = record { signing_key = true; policy = default_policy }

pipeline : Unit {0}
unfolding running proof_from_leg reconcile_verdict crossvm_from_receipt validate seed find_snapshot
    screen invariant_from_svm_leg verdict_from_custos
pipeline = tt

-- The receipt of that request.
abbrev signed : SignedDecision
signed =
    let cross = crossvm_from_receipt receipt_of (leg_of ProbatioVm.evm) (leg_of ProbatioVm.svm) in
    sign_decision toy
      (new_binding cross green_verdict default_policy
        (decide_crossvm cross green_verdict default_policy))
      true

validate_outcome_example : Validated toy wallet chain agreeable wired request (ok signed)
validate_outcome_example =
    validate_outcome toy wallet chain agreeable wired request (ok signed) (unfold pipeline in refl)

handle_request-Justified_example :
    let hash = digest_hex toy signed.binding in
    Justified toy toy-IsDocumented wallet chain agreeable
      (mem_store toy)
      (mem_store-IsContentAddressed toy toy-IsDocumented)
      wired
      request
      100
    × ((bundle : String) × (mem_get
            (mem_put toy empty_store signed).1
            (record { uri = "mem://" <> hash })
          ≡ ok bundle)
        × (verify_bundle toy bundle hash (signer_hex toy wallet chain agreeable wired)
            ≡ ok (record { response = some 100; tag = "matched"; response_hash = hash })))
handle_request-Justified_example =
    handle_request-Justified toy toy-IsDocumented wallet chain agreeable (mem_store toy)
      (mem_store-IsContentAddressed toy toy-IsDocumented) wired request empty_store
      (mem_put toy empty_store signed).1 100 "request-1" ("mem://" <> digest_hex toy signed.binding)
      (digest_hex toy signed.binding) "matched" (unfold pipeline in refl)

-- After a first response, a half-open settlement is answered too.
second :
    Handles toy true
      (mem_put toy empty_store receipt).1
      (mem_put toy (mem_put toy empty_store receipt).1 open_leg).1
unfolding pipeline
second = record {
  req = request;
  validator = always open_leg;
  signs = always-SignsWith open_leg refl;
  outcome = ok (
      respond "request-1" 0 ("mem://" <> digest_hex toy open_leg.binding)
        (digest_hex toy open_leg.binding) "half-open");
  handled = refl;
}

respond_survives_example :
    let hash = digest_hex toy receipt.binding in
    let later = (mem_put toy (mem_put toy empty_store receipt).1 open_leg).1 in
    ((bundle : String) × (mem_get later (record { uri = "mem://" <> hash }) ≡ ok bundle)
      × (verify_bundle toy bundle hash (signer_text toy true)
          ≡ ok (record { response = some 100; tag = "matched"; response_hash = hash })))
    ⊎ Collision toy
respond_survives_example =
    respond_survives toy toy-IsDocumented true request (always receipt) empty_store
      (mem_put toy empty_store receipt).1
      (mem_put toy (mem_put toy empty_store receipt).1 open_leg).1 100 "request-1"
      ("mem://" <> digest_hex toy receipt.binding) (digest_hex toy receipt.binding) "matched"
      (always-SignsWith receipt (unfold pipeline in refl)) (unfold pipeline in refl)
      (Serves.next second Serves.done)

handle_request-Answers_example :
    (action : OnChainAction) × (t : MemStore) × (handle_request toy
        (mem_store toy)
        request
        (always receipt)
        empty_store
      ≡ (ok action, t))
    × Answers toy request receipt action
handle_request-Answers_example =
    handle_request-Answers toy request (always receipt) empty_store receipt refl
