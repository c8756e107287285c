-- ===== src/Erc8004/Validator/Pipeline/Tests.antt =====
-- The tests of src/erc8004/liquet_validator.rs over the simulator, with a JSON of four requests.
use liquet.Common.{
  ℕ, ◌≡◌, refl, true, String, ◌==◌, [], ◌∷◌, Option, none, some, Result, ok, arith, nat_eq, every,
  if◌then◌else◌,
}
use liquet.Common.Decimal.{to_string}
use liquet.Decide.{offending}
use liquet.Adapters.Probatio.{proof_from_leg, reconcile_verdict, crossvm_from_receipt}
use liquet.Adapters.Custos.{verdict_from_custos}
use liquet.Adapters.XvmCustos.{seed, find_snapshot, screen, invariant_from_svm_leg}
use liquet.Sample.Toy.{toy}
use liquet.Sample.Wallet.{wallet}
use liquet.Sample.Simulator.{guarded, simulator}
use liquet.Erc8004.Tests.Fixtures.{running}
use liquet.Erc8004.Validator.Pipeline.{Producer, ParsedRequest, validate}
use liquet.Decide.{default_policy}
use liquet.Sample.Toy.{toy-IsDocumented}
use liquet.Sample.Faithful.{simulator-IsFaithful}
use liquet.Erc8004.Store.Mem.{MemStore, empty_store, mem_store}
use liquet.Erc8004.Store.Mem.Laws.{mem_store-IsContentAddressed}
use liquet.Erc8004.Validator.{
  ResolvedRequest, ValidateError, OnChainAction, respond, handle_request,
}
use liquet.Erc8004.Validator.Pipeline.{LiquetValidator, liquet_validator}
use liquet.Erc8004.Validator.Pipeline.Laws.{Run}
use liquet.Erc8004.Validator.Pipeline.Faithful.{IsFaithful}
use liquet.Erc8004.Validator.Pipeline.Delivers.{Delivered, respond-Delivered}
use liquet.Erc8004.Validator.Pipeline.Cases

abbrev Request : Type 0
Request = ParsedRequest toy wallet guarded simulator

abbrev to_json : Request → String
to_json r =
    if nat_eq r.svm.amount 0
    then "half-open"
    else if nat_eq r.svm.recipient_owner 2
    then "mis-delivery"
    else elim r.malice [ none ↦ "benign" | some delegate ↦ "backdoored" ]

abbrev asked : ℕ → ℕ → Option ℕ → Result Request String
asked owner amount malice = ok (record {
  evm = Cases.evm_spec toy wallet guarded simulator to_json true;
  svm = Cases.svm_spec toy wallet guarded simulator to_json true 0 owner amount;
  claim = Cases.claim toy wallet guarded simulator to_json true 0 1;
  malice = malice;
})

abbrev producer : Producer wallet guarded
producer = record simulator {
  request_from_str = λ text malice.
      if text == "half-open"
      then asked 1 0 malice
      else if text == "mis-delivery"
      then asked 2 25 malice
      else if text == "benign"
      then asked 1 25 malice
      else asked 1 25 (some 2);
}

pipeline_tests_pass :
    every
      (λ t. t)
      (Cases.benign_settlement_responds_pass_matched_with_verifiable_evidence toy wallet guarded
          producer to_json true 0 1
        ∷ Cases.mis_delivery_responds_fail_mismatch toy wallet guarded producer to_json true 0 1 2
        ∷ Cases.half_open_responds_fail_half_open toy wallet guarded producer to_json true 0 1
        ∷ Cases.backdoored_delivery_responds_fail_unsafe toy wallet guarded producer to_json true 0
            1 2
        ∷ [])
    ≡ true
unfolding running validate proof_from_leg reconcile_verdict crossvm_from_receipt seed find_snapshot
    screen invariant_from_svm_leg verdict_from_custos to_string offending
pipeline_tests_pass = refl

producer-IsFaithful : IsFaithful wallet guarded producer
producer-IsFaithful = record {
  recovers = simulator-IsFaithful.recovers;
  recovers_with_malice = simulator-IsFaithful.recovers_with_malice;
  reconciles = simulator-IsFaithful.reconciles;
  catches = simulator-IsFaithful.catches;
}

abbrev benign : ResolvedRequest
benign = Cases.resolved "benign"

abbrev operated : LiquetValidator toy wallet guarded producer
operated = record { signing_key = true; policy = default_policy }

pipeline : Unit {0}
unfolding running validate proof_from_leg reconcile_verdict crossvm_from_receipt seed find_snapshot
    screen invariant_from_svm_leg verdict_from_custos to_string offending
pipeline = tt

-- What the request is answered, and the store after it.
abbrev answered : Result OnChainAction ValidateError × MemStore
answered =
    handle_request toy (mem_store toy) benign
      (liquet_validator toy wallet guarded producer operated) empty_store

abbrev uri_of : Result OnChainAction ValidateError → String
uri_of (ok (respond _ _ uri _ _)) = uri
uri_of _ = ""

abbrev hash_of : Result OnChainAction ValidateError → String
hash_of (ok (respond _ _ _ hash _)) = hash
hash_of _ = ""

respond-Delivered_example :
    (run : Run toy wallet guarded producer benign) × Delivered toy wallet guarded producer run
respond-Delivered_example =
    respond-Delivered toy wallet guarded producer toy-IsDocumented producer-IsFaithful
      (mem_store toy) (mem_store-IsContentAddressed toy toy-IsDocumented) operated benign
      empty_store answered.1 "0xreq" (uri_of answered.0) (hash_of answered.0) "matched"
      (omega arith) (unfold pipeline in refl)
