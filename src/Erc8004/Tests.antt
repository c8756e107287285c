-- ===== src/Erc8004/Tests.antt =====
-- The tests of src/erc8004 over the sample crates, and the theorems at concrete receipts.
pub mod Fixtures
pub mod Cases
mod Stores
mod Requests
use liquet.Common.{every}
use liquet.Erc8004.Tests.Cases
use liquet.Erc8004.Tests.Stores
use liquet.Erc8004.Tests.Requests
use liquet.Common.{◌≤◌, ◌<◌, ◌≡◌, refl, ◌↔◌, ◌⊎◌, true, false, String, [], ◌∷◌}
use liquet.Common.{some, ok, err, ◌+◌, ◌<>◌}
use liquet.Common.Text.{strip_prefix}
use liquet.Seam.{matched, half_open, mismatch, unverifiable, green_verdict, red}
use liquet.Decide.{default_policy}
use liquet.Attest.{signer_mismatch}
use liquet.Attest.Crates.{Collision}
use liquet.Attest.Verify.{digest_hex, signer_text, sign_decision}
use liquet.Sample.Toy.{toy, toy-IsDocumented}
use liquet.Erc8004.{
  pass, fail, tag_unsafe, validation_response, is_published, evidence_bundle_json, hash_mismatch,
  verify, verify_bundle,
}
use liquet.Erc8004.Bundle.{
  BundleOutcome, verify_bundle-eq_iff, verify-evidence_bundle_json, verify_bundle_binds,
}
use liquet.Erc8004.Response.{validation_response_of_gate}
use liquet.Erc8004.Store.{embedded_hash, IsContentAddressed}
use liquet.Erc8004.Store.Mem.{empty_store, mem_get, mem_put, mem_uri, mem_store}
use liquet.Erc8004.Store.Mem.Laws.{
  put_all, latest, found, mem_get-put_all, mem_store-IsContentAddressed, mem_put_replaces,
}
use liquet.Erc8004.Store.File.{file_store, file_put, file_get, path_for}
use liquet.Erc8004.Store.File.Laws.{file_store-IsContentAddressed}
use liquet.Erc8004.Validator.{respond, abstain, handle_request}
use liquet.Erc8004.Validator.Laws.{HandleOutcome, handle_request_outcome, respond_verifies}
use liquet.Erc8004.Tests.Fixtures.{
  receipt, held, open_leg, unsure, disk, disk-IsFaithful, temp, always, request, evidence, running,
}

every_verdict_is_scored : (validation_response toy receipt).response ≡ some 100
unfolding running
every_verdict_is_scored = refl

half_open_fails : (validation_response toy open_leg).tag ≡ "half-open"
unfolding running
half_open_fails = refl

unverifiable_is_not_published : is_published (validation_response toy unsure) ≡ false
unfolding running
unverifiable_is_not_published = refl

embedded_hash_of_the_stores :
    embedded_hash (record { uri = "file:///tmp/store/ab.json" }) ≡ some "ab"
unfolding running
embedded_hash_of_the_stores = refl

verify_bundle-eq_iff_example :
    (verify_bundle toy (evidence_bundle_json toy receipt) "00" "" ≡ err hash_mismatch)
    ↔ BundleOutcome toy (evidence_bundle_json toy receipt) "00" "" (err hash_mismatch)
verify_bundle-eq_iff_example =
    verify_bundle-eq_iff toy (evidence_bundle_json toy receipt) "00" "" (err hash_mismatch)

verify-evidence_bundle_json_example :
    verify_bundle toy
      (evidence_bundle_json toy receipt)
      (digest_hex toy receipt.binding)
      (signer_text toy true)
    ≡ ok (validation_response toy receipt)
unfolding sign_decision
verify-evidence_bundle_json_example =
    verify-evidence_bundle_json toy toy-IsDocumented receipt.binding true
      (digest_hex toy receipt.binding) (signer_text toy true) (unfold running in refl)
      (unfold running in refl)

verify_bundle_binds_example :
    (validation_response toy receipt ≡ validation_response toy receipt) ⊎ Collision toy
verify_bundle_binds_example =
    verify_bundle_binds toy toy-IsDocumented receipt (evidence_bundle_json toy receipt)
      (signer_text toy true) (validation_response toy receipt) (unfold running in refl)

validation_response_of_gate_example :
    let r = validation_response toy held in
    ((r.response ≡ some pass) ↔ ((evidence matched).reconcile ≡ matched) × (3 ≤ 1))
    × (((r.tag ≡ tag_unsafe) × (r.response ≡ some fail))
        ↔ ((evidence matched).reconcile ≡ matched) × (1 < 3))
    × ((is_published r ≡ false) ↔ ((evidence matched).reconcile ≡ unverifiable))
validation_response_of_gate_example =
    validation_response_of_gate toy held (evidence matched) (record green_verdict { level = red })
      default_policy (unfold running in refl)

mem_get-put_all_example :
    mem_get
      (put_all toy empty_store (receipt ∷ open_leg ∷ []))
      (record { uri = mem_uri toy receipt })
    ≡ found toy
        (latest toy (mem_uri toy receipt) (receipt ∷ open_leg ∷ []))
        (mem_get empty_store (record { uri = mem_uri toy receipt }))
mem_get-put_all_example =
    mem_get-put_all toy (receipt ∷ open_leg ∷ []) empty_store (record { uri = mem_uri toy receipt })

mem_store-IsContentAddressed_example : IsContentAddressed toy (mem_store toy)
mem_store-IsContentAddressed_example = mem_store-IsContentAddressed toy toy-IsDocumented

mem_put_replaces_example :
    (mem_get
        (put_all toy empty_store
          (sign_decision toy receipt.binding true ∷ sign_decision toy receipt.binding false ∷ []))
        (record { uri = mem_uri toy (sign_decision toy receipt.binding true) })
      ≡ ok (evidence_bundle_json toy (sign_decision toy receipt.binding false)))
    × (verify_bundle toy
          (evidence_bundle_json toy (sign_decision toy receipt.binding false))
          (digest_hex toy receipt.binding)
          (signer_text toy true)
        ≡ err (verify signer_mismatch))
mem_put_replaces_example =
    mem_put_replaces toy toy-IsDocumented empty_store receipt.binding true false (λ e. cc)

file_store-IsContentAddressed_example : IsContentAddressed toy (file_store toy disk temp)
file_store-IsContentAddressed_example =
    file_store-IsContentAddressed toy toy-IsDocumented disk temp disk-IsFaithful

handle_request_outcome_example :
    HandleOutcome toy
      (mem_store toy)
      request
      (always unsure)
      empty_store
      (ok (abstain "request-1" "unverifiable"))
      empty_store
handle_request_outcome_example =
    handle_request_outcome toy (mem_store toy) request (always unsure) empty_store empty_store
      (ok (abstain "request-1" "unverifiable")) (unfold running in refl)

respond_verifies_example :
    let hash = digest_hex toy receipt.binding in
    let uri = "mem://" <> hash in
    let after = (mem_put toy empty_store receipt).1 in
    (embedded_hash (record { uri = uri }) ≡ some hash)
    × ((bundle : String) × (mem_get after (record { uri = uri }) ≡ ok bundle)
        × (verify_bundle toy bundle hash (signer_text toy true)
            ≡ ok (record { response = some 100; tag = "matched"; response_hash = hash })))
respond_verifies_example =
    respond_verifies toy toy-IsDocumented (mem_store toy)
      (mem_store-IsContentAddressed toy toy-IsDocumented) request (always receipt) empty_store
      (mem_put toy empty_store receipt).1 true receipt.binding 100 "request-1"
      ("mem://" <> digest_hex toy receipt.binding) (digest_hex toy receipt.binding) "matched"
      (unfold running in refl) (unfold running in refl)

tests_pass : every (λ t. t) (Cases.tests toy true false) ≡ true
unfolding running
tests_pass = refl

store_tests_pass :
    every
      (λ t. t)
      (Stores.mem_store_closes_the_loop toy true
        ∷ Stores.assert_store_fetch_verify toy true (file_store toy disk temp) []
        ∷ Stores.mem_store_put_is_idempotent_content_addressed toy true
        ∷ Stores.get_missing_uri_errors toy true
        ∷ [])
    ≡ true
unfolding running file_put file_get path_for strip_prefix
store_tests_pass = refl

request_tests_pass :
    every
      (λ t. t)
      (Requests.matched_settle_produces_verifiable_respond toy true
        ∷ Requests.half_open_responds_fail_and_pins_evidence toy true
        ∷ Requests.unverifiable_abstains_and_pins_nothing toy true
        ∷ Requests.unresolvable_request_propagates_error toy true
        ∷ [])
    ≡ true
unfolding running
request_tests_pass = refl
