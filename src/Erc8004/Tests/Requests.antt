-- ===== src/Erc8004/Tests/Requests.antt =====
-- The tests of src/erc8004/validator.rs, as Boolean functions of the crates and the operator's key.
use liquet.Common.{Bool, false, ◌&&◌, String, ◌==◌, [], ◌∷◌, some, Result, ok, err, nat_eq}
use liquet.Seam.{ReconcileVerdict, matched, half_open, unverifiable, green_verdict}
use liquet.Decide.{LiquetDecision, settle, hold}
use liquet.Attest.{SignedDecision}
use liquet.Attest.Crates.{Crates}
use liquet.Attest.Verify.{digest_hex}
use liquet.Erc8004.{pass, fail, tag_matched, tag_half_open, tag_unverifiable, verify_bundle}
use liquet.Erc8004.Store.{IoError}
use liquet.Erc8004.Store.Mem.{MemStore, empty_store, len, store_is_empty, mem_get, mem_store}
use liquet.Erc8004.Validator.{
  ResolvedRequest, ValidateError, unresolvable, SettlementValidator, OnChainAction, respond,
  abstain, handle_request,
}
use liquet.Erc8004.Tests.Cases.{signed, points_eq, accepted}

abbrev pub mock_validator : SignedDecision → SettlementValidator
mock_validator signed = record { validate = λ req. ok signed }

abbrev pub failing_validator : SettlementValidator
failing_validator = record { validate = λ req. err (unresolvable "missing prestate") }

abbrev pub req : ResolvedRequest
req = record { request_hash = "0xreq"; agent_id = 42; claim_json = "{}" }

module _ (c : Crates) (operator : c.SigningKey) where
  abbrev pub signed_for : ReconcileVerdict → LiquetDecision → SignedDecision
  signed_for reconcile decision = signed c operator reconcile green_verdict decision

  abbrev pinned : Result String IoError → String → String → Bool
  pinned (ok bundle) response_hash signer =
      accepted (λ vr. points_eq vr.response (some pass))
        (verify_bundle c bundle response_hash signer)
  pinned (err e) response_hash signer = false

  abbrev responds_verifiably : Result OnChainAction ValidateError × MemStore → SignedDecision → Bool
  responds_verifiably (ok (respond request_hash response response_uri response_hash tag), s)
        receipt =
      request_hash == "0xreq"
      && (nat_eq response pass
          && (response_hash == digest_hex c receipt.binding
              && (tag == tag_matched
                  && pinned (mem_get s (record { uri = response_uri })) response_hash
                      receipt.signer)))
  responds_verifiably _ receipt = false

  abbrev pub matched_settle_produces_verifiable_respond : Bool
  matched_settle_produces_verifiable_respond =
      let receipt = signed_for matched (settle []) in
      responds_verifiably (handle_request c (mem_store c) req (mock_validator receipt) empty_store)
        receipt

  abbrev responds_half_open : Result OnChainAction ValidateError × MemStore → Bool
  responds_half_open (ok (respond _ response _ _ tag), s) =
      nat_eq response fail && (tag == tag_half_open && nat_eq (len s) 1)
  responds_half_open _ = false

  abbrev pub half_open_responds_fail_and_pins_evidence : Bool
  half_open_responds_fail_and_pins_evidence =
      let receipt = signed_for half_open (hold ("half-open" ∷ [])) in
      responds_half_open (handle_request c (mem_store c) req (mock_validator receipt) empty_store)

  abbrev abstains : Result OnChainAction ValidateError × MemStore → Bool
  abstains (ok (abstain request_hash tag), s) =
      request_hash == "0xreq" && (tag == tag_unverifiable && store_is_empty s)
  abstains _ = false

  abbrev pub unverifiable_abstains_and_pins_nothing : Bool
  unverifiable_abstains_and_pins_nothing =
      let receipt = signed_for unverifiable (hold ("unverifiable" ∷ [])) in
      abstains (handle_request c (mem_store c) req (mock_validator receipt) empty_store)

  abbrev is_unresolvable : Result OnChainAction ValidateError × MemStore → Bool
  is_unresolvable (err (unresolvable why), s) = store_is_empty s
  is_unresolvable _ = false

  abbrev pub unresolvable_request_propagates_error : Bool
  unresolvable_request_propagates_error =
      is_unresolvable (handle_request c (mem_store c) req failing_validator empty_store)
