-- ===== src/Erc8004/Validator/Pipeline/Cases.antt =====
-- The tests of src/erc8004/liquet_validator.rs, as Boolean functions of the crates, the producer, the
-- JSON of a request, the operator's key and the addresses, with their fixtures.
use liquet.Common.{
  ℕ, Bool, true, false, ◌&&◌, String, ◌==◌, some, Result, ok, err, nat_eq, replicate,
}
use liquet.Decide.{default_policy}
use liquet.Attest.Crates.{Crates}
use liquet.Adapters.Probatio.Specs.{EvmPaySpec, SvmTransferSpec, Claim}
use liquet.Adapters.Custos.{Keys}
use liquet.Adapters.XvmCustos.{Engine}
use liquet.Erc8004.{pass, fail, tag_matched, tag_half_open, tag_mismatch, tag_unsafe, verify_bundle}
use liquet.Erc8004.Store.{IoError}
use liquet.Erc8004.Store.Mem.{MemStore, empty_store, mem_get, mem_store}
use liquet.Erc8004.Validator.{
  ResolvedRequest, ValidateError, OnChainAction, respond, handle_request,
}
use liquet.Erc8004.Validator.Pipeline.{
  Producer, LiquetValidator, ParsedRequest, signer_hex, liquet_validator,
}
use liquet.Erc8004.Tests.Cases.{points_eq, accepted}

abbrev pub settlement_id : String
settlement_id = "settlement-1"

abbrev pub amount : ℕ
amount = 25

abbrev pub evm_payer : String
evm_payer = "0x1000000000000000000000000000000000000001"

abbrev pub evm_settlement : String
evm_settlement = "0x2000000000000000000000000000000000000002"

abbrev pub resolved : String → ResolvedRequest
resolved claim_json = record { request_hash = "0xreq"; agent_id = 7; claim_json = claim_json }

module _ (c : Crates) (keys : Keys) (engine : Engine keys) (producer : Producer keys engine)
    (to_json : ParsedRequest c keys engine producer → String) (operator : c.SigningKey) where
  open engine use {Address, display_address}
  open producer use {
    BindingMode, slot0, MemoMode, settlement_only, SvmMalice, malice_none, approve_unlimited,
  }

  abbrev pub evm_spec : EvmPaySpec BindingMode
  evm_spec = record {
    payer = evm_payer;
    settlement_contract = evm_settlement;
    asset = "ETH";
    amount = amount;
    payer_start_balance_wei = 1000;
    settlement_start_balance_wei = 0;
    recovered_settlement_id = some settlement_id;
    settlement_binding_mode = slot0;
  }

  abbrev pub svm_spec : Address → Address → ℕ → SvmTransferSpec Address MemoMode
  svm_spec mint recipient amount = record {
    source_owner_seed = replicate 32 0x11;
    recipient_owner = recipient;
    mint = mint;
    amount = amount;
    decimals = 0;
    source_start_amount = 1000;
    recipient_start_amount = 0;
    recovered_settlement_id = some settlement_id;
    memo_mode = settlement_only;
  }

  abbrev pub claim : Address → Address → Claim
  claim mint recipient = record {
    payer = evm_payer;
    asset = "ETH";
    amount = amount;
    good = record {
      spl_mint = display_address mint;
      amount = amount;
      recipient = display_address recipient;
    };
    settlement_id = settlement_id;
    mandate = record { atomic = true };
  }

  abbrev pub request_json : SvmTransferSpec Address MemoMode → Claim → SvmMalice → String
  request_json svm claim malice =
      to_json (record { evm = evm_spec; svm = svm; claim = claim; malice = malice })

  abbrev pub validator : LiquetValidator c keys engine producer
  validator = record { signing_key = operator; policy = default_policy }

  -- The action is unwrapped, and the store kept for the test that reads it.
  abbrev pub run :
      SvmTransferSpec Address MemoMode
      → Claim
      → SvmMalice
      → Result OnChainAction ValidateError × MemStore
  run svm claim malice =
      handle_request c (mem_store c) (resolved (request_json svm claim malice))
        (liquet_validator c keys engine producer validator) empty_store

  abbrev responds : ℕ → String → Result OnChainAction ValidateError × MemStore → Bool
  responds points expected (ok (respond _ response _ _ tag), s) =
      nat_eq response points && tag == expected
  responds points expected _ = false

  abbrev pinned : Result String IoError → String → Bool
  pinned (ok bundle) response_hash =
      accepted (λ vr. points_eq vr.response (some pass))
        (verify_bundle c bundle response_hash (signer_hex c keys engine producer validator))
  pinned (err e) response_hash = false

  abbrev verifiable : Result OnChainAction ValidateError × MemStore → Bool
  verifiable (ok (respond _ _ response_uri response_hash _), s) =
      pinned (mem_get s (record { uri = response_uri })) response_hash
  verifiable _ = false

  abbrev pub benign_settlement_responds_pass_matched_with_verifiable_evidence :
      Address → Address → Bool
  benign_settlement_responds_pass_matched_with_verifiable_evidence mint recipient =
      let action = run (svm_spec mint recipient amount) (claim mint recipient) malice_none in
      responds pass tag_matched action && verifiable action

  abbrev pub mis_delivery_responds_fail_mismatch : Address → Address → Address → Bool
  mis_delivery_responds_fail_mismatch mint recipient attacker =
      responds fail tag_mismatch
        (run (svm_spec mint attacker amount) (claim mint recipient) malice_none)

  abbrev pub half_open_responds_fail_half_open : Address → Address → Bool
  half_open_responds_fail_half_open mint recipient =
      responds fail tag_half_open
        (run (svm_spec mint recipient 0) (claim mint recipient) malice_none)

  abbrev pub backdoored_delivery_responds_fail_unsafe : Address → Address → Address → Bool
  backdoored_delivery_responds_fail_unsafe mint recipient attacker =
      responds fail tag_unsafe
        (run (svm_spec mint recipient amount) (claim mint recipient) (approve_unlimited attacker))
