-- ===== src/Erc8004/Validator/Pipeline.antt =====
-- src/erc8004/liquet_validator.rs: the wired validator. The producer `probatio_xvm` is a parameter.
pub mod Laws
pub mod Cases
pub mod Faithful
pub mod Delivers
mod Tests
use liquet.Common.{String, ◌<>◌, ◌∷◌, none, Result, ok, err, ◌>>=◌, ◌>>◌, map_err}
use liquet.Decide.{GatePolicy, decide_crossvm}
use liquet.Attest.{SignedDecision, new_binding}
use liquet.Attest.Crates.{Crates}
use liquet.Attest.Verify.{sign_decision, signer_text}
use liquet.Adapters.Probatio.{ReconstructedLeg, XvmReceipt, crossvm_from_receipt}
use liquet.Adapters.Probatio.Specs.{EvmPaySpec, SvmTransferSpec, Claim}
use liquet.Adapters.Custos.{Keys}
use liquet.Adapters.XvmCustos.{Engine, SvmReconstruction, invariant_from_svm_leg}
use liquet.Erc8004.Validator.{ResolvedRequest, ValidateError, unresolvable, SettlementValidator}

pub record EvmReconstruction : Type 0 where
  pub leg : ReconstructedLeg

pub record SettlementRequest (Evm Svm Deal Malice : Type 0) : Type 0 where
  pub evm : Evm
  pub svm : Svm
  pub claim : Deal
  pub malice : Malice

-- An error of `probatio_xvm`, as the texts that `Display` and `Debug` print of it.
pub record ProducerError : Type 0 where
  pub display : String
  pub debug : String

-- The types and functions of `probatio_xvm`, and the parser of requests that serde derives, with
-- `no_malice` for a missing `malice`; an error of the parser is the text that `Display` prints of it.
pub record Producer (keys : Keys) (engine : Engine keys) : Type 1 where
  pub BindingMode : Type 0
  pub slot0 : BindingMode
  pub MemoMode : Type 0
  pub settlement_only : MemoMode
  pub SvmMalice : Type 0
  pub malice_none : SvmMalice
  pub approve_unlimited : (delegate : engine.Address) → SvmMalice
  pub request_from_str :
      String
      → SvmMalice
      → Result
          (SettlementRequest
            (EvmPaySpec BindingMode)
            (SvmTransferSpec engine.Address MemoMode)
            Claim
            SvmMalice)
          String
  pub reconstruct_evm_leg : EvmPaySpec BindingMode → Result EvmReconstruction ProducerError
  pub reconstruct_svm_leg :
      SvmTransferSpec engine.Address MemoMode → Result (SvmReconstruction keys engine) ProducerError
  pub reconstruct_svm_leg_with_malice :
      SvmTransferSpec engine.Address MemoMode
      → SvmMalice
      → Result (SvmReconstruction keys engine) ProducerError
  pub reconcile : ReconstructedLeg → ReconstructedLeg → Claim → XvmReceipt

module _ (c : Crates) (keys : Keys) (engine : Engine keys) (producer : Producer keys engine) where
  pub record LiquetValidator : Type 0 where
    pub signing_key : c.SigningKey
    pub policy : GatePolicy

  -- `SettlementRequest`, with the types of the producer.
  abbrev pub ParsedRequest : Type 0
  ParsedRequest =
      SettlementRequest (EvmPaySpec producer.BindingMode)
        (SvmTransferSpec engine.Address producer.MemoMode) Claim producer.SvmMalice

  abbrev pub no_malice : producer.SvmMalice
  no_malice = producer.malice_none

  -- `LiquetValidator::signer_hex`
  abbrev pub signer_hex : LiquetValidator → String
  signer_hex validator = signer_text c validator.signing_key

  abbrev because : String → String → ValidateError
  because what e = unresolvable (what <> e)

  abbrev because_of : String → ProducerError → ValidateError
  because_of what e = because what e.display

  unfoldable pub validate : LiquetValidator → ResolvedRequest → Result SignedDecision ValidateError
  validate validator request = do
    sr ←
        map_err (because "parse claim_json: ")
          (producer.request_from_str request.claim_json no_malice)
    evm ← map_err (because_of "evm leg: ") (producer.reconstruct_evm_leg sr.evm)
    svm ←
        map_err (because_of "svm leg: ") (producer.reconstruct_svm_leg_with_malice sr.svm sr.malice)
    let receipt = producer.reconcile evm.leg svm.leg sr.claim
    let cross = crossvm_from_receipt receipt evm.leg svm.leg
    invariant ← map_err (because "custos screen: ") (invariant_from_svm_leg keys engine svm)
    let decision = decide_crossvm cross invariant validator.policy
    ok (
        sign_decision c (new_binding cross invariant validator.policy decision)
          validator.signing_key)

  -- `impl SettlementValidator for LiquetValidator`
  abbrev pub liquet_validator : LiquetValidator → SettlementValidator
  liquet_validator validator = record { validate = validate validator }
