-- ===== src/Erc8004/Validator.antt =====
-- src/erc8004/validator.rs: one validation request, from its claim to the action on chain.
pub mod Laws
pub mod Pipeline
pub mod History
pub mod OnDisk
pub mod Answers
mod Tests
use liquet.Common.{ℕ, String, Option, none, some, Result, ok, err}
use liquet.Attest.{SignedDecision}
use liquet.Attest.Crates.{Crates}
use liquet.Erc8004.{ValidationResponse, validation_response}
use liquet.Erc8004.Store.{IoError, ResponseUri, EvidenceStore}

pub record ResolvedRequest : Type 0 where
  pub request_hash : String
  pub agent_id : ℕ
  pub claim_json : String

pub data ValidateError : Type 0 where
  unresolvable : String → ValidateError
  store : IoError → ValidateError

-- The trait `SettlementValidator`, with its one method.
pub record SettlementValidator : Type 0 where
  pub validate : ResolvedRequest → Result SignedDecision ValidateError

pub data OnChainAction : Type 0 where
  respond :
      (request_hash : String) (response : ℕ) (response_uri response_hash tag : String)
      → OnChainAction
  abstain : (request_hash tag : String) → OnChainAction

module _ (c : Crates) (S : EvidenceStore) where
  -- After the put: `?` turns a store error into a `ValidateError`.
  abbrev answer :
      ResolvedRequest
      → ValidationResponse
      → ℕ
      → Result ResponseUri IoError × S.State
      → Result OnChainAction ValidateError × S.State
  answer req vr score (ok u, s) =
      (ok (respond req.request_hash score u.uri vr.response_hash vr.tag), s)
  answer req vr score (err e, s) = (err (store e), s)

  -- The action for a signed decision; an abstention does not touch the store.
  abbrev act :
      ResolvedRequest
      → SignedDecision
      → ValidationResponse
      → Option ℕ
      → S.State
      → Result OnChainAction ValidateError × S.State
  act req signed vr none s = (ok (abstain req.request_hash vr.tag), s)
  act req signed vr (some score) s = answer req vr score (S.put s signed)

  abbrev after_validate :
      ResolvedRequest
      → Result SignedDecision ValidateError
      → S.State
      → Result OnChainAction ValidateError × S.State
  after_validate req (err e) s = (err e, s)
  after_validate req (ok signed) s =
      let vr = validation_response c signed in act req signed vr vr.response s

  unfoldable pub handle_request :
      ResolvedRequest → SettlementValidator → S.State → Result OnChainAction ValidateError × S.State
  handle_request req validator s = after_validate req (validator.validate req) s
