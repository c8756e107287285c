-- ===== src/Adapters/Probatio/Specs.antt =====
-- The inputs of `probatio_xvm`, whose literals in src/bin/xvm_demo.rs name all their fields.
use liquet.Common.{ℕ, String, Bool, List, Option}

pub record EvmPaySpec (BindingMode : Type 0) : Type 0 where
  pub payer : String
  pub settlement_contract : String
  pub asset : String
  pub amount : ℕ
  pub payer_start_balance_wei : ℕ
  pub settlement_start_balance_wei : ℕ
  pub recovered_settlement_id : Option String
  pub settlement_binding_mode : BindingMode

pub record SvmTransferSpec (Address MemoMode : Type 0) : Type 0 where
  pub source_owner_seed : List ℕ
  pub recipient_owner : Address
  pub mint : Address
  pub amount : ℕ
  pub decimals : ℕ
  pub source_start_amount : ℕ
  pub recipient_start_amount : ℕ
  pub recovered_settlement_id : Option String
  pub memo_mode : MemoMode

pub record GoodClaim : Type 0 where
  pub spl_mint : String
  pub amount : ℕ
  pub recipient : String

pub record Mandate : Type 0 where
  pub atomic : Bool

pub record Claim : Type 0 where
  pub payer : String
  pub asset : String
  pub amount : ℕ
  pub good : GoodClaim
  pub settlement_id : String
  pub mandate : Mandate
