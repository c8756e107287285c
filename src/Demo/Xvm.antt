-- ===== src/Demo/Xvm.antt =====
-- src/bin/xvm_demo.rs. `wire_xvm` is the feature of that name; the addresses, the re-execution, the
-- reconciliation, the screen's engine and the formats are parameters.
pub mod Laws
pub mod Scenario
pub mod Story
pub mod Held
mod Tests
use liquet.Common.{ℕ, String, ◌<>◌, Bool, true, false, not, ◌∷◌, some, Result}
use liquet.Common.{map_err, replicate, if◌then◌else◌}
use liquet.Seam.{ReconcileVerdict, debug_severity, CrossVmProof, InvariantVerdict, green_verdict}
use liquet.Decide.{LiquetDecision, default_policy, decide_crossvm}
use liquet.Adapters.Probatio.{crossvm_from_receipt}
use liquet.Adapters.Probatio.Specs.{EvmPaySpec, SvmTransferSpec, Claim}
use liquet.Adapters.Custos.{Keys}
use liquet.Adapters.XvmCustos.{Engine, SvmReconstruction, invariant_from_svm_leg}
use liquet.Erc8004.Validator.Pipeline.{ProducerError, Producer}
use liquet.Demo.Program.{Program, pure, ◌>>=◌, ◌>>◌, println, eprintln, exit, draw, expect}

abbrev pub settlement_id : String
settlement_id = "settlement-1"

abbrev pub demo_amount : ℕ
demo_amount = 25

abbrev pub evm_payer : String
evm_payer = "0x1000000000000000000000000000000000000001"

abbrev pub evm_settlement : String
evm_settlement = "0x2000000000000000000000000000000000000002"

-- The JSON of a decision, and what `Debug` prints of a `String`.
pub record Formats : Type 0 where
  pub decision_json : LiquetDecision → String
  pub debug_string : String → String

-- The two texts of each settlement.
pub record Title : Type 0 where
  pub name : String
  pub gloss : String

abbrev pub benign_title : Title
benign_title = record {
  name = "benign atomic settlement";
  gloss = "intent honored on both chains → safe to release funds";
}

abbrev pub misdelivery_title : Title
misdelivery_title = record {
  name = "mis-delivery (wrong recipient)";
  gloss = "solver delivered to the wrong account → caught, funds held";
}

abbrev pub half_open_title : Title
half_open_title = record {
  name = "half-open (pay leg only, no delivery)";
  gloss = "EVM paid but Solana delivery never happened (the bridge nightmare) → held";
}

abbrev pub backdoored_title : Title
backdoored_title = record {
  name = "backdoored delivery (correct transfer + hidden approve)";
  gloss =
      "tokens arrive correctly, but the same tx grants an attacker unlimited delegate over your account → reconcile says Matched, the malice screen HOLDs";
}

-- What `{:?}` prints.
abbrev pub debug_reconcile : ReconcileVerdict → String
debug_reconcile ReconcileVerdict.matched = "Matched"
debug_reconcile ReconcileVerdict.half_open = "HalfOpen"
debug_reconcile ReconcileVerdict.mismatch = "Mismatch"
debug_reconcile ReconcileVerdict.unverifiable = "Unverifiable"

-- `== ReconcileVerdict::Matched`
abbrev pub is_matched : ReconcileVerdict → Bool
is_matched ReconcileVerdict.matched = true
is_matched _ = false

-- What `{:?}` prints of an error of the producer.
abbrev pub debug_of : ProducerError → String
debug_of e = e.debug

abbrev pub unwrapped : String
unwrapped = "called `Result::unwrap()` on an `Err` value"

abbrev pub not_matched : String
not_matched = "WARNING: benign scenario did not reconcile as Matched — check spec construction"

module _ (keys : Keys) (engine : Engine keys) (producer : Producer keys engine) where
  open engine use {Address, display_address}
  open producer use {
    BindingMode, slot0, MemoMode, settlement_only, approve_unlimited, reconstruct_evm_leg,
    reconstruct_svm_leg, reconstruct_svm_leg_with_malice, reconcile,
  }

  unfoldable pub evm_spec : ℕ → EvmPaySpec BindingMode
  evm_spec amount = record {
    payer = evm_payer;
    settlement_contract = evm_settlement;
    asset = "ETH";
    amount = amount;
    payer_start_balance_wei = 1000;
    settlement_start_balance_wei = 0;
    recovered_settlement_id = some settlement_id;
    settlement_binding_mode = slot0;
  }

  unfoldable pub svm_spec : Address → Address → ℕ → SvmTransferSpec Address MemoMode
  svm_spec mint recipient amount = record {
    source_owner_seed = replicate 32 0x11;
    recipient_owner = recipient;
    mint = mint;
    amount = amount;
    decimals = 0;
    source_start_amount = 1000;
    recipient_start_amount = 0;
    recovered_settlement_id = some settlement_id;
    memo_mode = settlement_only;
  }

  unfoldable pub claim : Address → Address → Claim
  claim mint recipient = record {
    payer = evm_payer;
    asset = "ETH";
    amount = demo_amount;
    good = record {
      spl_mint = display_address mint;
      amount = demo_amount;
      recipient = display_address recipient;
    };
    settlement_id = settlement_id;
    mandate = record { atomic = true };
  }

  abbrev pub leg : SvmTransferSpec Address MemoMode → Program (SvmReconstruction keys engine)
  leg svm = expect "svm delivery leg" (map_err debug_of (reconstruct_svm_leg svm))

  module _ (wire_xvm : Bool) (formats : Formats) where
    -- Slot 2: the live screen, or the green placeholder.
    abbrev pub screen_leg : SvmReconstruction keys engine → Program InvariantVerdict
    screen_leg svm_leg =
        if wire_xvm
        then expect "Custos replay of SVM delivery leg"
            (map_err formats.debug_string (invariant_from_svm_leg keys engine svm_leg))
        else pure green_verdict

    -- The lines of one settlement.
    abbrev pub report : String → String → CrossVmProof → InvariantVerdict → Program (Unit {0})
    report name gloss cross invariant = do
      println ("── " <> name)
      println ("   reconcile : " <> debug_reconcile cross.reconcile)
      if wire_xvm
          then println ("   custos    : " <> (debug_severity invariant.level <> " (real replay)"))
          else pure tt
      println (
          "   decision  : "
          <> formats.decision_json (decide_crossvm cross invariant default_policy))
      println ("   " <> gloss)
      println ""

    unfoldable pub run :
        String
        → String
        → EvmPaySpec BindingMode
        → SvmReconstruction keys engine
        → Claim
        → Program (Unit {0})
    run name gloss evm svm_leg claim = do
      evm_leg ← expect "evm leg" (map_err debug_of (reconstruct_evm_leg evm))
      let receipt = reconcile evm_leg.leg svm_leg.leg claim
      let cross = crossvm_from_receipt receipt evm_leg.leg svm_leg.leg
      invariant ← screen_leg svm_leg
      report name gloss cross invariant

    -- The self-check at the end: whether the benign settlement reconciles as matched.
    unfoldable pub sanity : Address → Address → Program (Unit {0})
    unfolding evm_spec svm_spec claim
    sanity mint recipient = do
      e ← expect unwrapped (map_err debug_of (reconstruct_evm_leg (evm_spec demo_amount)))
      s ←
          expect unwrapped
            (map_err debug_of (reconstruct_svm_leg (svm_spec mint recipient demo_amount)))
      let r = reconcile e.leg s.leg (claim mint recipient)
      if not (is_matched (crossvm_from_receipt r e.leg s.leg).reconcile)
          then (eprintln not_matched >> exit 1)
          else pure tt

    abbrev pub benign : Address → Address → Program (Unit {0})
    benign mint recipient = do
      svm ← leg (svm_spec mint recipient demo_amount)
      run benign_title.name benign_title.gloss (evm_spec demo_amount) svm (claim mint recipient)

    abbrev pub mis_delivery : Address → Address → Address → Program (Unit {0})
    mis_delivery mint recipient attacker = do
      svm ← leg (svm_spec mint attacker demo_amount)
      run misdelivery_title.name misdelivery_title.gloss (evm_spec demo_amount) svm
          (claim mint recipient)

    abbrev pub half_open : Address → Address → Program (Unit {0})
    half_open mint recipient = do
      svm ← leg (svm_spec mint recipient 0)
      run half_open_title.name half_open_title.gloss (evm_spec demo_amount) svm
          (claim mint recipient)

    abbrev pub backdoored : Address → Address → Address → Program (Unit {0})
    backdoored mint recipient attacker = do
      svm ← expect "malicious svm leg" (
          map_err debug_of (
            reconstruct_svm_leg_with_malice (svm_spec mint recipient demo_amount)
              (approve_unlimited attacker)))
      run backdoored_title.name backdoored_title.gloss (evm_spec demo_amount) svm
          (claim mint recipient)

    unfoldable pub main : (ℕ → Address) → Program (Unit {0})
    unfolding run sanity
    main new_unique = do
      mint ← draw new_unique
      recipient ← draw new_unique
      attacker ← draw new_unique
      benign mint recipient
      mis_delivery mint recipient attacker
      half_open mint recipient
      if wire_xvm then backdoored mint recipient attacker else pure tt
      sanity mint recipient
