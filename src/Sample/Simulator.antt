-- ===== src/Sample/Simulator.antt =====
-- An engine that knows an approval, and a producer that simulates the transfers of the cross-VM demo.
use liquet.Common.{
  ℕ, Bool, true, false, String, List, [], ◌∷◌, Option, none, some, ok, err, ltb, bool_eq, ◌==◌,
  ◌&&◌, ◌||◌, if◌then◌else◌,
}
use liquet.Common.Decimal.{to_string}
use liquet.Adapters.Probatio.{ProbatioVm, XvmVerdict, ReconstructedLeg}
use liquet.Adapters.Probatio.Specs.{SvmTransferSpec, Claim}
use liquet.Adapters.Custos.{Level, Snapshots}
use liquet.Adapters.XvmCustos.{Engine, SvmReconstruction}
use liquet.Erc8004.Validator.Pipeline.{Producer}
use liquet.Sample.Wallet.{wallet}
use liquet.Sample.Chain.{chain, clean, holding}

-- Whether an account holds data, which stands for a delegate.
abbrev delegated : Snapshots wallet → Bool
delegated [] = false
delegated ((k, none) ∷ m) = delegated m
delegated ((k, some snapshot) ∷ m) =
    let more = delegated m in elim snapshot.contents [ [] ↦ more | _ ∷ _ ↦ true ]

-- A replay sees the accounts that it watches, and no others.
abbrev is_watched : Bool → List Bool → Bool
is_watched k [] = false
is_watched k (j ∷ watch) = bool_eq j k || is_watched k watch

abbrev seen : List Bool → Snapshots wallet → Snapshots wallet
seen watch [] = []
seen watch ((k, o) ∷ m) =
    let rest = seen watch m in if is_watched k watch then (k, o) ∷ rest else rest

abbrev pub guarded : Engine wallet
guarded = record chain {
  capture = λ svm transaction payer watch token system. (
    record transaction { pre = seen watch transaction.pre; post = seen watch transaction.post },
    svm,
  );
  evaluate = λ outcome bank.
      if delegated outcome.post then record { level = Level.red; findings = [] } else clean;
}

abbrev approval_of : Option ℕ → List ℕ
approval_of none = []
approval_of (some delegate) = 1 ∷ []

abbrev pub transfer_of : SvmTransferSpec ℕ (Unit {0}) → Option ℕ → SvmReconstruction wallet guarded
transfer_of spec malice = record {
  leg = record {
    vm = ProbatioVm.svm;
    executed = ltb 0 spec.amount;
    reexec_digest = "digest";
    asset = some "TOKEN";
    amount = some spec.amount;
    recipient = some (to_string spec.recipient_owner);
    unverifiable_reason = none;
  };
  transaction = record {
    pre = (false, some (holding 0)) ∷ [];
    post =
        (false, some (holding spec.amount))
        ∷ (true, some (record { lamports = 1000; owner = true; contents = approval_of malice }))
        ∷ [];
    success = true;
  };
  prestate = [];
  payer = 1;
  payer_airdrop_lamports = 1000;
  watch = 1 ∷ 0 ∷ [];
}

abbrev pub names : Option String → String → Bool
names none s = false
names (some t) s = t == s

abbrev pub verdict_of : ReconstructedLeg → ReconstructedLeg → Claim → XvmVerdict
verdict_of evm svm claim =
    if evm.executed && svm.executed
    then (if names svm.recipient claim.good.recipient
        then XvmVerdict.matched
        else XvmVerdict.mismatch)
    else if evm.executed || svm.executed
    then XvmVerdict.half_open
    else XvmVerdict.unverifiable

abbrev pub simulator : Producer wallet guarded
simulator = record {
  BindingMode = Unit {0};
  slot0 = tt;
  MemoMode = Unit {0};
  settlement_only = tt;
  SvmMalice = Option ℕ;
  malice_none = none;
  approve_unlimited = some;
  request_from_str = λ text malice. err "not a request";
  reconstruct_evm_leg = λ spec. ok (record {
    leg = record {
      vm = ProbatioVm.evm;
      executed = ltb 0 spec.amount;
      reexec_digest = "digest";
      asset = some spec.asset;
      amount = some spec.amount;
      recipient = some spec.settlement_contract;
      unverifiable_reason = none;
    };
  });
  reconstruct_svm_leg = λ spec. ok (transfer_of spec none);
  reconstruct_svm_leg_with_malice = λ spec malice. ok (transfer_of spec malice);
  reconcile = λ evm svm claim. record {
    verdict = verdict_of evm svm claim;
    reasons = [];
    claim_hash = "claim-hash";
    settlement_id = claim.settlement_id;
  };
}
