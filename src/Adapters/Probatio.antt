-- ===== src/Adapters/Probatio.antt =====
-- src/adapters/probatio.rs. The types of `probatio_xvm` hold the fields that the adapter reads.
pub mod Specs
use liquet.Common.{ℕ, String, Bool, List, [], ◌∷◌, Option}
use liquet.Seam.{Vm, producer_recovered, ReexecProof, ReconcileVerdict, CrossVmProof}

pub data XvmVerdict : Type 0 where
  matched half_open mismatch unverifiable : XvmVerdict

pub data ProbatioVm : Type 0 where
  evm svm : ProbatioVm

pub record ReconstructedLeg : Type 0 where
  pub vm : ProbatioVm
  pub executed : Bool
  pub reexec_digest : String
  pub asset : Option String
  pub amount : Option ℕ
  pub recipient : Option String
  pub unverifiable_reason : Option String

pub record XvmReceipt : Type 0 where
  pub verdict : XvmVerdict
  pub reasons : List String
  pub claim_hash : String
  pub settlement_id : String

unfoldable pub reconcile_verdict : XvmVerdict → ReconcileVerdict
reconcile_verdict XvmVerdict.matched = ReconcileVerdict.matched
reconcile_verdict XvmVerdict.half_open = ReconcileVerdict.half_open
reconcile_verdict XvmVerdict.mismatch = ReconcileVerdict.mismatch
reconcile_verdict XvmVerdict.unverifiable = ReconcileVerdict.unverifiable

abbrev leg_vm : ProbatioVm → Vm
leg_vm ProbatioVm.evm = Vm.evm
leg_vm ProbatioVm.svm = Vm.svm

unfoldable pub proof_from_leg : ReconstructedLeg → ReexecProof
proof_from_leg leg = record {
  vm = leg_vm leg.vm;
  executed = leg.executed;
  poststate_digest = leg.reexec_digest;
  covered_accounts = [];
  facts_source = producer_recovered;
  asset = leg.asset;
  amount = leg.amount;
  recipient = leg.recipient;
  unverifiable_reason = leg.unverifiable_reason;
}

unfoldable pub crossvm_from_receipt :
    XvmReceipt → ReconstructedLeg → ReconstructedLeg → CrossVmProof
unfolding reconcile_verdict proof_from_leg
crossvm_from_receipt receipt evm_leg svm_leg = record {
  reconcile = reconcile_verdict receipt.verdict;
  reasons = receipt.reasons;
  legs = proof_from_leg evm_leg ∷ proof_from_leg svm_leg ∷ [];
  claim_hash = receipt.claim_hash;
  settlement_id = receipt.settlement_id;
}
