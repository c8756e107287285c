-- ===== src/Attest.antt =====
-- src/attest.rs: what a signed decision commits to.
pub mod Crates
pub mod Verify
pub mod Tests
use liquet.Common.{String, Bool, List, map, ◌≡◌}
use liquet.Seam.{Vm, ReexecProof, ReconcileVerdict, CrossVmProof, Severity, InvariantVerdict}
use liquet.Decide.{GatePolicy, LiquetDecision}

pub record LegDigest : Type 0 where
  pub vm : Vm
  pub executed : Bool
  pub poststate_digest : String

pub record PolicySnapshot : Type 0 where
  pub max_settle_severity : Severity
  pub require_executed : Bool
  pub require_recovered_facts : Bool

-- `PolicySnapshot::of`
unfoldable pub snapshot_of : GatePolicy → PolicySnapshot
snapshot_of p = record {
  max_settle_severity = p.max_settle_severity;
  require_executed = p.require_executed;
  require_recovered_facts = p.require_recovered_facts;
}

pub record DecisionBinding : Type 0 where
  pub settlement_id : String
  pub claim_hash : String
  pub legs : List LegDigest
  pub reconcile : ReconcileVerdict
  pub invariant : InvariantVerdict
  pub policy : PolicySnapshot
  pub decision : LiquetDecision

abbrev pub leg_digest : ReexecProof → LegDigest
leg_digest l = record { vm = l.vm; executed = l.executed; poststate_digest = l.poststate_digest }

-- `DecisionBinding::new`
unfoldable pub new_binding :
    CrossVmProof → InvariantVerdict → GatePolicy → LiquetDecision → DecisionBinding
unfolding snapshot_of
new_binding proof invariant policy decision = record {
  settlement_id = proof.settlement_id;
  claim_hash = proof.claim_hash;
  legs = map leg_digest proof.legs;
  reconcile = proof.reconcile;
  invariant = invariant;
  policy = snapshot_of policy;
  decision = decision;
}

pub record SignedDecision : Type 0 where
  pub binding : DecisionBinding
  pub signer : String
  pub signature : String

pub data VerifyError : Type 0 where
  signer_mismatch malformed bad_signature : VerifyError
