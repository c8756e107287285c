-- ===== src/Decide.antt =====
-- src/decide.rs: the gate. Each `check_*` returns the reasons that the code pushes at that place.
pub mod Checks
pub mod Gate
pub mod Reasons
pub mod CrossVm
pub mod Policy
mod Tests
use liquet.Common.{◌<>◌, String, Bool, true, false, not, ◌&&◌, ◌||◌, List, [], ◌∷◌, ◌++◌, ◌==◌}
use liquet.Common.{Option, none, some, map, if◌then◌else◌}
use liquet.Common.Text.{join}
use liquet.Common.Decimal.{to_string}
use liquet.Seam.{
  Vm, vm_eq, debug_vm, producer_recovered, caller_asserted, ReexecProof, SettlementIntent, matched,
  half_open, mismatch, unverifiable, CrossVmProof, Severity, info, exceeds, debug_severity, Finding,
  InvariantVerdict,
}
use mathlib.Core.Option

pub record GatePolicy : Type 0 where
  pub max_settle_severity : Severity
  pub require_executed : Bool
  pub require_recovered_facts : Bool

-- `GatePolicy::default()`
abbrev pub default_policy : GatePolicy
default_policy = record {
  max_settle_severity = info;
  require_executed = true;
  require_recovered_facts = false;
}

pub data LiquetDecision : Type 0 where
  settle : (caveats : List String) → LiquetDecision
  hold : (reasons : List String) → LiquetDecision

abbrev pub is_settle : LiquetDecision → Bool
is_settle (settle _) = true
is_settle (hold _) = false

abbrev pub is_empty {ℓ} : {A : Type ℓ} → List A → Bool
is_empty [] = true
is_empty (_ ∷ _) = false

-- The end of both gates.
abbrev pub conclude : List String → List String → LiquetDecision
conclude reasons caveats = if is_empty reasons then settle caveats else hold reasons

abbrev pub unverifiable_reason : String → String
unverifiable_reason why = "re-exec unverifiable: " <> why

unfoldable pub check_unverifiable : ReexecProof → List String
check_unverifiable proof = elim proof.unverifiable_reason [
  | none ↦ []
  | some why ↦ unverifiable_reason why ∷ []
]

abbrev pub unexecuted_reason : String
unexecuted_reason = "re-exec proof shows the leg did not execute"

unfoldable pub check_executed : ReexecProof → GatePolicy → List String
check_executed proof policy =
    if policy.require_executed && not proof.executed then unexecuted_reason ∷ [] else []

-- `format!("[{}] {}", f.code, f.message)`
abbrev pub describe : Finding → String
describe f = "[" <> (f.code <> ("] " <> f.message))

-- The findings above the threshold, described.
unfoldable pub offending : Severity → List Finding → List String
offending limit [] = []
offending limit (f ∷ fs) =
    let rest = offending limit fs in if exceeds f.severity limit then describe f ∷ rest else rest

abbrev pub level_reason : Severity → Severity → String
level_reason level limit =
    "invariant level "
    <> (debug_severity level <> (" exceeds settle threshold " <> debug_severity limit))

unfoldable pub check_invariants : InvariantVerdict → GatePolicy → List String
check_invariants verdict policy =
    let found = offending policy.max_settle_severity verdict.findings in
    if exceeds verdict.level policy.max_settle_severity
    then (if is_empty found
        then level_reason verdict.level policy.max_settle_severity ∷ []
        else found)
    else []

-- `covered.iter().any(|c| c == acct)`
unfoldable pub covers : List String → String → Bool
covers [] acct = false
covers (c ∷ cs) acct = c == acct || covers cs acct

abbrev pub gap_reason : String → String
gap_reason acct = "required account " <> (acct <> " was not in the producer's scope (coverage gap)")

unfoldable pub check_coverage : List String → List String → List String
check_coverage [] covered = []
check_coverage (acct ∷ accts) covered =
    let rest = check_coverage accts covered in
    if not (covers covered acct) then gap_reason acct ∷ rest else rest

abbrev pub mismatch_reason : String → String → String → String
mismatch_reason field observed intended =
    "executed " <> (field <> (" " <> (observed <> (" does not match intent " <> intended))))

abbrev pub missing_reason : String → String
missing_reason field = "producer-recovered proof is missing " <> (field <> " required for binding")

-- `bind`; `observed` is `None` when the producer did not supply the fact.
unfoldable pub bind : List String → String → Option String → String → List String
bind reasons field (some v) intended =
    if not (v == intended) then reasons ++ mismatch_reason field v intended ∷ [] else reasons
bind reasons field none intended = reasons ++ missing_reason field ∷ []

abbrev pub vm_reason : Vm → Vm → String
vm_reason executed intended =
    "executed vm " <> (debug_vm executed <> (" does not match intent vm " <> debug_vm intended))

unfoldable pub check_vm : Vm → Vm → List String
check_vm executed intended =
    if not (vm_eq executed intended) then vm_reason executed intended ∷ [] else []

-- The three facts, bound one after the other.
unfoldable pub bind_facts : List String → ReexecProof → SettlementIntent → List String
bind_facts reasons proof intent =
    let with_asset = bind reasons "asset" proof.asset intent.asset in
    let with_amount =
      bind with_asset "amount" (Option.map to_string proof.amount) (to_string intent.amount) in
    bind with_amount "recipient" proof.recipient intent.recipient

abbrev pub unbound_note : String
unbound_note =
    "intent-binding unverified: producer could not recover transfer facts (Phase 1, Custos-only)"

-- The reasons with those of the intent binding, and the caveats.
unfoldable pub check_binding :
    List String → SettlementIntent → ReexecProof → GatePolicy → List String × List String
check_binding reasons intent proof policy = elim proof.facts_source [
  | producer_recovered ↦ (bind_facts (reasons ++ check_vm proof.vm intent.vm) proof intent, [])
  | caller_asserted ↦
      if policy.require_recovered_facts
      then (reasons ++ (unbound_note ∷ []), [])
      else (reasons, unbound_note ∷ [])
]

-- The checks that stand before the binding, in their order.
unfoldable pub safety_reasons :
    SettlementIntent → ReexecProof → InvariantVerdict → GatePolicy → List String
safety_reasons intent proof verdict policy =
    check_unverifiable proof
    ++ (check_executed proof policy
        ++ (check_invariants verdict policy
            ++ check_coverage intent.required_accounts proof.covered_accounts))

unfoldable pub decide :
    SettlementIntent → ReexecProof → InvariantVerdict → GatePolicy → LiquetDecision
decide intent proof verdict policy =
    let (reasons, caveats) =
      check_binding (safety_reasons intent proof verdict policy) intent proof policy in
    conclude reasons caveats

unfoldable pub check_reconcile : CrossVmProof → List String
check_reconcile proof = elim proof.reconcile [
  | matched ↦ []
  | half_open ↦
      ("cross-VM settlement half-open — exactly one leg settled (funds in-flight): "
        <> join proof.reasons "; ")
      ∷ []
  | mismatch ↦ ("cross-VM mismatch vs intent: " <> join proof.reasons "; ") ∷ []
  | unverifiable ↦ ("cross-VM leg unverifiable: " <> join proof.reasons "; ") ∷ []
]

unfoldable pub decide_crossvm : CrossVmProof → InvariantVerdict → GatePolicy → LiquetDecision
decide_crossvm proof invariant policy =
    conclude (check_reconcile proof ++ check_invariants invariant policy) []
