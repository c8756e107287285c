-- ===== src/Decide/CrossVm.antt =====
-- src/decide.rs, `decide_crossvm`: when funds move, and why not.
use mathlib.Core.List.{filter}
use native.Mathlib.Decide.{dec_lt}
use liquet.Common.{◌<◌, ◌≤◌, ◌≡◌, refl, ◌≢◌, ◌↔◌, ◌⊎◌}
use liquet.Common.{List, [], ◌∷◌, ◌++◌, map, String, ◌<>◌, arith, In, In-append_of}
use liquet.Common.{append-eq-nil}
use liquet.Common.Text.{join}
use liquet.Seam.{
  ReconcileVerdict, matched, half_open, mismatch, unverifiable, CrossVmProof, Severity, rank,
  Finding, InvariantVerdict,
}
use liquet.Seam.Order.{IsBoundedBy, Reaches, IsWorst}
use liquet.Decide.{
  GatePolicy, settle, hold, describe, offending, check_invariants, check_reconcile, decide_crossvm,
}
use liquet.Decide.Checks.{check_reconcile-eq-nil, check_invariants-eq-nil, offending-eq-nil}
use liquet.Decide.Reasons.{InvariantReason, In-check_invariants}

-- The cross-VM gate settles exactly when the legs reconcile as matched and the level is within the
-- policy's threshold, and then without caveats.
pub decide_crossvm-eq-settle :
    (p : CrossVmProof) (v : InvariantVerdict) (pol : GatePolicy) (caveats : List String)
    → (decide_crossvm p v pol ≡ settle caveats)
      ↔ ((p.reconcile ≡ matched) × (rank v.level ≤ rank pol.max_settle_severity) × (caveats ≡ []))
unfolding decide_crossvm
decide_crossvm-eq-settle p v pol caveats = ground (
  arith,
  check_reconcile-eq-nil p,
  check_invariants-eq-nil v pol,
  append-eq-nil (check_reconcile p) (check_invariants v pol),
)

-- What each verdict but `matched` adds.
abbrev pub ReconcileReason : ReconcileVerdict → List String → String → Type 0
ReconcileReason matched why r = ⊥
ReconcileReason half_open why r = r ≡ (
    "cross-VM settlement half-open — exactly one leg settled (funds in-flight): " <> join why "; ")
ReconcileReason mismatch why r = r ≡ ("cross-VM mismatch vs intent: " <> join why "; ")
ReconcileReason unverifiable why r = r ≡ ("cross-VM leg unverifiable: " <> join why "; ")

In-check_reconcile :
    (r : String) (p : CrossVmProof)
    → In r (check_reconcile p) ↔ ReconcileReason p.reconcile p.reasons r
unfolding check_reconcile
In-check_reconcile r p = ground arith

-- A cross-VM hold has a reason, and its reasons are the one that the reconcile verdict gives, unless
-- it is matched, and those of the invariant screen.
pub decide_crossvm-eq-hold :
    (p : CrossVmProof) (v : InvariantVerdict) (pol : GatePolicy) {reasons : List String}
    → decide_crossvm p v pol ≡ hold reasons
    → (reasons ≢ [])
      × ((r : String)
          → In r reasons ↔ (ReconcileReason p.reconcile p.reasons r ⊎ InvariantReason v pol r))
unfolding decide_crossvm
decide_crossvm-eq-hold p v pol {reasons} h =
    let same : check_reconcile p ++ check_invariants v pol ≡ reasons = ground arith in
    (
      ground arith,
      λ r. rw (← same) (In-append_of r _ _ (In-check_reconcile r p) (In-check_invariants r v pol)),
    )

offending-filter :
    (s : Severity) (fs : List Finding)
    → offending s fs ≡ map describe (filter (λ f. dec_lt (rank s) (rank f.severity)) fs)
unfolding offending
offending-filter s [] = refl
offending-filter s (f ∷ fs) = ground (arith, offending-filter s fs)

exceeds_of_Reaches :
    (s l : Severity) (fs : List Finding) → rank s < rank l → Reaches l fs → ¬ IsBoundedBy s fs
exceeds_of_Reaches s l [] h r b = ground arith
exceeds_of_Reaches s l (f ∷ fs) h r b = ground (arith, exceeds_of_Reaches s l fs h)

bounded_trans :
    (s l : Severity) (fs : List Finding) → rank l ≤ rank s → IsBoundedBy l fs → IsBoundedBy s fs
bounded_trans s l [] h b = tt
bounded_trans s l (f ∷ fs) h b = (omega arith, bounded_trans s l fs h b.1)

-- For a verdict whose level is the worst severity of its findings, the invariant screen gives a
-- reason for each finding above the threshold, in order, and no other.
pub check_invariants_of_IsWorst :
    (v : InvariantVerdict) (pol : GatePolicy)
    → IsWorst v
    → check_invariants v pol
      ≡ map describe
          (filter (λ f. dec_lt (rank pol.max_settle_severity) (rank f.severity)) v.findings)
unfolding check_invariants
check_invariants_of_IsWorst v pol w = rw (← offending-filter pol.max_settle_severity v.findings) (
    ground (
      arith,
      offending-eq-nil pol.max_settle_severity v.findings,
      exceeds_of_Reaches pol.max_settle_severity v.level v.findings,
      bounded_trans pol.max_settle_severity v.level v.findings,
      w.bounded,
      w.reached,
    ))

-- The decision of the cross-VM gate depends on the reconcile verdict, its reasons, the invariant
-- verdict and the threshold alone: the legs, the claim hash, the settlement id, `require_executed`
-- and `require_recovered_facts` make no difference.
pub decide_crossvm-congr :
    (p q : CrossVmProof) (v : InvariantVerdict) (pol pol' : GatePolicy)
    → p.reconcile ≡ q.reconcile
    → p.reasons ≡ q.reasons
    → pol.max_settle_severity ≡ pol'.max_settle_severity
    → decide_crossvm p v pol ≡ decide_crossvm q v pol'
unfolding decide_crossvm check_reconcile check_invariants
decide_crossvm-congr p q v pol pol' e f g = ground arith
