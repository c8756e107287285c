-- ===== src/Decide/Policy.antt =====
-- src/decide.rs: better evidence and a laxer policy never turn a settle into a hold.
use liquet.Common.{◌≤◌, ◌≡◌, true, List, [], ◌∷◌, String, arith, All, In}
use liquet.Seam.{
  FactsSource, producer_recovered, caller_asserted, ReexecProof, SettlementIntent, CrossVmProof,
  rank, InvariantVerdict,
}
use liquet.Decide.{GatePolicy, settle, decide, decide_crossvm}
use liquet.Decide.Gate.{IsBinding, decide-eq-settle}
use liquet.Decide.CrossVm.{decide_crossvm-eq-settle}

-- `lax` asks for nothing that `strict` does not ask for.
pub record IsLaxer (strict lax : GatePolicy) : Type 0 where
  pub severity : rank strict.max_settle_severity ≤ rank lax.max_settle_severity
  pub executed : (lax.require_executed ≡ true) → strict.require_executed ≡ true
  pub recovered : (lax.require_recovered_facts ≡ true) → strict.require_recovered_facts ≡ true

All-covered_mono :
    (accts cs ds : List String)
    → ((a : String) → In a cs → In a ds)
    → All (λ a. In a cs) accts
    → All (λ a. In a ds) accts
All-covered_mono [] cs ds sub h = tt
All-covered_mono (a ∷ accts) cs ds sub (m, h) = (sub a m, All-covered_mono accts cs ds sub h)

IsBinding-mono :
    (i : SettlementIntent) (p : ReexecProof) (ds : List String) {strict lax : GatePolicy}
    (source : FactsSource)
    → IsLaxer strict lax
    → IsBinding i p strict source
    → IsBinding i (record p { covered_accounts = ds }) lax source
IsBinding-mono i p ds producer_recovered l b = ground arith
IsBinding-mono i p ds caller_asserted l b = ground arith

-- A settled leg stays settled, with the same caveats, under a policy that asks for less, with a
-- verdict whose level is no worse, and when the producer had more accounts in scope.
pub decide_mono :
    (i : SettlementIntent) (p : ReexecProof) (v w : InvariantVerdict) (strict lax : GatePolicy)
    (scope caveats : List String)
    → decide i p v strict ≡ settle caveats
    → IsLaxer strict lax
    → rank w.level ≤ rank v.level
    → ((a : String) → In a p.covered_accounts → In a scope)
    → decide i (record p { covered_accounts = scope }) w lax ≡ settle caveats
decide_mono i p v w strict lax scope caveats h l better sub =
    let (safe, binding, noted) = (decide-eq-settle i p v strict caveats).0 h in
    (decide-eq-settle i (record p { covered_accounts = scope }) w lax caveats).1 (
      record {
        verified = safe.verified;
        executed = λ e. safe.executed (l.executed e);
        tolerated = omega (arith, safe.tolerated, l.severity);
        covered = All-covered_mono i.required_accounts p.covered_accounts scope sub safe.covered;
      },
      IsBinding-mono i p scope p.facts_source l binding,
      noted,
    )

-- A settled cross-VM settlement stays settled under a policy that asks for less and with a verdict
-- whose level is no worse.
pub decide_crossvm_mono :
    (p : CrossVmProof) (v w : InvariantVerdict) (strict lax : GatePolicy) (caveats : List String)
    → decide_crossvm p v strict ≡ settle caveats
    → IsLaxer strict lax
    → rank w.level ≤ rank v.level
    → decide_crossvm p w lax ≡ settle caveats
decide_crossvm_mono p v w strict lax caveats h l better =
    let (matches, tolerated, noted) = (decide_crossvm-eq-settle p v strict caveats).0 h in
    (decide_crossvm-eq-settle p w lax caveats).1
      (matches, omega (arith, tolerated, l.severity), noted)
