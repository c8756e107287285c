-- ===== src/Decide/Gate.antt =====
-- src/decide.rs, `decide`: when funds move, and with what caveats.
use liquet.Common.{◌≤◌, ◌≡◌, ◌↔◌, true, false}
use liquet.Common.{List, [], ◌∷◌, ◌++◌, none, String, arith, All, In}
use liquet.Common.{append-eq-nil, push-ne-nil}
use liquet.Seam.{
  FactsSource, producer_recovered, caller_asserted, ReexecProof, SettlementIntent, rank,
  InvariantVerdict,
}
use liquet.Decide.{
  GatePolicy, settle, unbound_note, check_unverifiable, check_executed, check_invariants,
  check_coverage, check_vm, check_binding, safety_reasons, decide,
}
use liquet.Decide.Checks.{
  IsBound, check_unverifiable-eq-nil, check_executed-eq-nil, check_invariants-eq-nil,
  check_coverage-eq-nil, check_vm-eq-nil, bind_facts-eq-nil,
}

-- What a release asks of the leg, whatever the source of its facts.
pub record IsSafe (i : SettlementIntent) (p : ReexecProof) (v : InvariantVerdict) (pol : GatePolicy)
    : Type 0 where
  pub verified : p.unverifiable_reason ≡ none
  pub executed : (pol.require_executed ≡ true) → p.executed ≡ true
  pub tolerated : rank v.level ≤ rank pol.max_settle_severity
  pub covered : All (λ a. In a p.covered_accounts) i.required_accounts

-- What it asks of the transfer facts: a match, or leave to go without one.
abbrev pub IsBinding : SettlementIntent → ReexecProof → GatePolicy → FactsSource → Type 0
IsBinding i p pol producer_recovered = IsBound p i
IsBinding i p pol caller_asserted = pol.require_recovered_facts ≡ false

abbrev caveats_of : FactsSource → List String
caveats_of producer_recovered = []
caveats_of caller_asserted = unbound_note ∷ []

safety_reasons-eq-nil :
    (i : SettlementIntent) (p : ReexecProof) (v : InvariantVerdict) (pol : GatePolicy)
    → (safety_reasons i p v pol ≡ []) ↔ IsSafe i p v pol
unfolding safety_reasons
safety_reasons-eq-nil i p v pol = ground (
  arith,
  check_unverifiable-eq-nil p,
  check_executed-eq-nil p pol,
  check_invariants-eq-nil v pol,
  check_coverage-eq-nil i.required_accounts p.covered_accounts,
  append-eq-nil (check_invariants v pol) (check_coverage i.required_accounts p.covered_accounts),
  append-eq-nil (check_executed p pol)
      (check_invariants v pol ++ check_coverage i.required_accounts p.covered_accounts),
  append-eq-nil (check_unverifiable p) (
      check_executed p pol
      ++ (check_invariants v pol ++ check_coverage i.required_accounts p.covered_accounts)),
)

-- The gate settles exactly when the leg is verified, executed where the policy asks for it, no worse
-- than the policy's threshold, every required account is in the producer's scope, and either the
-- recovered vm, asset, amount and recipient are those of the intent, or the facts are asserted by
-- the caller and the policy does not ask for recovered ones. The caveats are then none in the first
-- case and the one note in the second.
pub decide-eq-settle :
    (i : SettlementIntent) (p : ReexecProof) (v : InvariantVerdict) (pol : GatePolicy)
    (caveats : List String)
    → (decide i p v pol ≡ settle caveats) ↔ (
        IsSafe i p v pol × IsBinding i p pol p.facts_source × (caveats ≡ caveats_of p.facts_source))
unfolding decide check_binding
decide-eq-settle i p v pol caveats = ground (
  arith,
  safety_reasons-eq-nil i p v pol,
  check_vm-eq-nil p.vm i.vm,
  append-eq-nil (safety_reasons i p v pol) (check_vm p.vm i.vm),
  bind_facts-eq-nil (safety_reasons i p v pol ++ check_vm p.vm i.vm) p i,
  push-ne-nil (safety_reasons i p v pol) unbound_note,
)
