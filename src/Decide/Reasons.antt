-- ===== src/Decide/Reasons.antt =====
-- src/decide.rs, `decide`: which reasons a hold carries.
use mathlib.Core.Option
use liquet.Common.{ℕ, ◌<◌, ◌≡◌, refl, ◌≢◌, ◌↔◌, ◌⊎◌, inl, inr, true, false}
use liquet.Common.{
  List, [], ◌∷◌, ◌++◌, Option, none, some, String, eq_iff, arith, In, In-append, In-append_of,
  Bool-cases,
}
use liquet.Common.Decimal.{to_string}
use liquet.Common.Decimal.Laws.{to_string_injective}
use liquet.Seam.{
  Vm, FactsSource, producer_recovered, caller_asserted, ReexecProof, SettlementIntent, Severity,
  rank, exceeds, Finding, InvariantVerdict,
}
use liquet.Seam.Order.{IsBoundedBy, vm_eq_iff}
use liquet.Decide.{
  GatePolicy, hold, describe, level_reason, gap_reason, mismatch_reason, missing_reason, vm_reason,
  unexecuted_reason, unverifiable_reason, unbound_note, check_unverifiable, check_executed,
  offending, check_invariants, check_coverage, covers, bind, check_vm, bind_facts, check_binding,
  safety_reasons, decide,
}
use liquet.Decide.Checks.{covers_iff, offending-eq-nil}

-- A recovered fact that is missing, or that differs from the intended one.
abbrev FactReason : String → Option String → String → String → Type 0
FactReason field none intended r = r ≡ missing_reason field
FactReason field (some v) intended r = (v ≢ intended) × (r ≡ mismatch_reason field v intended)

abbrev AmountReason : Option ℕ → ℕ → String → Type 0
AmountReason none n r = r ≡ missing_reason "amount"
AmountReason (some m) n r = (m ≢ n) × (r ≡ mismatch_reason "amount" (to_string m) (to_string n))

abbrev VerificationReason : Option String → String → Type 0
VerificationReason none r = ⊥
VerificationReason (some why) r = r ≡ unverifiable_reason why

-- `r` describes a finding above the threshold.
abbrev OffenceReason : Severity → List Finding → String → Type 0
OffenceReason s fs r = (f : Finding) × In f fs × (rank s < rank f.severity) × (r ≡ describe f)

-- The level is above the threshold; `r` describes such a finding, or the level where there is none.
abbrev pub InvariantReason : InvariantVerdict → GatePolicy → String → Type 0
InvariantReason v pol r =
    (rank pol.max_settle_severity < rank v.level)
    × (OffenceReason pol.max_settle_severity v.findings r
        ⊎ (IsBoundedBy pol.max_settle_severity v.findings
            × (r ≡ level_reason v.level pol.max_settle_severity)))

-- The policy asks for an executed leg and this one was not.
abbrev ExecutionReason : ReexecProof → GatePolicy → String → Type 0
ExecutionReason p pol r =
    (pol.require_executed ≡ true) × (p.executed ≡ false) × (r ≡ unexecuted_reason)

-- A required account is out of the producer's scope.
abbrev CoverageReason : List String → List String → String → Type 0
CoverageReason accts cs r = (a : String) × In a accts × ¬ In a cs × (r ≡ gap_reason a)

abbrev BindingReason : SettlementIntent → ReexecProof → GatePolicy → FactsSource → String → Type 0
BindingReason i p pol producer_recovered r =
    ((p.vm ≢ i.vm) × (r ≡ vm_reason p.vm i.vm))
    ⊎ (FactReason "asset" p.asset i.asset r
        ⊎ (AmountReason p.amount i.amount r ⊎ FactReason "recipient" p.recipient i.recipient r))
BindingReason i p pol caller_asserted r = (pol.require_recovered_facts ≡ true) × (r ≡ unbound_note)

abbrev SafetyReason :
    SettlementIntent → ReexecProof → InvariantVerdict → GatePolicy → String → Type 0
SafetyReason i p v pol r =
    VerificationReason p.unverifiable_reason r
    ⊎ (ExecutionReason p pol r
        ⊎ (InvariantReason v pol r ⊎ CoverageReason i.required_accounts p.covered_accounts r))

-- Why funds may be withheld, with the text that says so.
abbrev pub Withheld :
    SettlementIntent → ReexecProof → InvariantVerdict → GatePolicy → String → Type 0
Withheld i p v pol r = SafetyReason i p v pol r ⊎ BindingReason i p pol p.facts_source r

module _ (r : String) where
  In-check_unverifiable :
      (p : ReexecProof) → In r (check_unverifiable p) ↔ VerificationReason p.unverifiable_reason r
  unfolding check_unverifiable
  In-check_unverifiable p = ground arith

  In-check_executed :
      (p : ReexecProof) (pol : GatePolicy) → In r (check_executed p pol) ↔ ExecutionReason p pol r
  unfolding check_executed
  In-check_executed p pol = ground arith

  In-offending : (s : Severity) (fs : List Finding) → In r (offending s fs) ↔ OffenceReason s fs r
  unfolding offending
  In-offending s [] = (λ h. elim h [ ], λ h. elim h.1 [ ])
  In-offending s (f ∷ fs) = elim (Bool-cases (exceeds f.severity s)) [
    | inl over ↦ rw over (
      λ h. elim h [
        | inl e ↦ (f, inl refl, ground arith, e)
        | inr k ↦ let (g, m, l, e) = (In-offending s fs).0 k in (g, inr m, l, e)
      ],
      λ (g, m, l, e). elim m [
        | inl same ↦ inl (cc)
        | inr k ↦ inr ((In-offending s fs).1 (g, k, l, e))
      ],
    )
    | inr under ↦ rw under (
      λ k. let (g, m, l, e) = (In-offending s fs).0 k in (g, inr m, l, e),
      λ (g, m, l, e). elim m [
        | inl same ↦ absurd (ground arith)
        | inr k ↦ (In-offending s fs).1 (g, k, l, e)
      ],
    )
  ]

  In-check_coverage :
      (accts cs : List String) → In r (check_coverage accts cs) ↔ CoverageReason accts cs r
  unfolding check_coverage
  In-check_coverage [] cs = (λ h. elim h [ ], λ h. elim h.1 [ ])
  In-check_coverage (a ∷ accts) cs = elim (Bool-cases (covers cs a)) [
    | inl seen ↦ rw seen (
      λ k. let (b, m, l, e) = (In-check_coverage accts cs).0 k in (b, inr m, l, e),
      λ (b, m, l, e). elim m [
        | inl same ↦ absurd (l (rw same ((covers_iff cs a).0 seen)))
        | inr k ↦ (In-check_coverage accts cs).1 (b, k, l, e)
      ],
    )
    | inr missed ↦ rw missed (
      λ h. elim h [
        | inl e ↦ (a, inl refl, λ m. cc ((covers_iff cs a).1 m), e)
        | inr k ↦ let (b, m, l, e) = (In-check_coverage accts cs).0 k in (b, inr m, l, e)
      ],
      λ (b, m, l, e). elim m [
        | inl same ↦ inl (cc)
        | inr k ↦ inr ((In-check_coverage accts cs).1 (b, k, l, e))
      ],
    )
  ]

  In-check_vm : (a b : Vm) → In r (check_vm a b) ↔ ((a ≢ b) × (r ≡ vm_reason a b))
  unfolding check_vm
  In-check_vm a b = ground (arith, vm_eq_iff a b)

  In-bind :
      (rs : List String) (field : String) (o : Option String) (i : String)
      → In r (bind rs field o i) ↔ (In r rs ⊎ FactReason field o i r)
  unfolding bind
  In-bind rs field none i = ground (arith, In-append r rs (missing_reason field ∷ []))
  In-bind rs field (some v) i =
      ground (arith, eq_iff v i, In-append r rs (mismatch_reason field v i ∷ []))

  pub In-check_invariants :
      (v : InvariantVerdict) (pol : GatePolicy)
      → In r (check_invariants v pol) ↔ InvariantReason v pol r
  unfolding check_invariants
  In-check_invariants v pol = ground (
    arith,
    In-offending pol.max_settle_severity v.findings,
    offending-eq-nil pol.max_settle_severity v.findings,
  )

  In-bind_amount :
      (rs : List String) (o : Option ℕ) (n : ℕ)
      → In r (bind rs "amount" (Option.map to_string o) (to_string n))
        ↔ (In r rs ⊎ AmountReason o n r)
  In-bind_amount rs none n = In-bind rs "amount" none (to_string n)
  In-bind_amount rs (some m) n =
      ground
        (arith, In-bind rs "amount" (some (to_string m)) (to_string n), to_string_injective m n)

  In-check_binding :
      (rs : List String) (i : SettlementIntent) (p : ReexecProof) (pol : GatePolicy)
      → In r (check_binding rs i p pol).0 ↔ (In r rs ⊎ BindingReason i p pol p.facts_source r)
  unfolding check_binding bind_facts
  In-check_binding rs i p pol =
      let base = rs ++ check_vm p.vm i.vm in
      let with_asset = bind base "asset" p.asset i.asset in
      let with_amount =
        bind with_asset "amount" (Option.map to_string p.amount) (to_string i.amount) in
      ground (
        arith,
        In-append r rs (check_vm p.vm i.vm),
        In-append r rs (unbound_note ∷ []),
        In-check_vm p.vm i.vm,
        In-bind (rs ++ check_vm p.vm i.vm) "asset" p.asset i.asset,
        In-bind_amount (bind (rs ++ check_vm p.vm i.vm) "asset" p.asset i.asset) p.amount i.amount,
        In-bind with_amount "recipient" p.recipient i.recipient,
      )

  In-safety_reasons :
      (i : SettlementIntent) (p : ReexecProof) (v : InvariantVerdict) (pol : GatePolicy)
      → In r (safety_reasons i p v pol) ↔ SafetyReason i p v pol r
  unfolding safety_reasons
  In-safety_reasons i p v pol = In-append_of r _ _ (In-check_unverifiable p) (
      In-append_of r _ _ (In-check_executed p pol) (
        In-append_of r _ _ (In-check_invariants v pol)
          (In-check_coverage i.required_accounts p.covered_accounts)))

  In-reasons :
      (i : SettlementIntent) (p : ReexecProof) (v : InvariantVerdict) (pol : GatePolicy)
      → In r (check_binding (safety_reasons i p v pol) i p pol).0 ↔ Withheld i p v pol r
  In-reasons i p v pol =
      let bound = In-check_binding (safety_reasons i p v pol) i p pol in
      let safe = In-safety_reasons i p v pol in
      (
        λ h. elim (bound.0 h) [ inl k ↦ inl (safe.0 k) | inr k ↦ inr k ],
        λ h. elim h [ inl k ↦ bound.1 (inl (safe.1 k)) | inr k ↦ bound.1 (inr k) ],
      )

-- A hold has a reason, and a text is one of its reasons exactly when it is that of a failed check:
-- an unverifiable or unexecuted leg, the invariant screen, an uncovered account, a recovered fact
-- that is missing or differs from the intent, or facts that were not recovered where the policy
-- asks for them.
pub decide-eq-hold :
    (i : SettlementIntent) (p : ReexecProof) (v : InvariantVerdict) (pol : GatePolicy)
    {reasons : List String}
    → decide i p v pol ≡ hold reasons
    → (reasons ≢ []) × ((r : String) → In r reasons ↔ Withheld i p v pol r)
unfolding decide
decide-eq-hold i p v pol {reasons} h =
    let same : (check_binding (safety_reasons i p v pol) i p pol).0 ≡ reasons = ground arith in
    (ground arith, λ r. rw (← same) (In-reasons r i p v pol))
