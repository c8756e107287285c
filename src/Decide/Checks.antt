-- ===== src/Decide/Checks.antt =====
-- src/decide.rs: when each check of the gate pushes no reason.
use mathlib.Core.Option
use mathlib.Core.Option.{some-injective}
use liquet.Common.{ℕ, ◌≤◌, ◌≡◌, refl, ap, ◌↔◌, true}
use liquet.Common.{List, [], ◌∷◌, Option, none, some, String, eq_iff, arith}
use liquet.Common.{All, In, push-ne-nil}
use liquet.Common.Decimal.{to_string}
use liquet.Common.Decimal.Laws.{to_string_injective}
use liquet.Seam.{
  Vm, ReexecProof, SettlementIntent, Severity, rank, Finding, InvariantVerdict, matched,
  CrossVmProof,
}
use liquet.Seam.Order.{IsBoundedBy, vm_eq_iff}
use liquet.Decide.{
  GatePolicy, check_unverifiable, check_executed, offending, check_invariants, covers,
  check_coverage, bind, check_vm, bind_facts, check_reconcile, mismatch_reason,
}

pub check_unverifiable-eq-nil :
    (p : ReexecProof) → (check_unverifiable p ≡ []) ↔ (p.unverifiable_reason ≡ none)
unfolding check_unverifiable
check_unverifiable-eq-nil p = ground arith

pub check_executed-eq-nil :
    (p : ReexecProof) (pol : GatePolicy)
    → (check_executed p pol ≡ []) ↔ ((pol.require_executed ≡ true) → p.executed ≡ true)
unfolding check_executed
check_executed-eq-nil p pol = ground arith

pub offending-eq-nil : (s : Severity) (fs : List Finding) → (offending s fs ≡ []) ↔ IsBoundedBy s fs
unfolding offending
offending-eq-nil s [] = (λ _. tt, λ _. refl)
offending-eq-nil s (f ∷ fs) = ground (arith, offending-eq-nil s fs)

pub check_invariants-eq-nil :
    (v : InvariantVerdict) (pol : GatePolicy)
    → (check_invariants v pol ≡ []) ↔ (rank v.level ≤ rank pol.max_settle_severity)
unfolding check_invariants
check_invariants-eq-nil v pol = ground arith

pub covers_iff : (cs : List String) (a : String) → (covers cs a ≡ true) ↔ In a cs
unfolding covers
covers_iff [] a = (λ h. cc, λ h. elim h [ ])
covers_iff (c ∷ cs) a = ground (arith, eq_iff c a, covers_iff cs a)

pub check_coverage-eq-nil :
    (accts cs : List String) → (check_coverage accts cs ≡ []) ↔ All (λ a. In a cs) accts
unfolding check_coverage
check_coverage-eq-nil [] cs = (λ _. tt, λ _. refl)
check_coverage-eq-nil (a ∷ accts) cs =
    ground (arith, covers_iff cs a, check_coverage-eq-nil accts cs)

pub check_vm-eq-nil : (a b : Vm) → (check_vm a b ≡ []) ↔ (a ≡ b)
unfolding check_vm
check_vm-eq-nil a b = ground (arith, vm_eq_iff a b)

bind-eq-nil :
    (rs : List String) (field : String) (o : Option String) (i : String)
    → (bind rs field o i ≡ []) ↔ ((rs ≡ []) × (o ≡ some i))
unfolding bind
bind-eq-nil rs field none i = (λ h. absurd (push-ne-nil rs _ h), λ h. cc h.1)
bind-eq-nil rs field (some v) i =
    ground (arith, eq_iff v i, push-ne-nil rs (mismatch_reason field v i))

-- The amounts agree as numbers, although the code compares their decimal texts.
amount_text : (o : Option ℕ) (n : ℕ) → (Option.map to_string o ≡ some (to_string n)) ↔ (o ≡ some n)
amount_text none n = (λ h. cc, λ h. cc)
amount_text (some m) n = (
  λ h. ap some (to_string_injective m n (some-injective _ _ h)),
  λ h. ap (Option.map to_string) h,
)

-- The facts that the producer recovered are those of the intent.
pub record IsBound (p : ReexecProof) (i : SettlementIntent) : Type 0 where
  pub vm : p.vm ≡ i.vm
  pub asset : p.asset ≡ some i.asset
  pub amount : p.amount ≡ some i.amount
  pub recipient : p.recipient ≡ some i.recipient

pub bind_facts-eq-nil :
    (rs : List String) (p : ReexecProof) (i : SettlementIntent)
    → (bind_facts rs p i ≡ []) ↔ (
        (rs ≡ [])
        × (p.asset ≡ some i.asset)
        × (p.amount ≡ some i.amount)
        × (p.recipient ≡ some i.recipient))
unfolding bind_facts
bind_facts-eq-nil rs p i = ground (
  arith,
  bind-eq-nil rs "asset" p.asset i.asset,
  amount_text p.amount i.amount,
  bind-eq-nil (bind rs "asset" p.asset i.asset) "amount" (Option.map to_string p.amount)
      (to_string i.amount),
  bind-eq-nil
      (bind (bind rs "asset" p.asset i.asset) "amount" (Option.map to_string p.amount)
        (to_string i.amount))
      "recipient" p.recipient i.recipient,
)

pub check_reconcile-eq-nil : (p : CrossVmProof) → (check_reconcile p ≡ []) ↔ (p.reconcile ≡ matched)
unfolding check_reconcile
check_reconcile-eq-nil p = ground arith
