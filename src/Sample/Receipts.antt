-- ===== src/Sample/Receipts.antt =====
-- An encoding of receipts for the examples; it stands for the JSON of `serde_json`.
use liquet.Common.{
  ℕ, zero, suc, ◌≡◌, refl, Bool, true, false, String, List, [], ◌∷◌, Option, none, some,
}
use liquet.Seam.{
  Vm, svm, evm, ReconcileVerdict, matched, half_open, mismatch, unverifiable, Severity, green, info,
  yellow, red, rank, Finding, InvariantVerdict,
}
use liquet.Decide.{LiquetDecision, settle, hold}
use liquet.Attest.{LegDigest, PolicySnapshot, DecisionBinding, SignedDecision}
use liquet.Sample.Codec.{Codec, nat_codec, text_codec, via, both, listed}

abbrev to_bool : ℕ → Bool
to_bool zero = false
to_bool (suc _) = true

abbrev of_bool : Bool → ℕ
of_bool false = 0
of_bool true = 1

pub bool_back : (b : Bool) → to_bool (of_bool b) ≡ b
bool_back true = refl
bool_back false = refl

abbrev to_vm : ℕ → Vm
to_vm zero = svm
to_vm (suc _) = evm

abbrev of_vm : Vm → ℕ
of_vm svm = 0
of_vm evm = 1

pub vm_back : (v : Vm) → to_vm (of_vm v) ≡ v
vm_back svm = refl
vm_back evm = refl

abbrev to_severity : ℕ → Severity
to_severity zero = green
to_severity (suc zero) = info
to_severity (suc (suc zero)) = yellow
to_severity (suc (suc (suc _))) = red

pub severity_back : (s : Severity) → to_severity (rank s) ≡ s
severity_back green = refl
severity_back info = refl
severity_back yellow = refl
severity_back red = refl

abbrev to_reconcile : ℕ → ReconcileVerdict
to_reconcile zero = matched
to_reconcile (suc zero) = half_open
to_reconcile (suc (suc zero)) = mismatch
to_reconcile (suc (suc (suc _))) = unverifiable

abbrev of_reconcile : ReconcileVerdict → ℕ
of_reconcile matched = 0
of_reconcile half_open = 1
of_reconcile mismatch = 2
of_reconcile unverifiable = 3

pub reconcile_back : (v : ReconcileVerdict) → to_reconcile (of_reconcile v) ≡ v
reconcile_back matched = refl
reconcile_back half_open = refl
reconcile_back mismatch = refl
reconcile_back unverifiable = refl

abbrev to_option : List String → Option String
to_option [] = none
to_option (s ∷ _) = some s

abbrev of_option : Option String → List String
of_option none = []
of_option (some s) = s ∷ []

pub option_back : (o : Option String) → to_option (of_option o) ≡ o
option_back none = refl
option_back (some s) = refl

abbrev to_decision : Bool × List String → LiquetDecision
to_decision (true, notes) = settle notes
to_decision (false, notes) = hold notes

abbrev of_decision : LiquetDecision → Bool × List String
of_decision (settle notes) = (true, notes)
of_decision (hold notes) = (false, notes)

pub decision_back : (d : LiquetDecision) → to_decision (of_decision d) ≡ d
decision_back (settle notes) = refl
decision_back (hold notes) = refl

abbrev bool_codec : Codec Bool
bool_codec = via nat_codec to_bool of_bool bool_back

abbrev severity_codec : Codec Severity
severity_codec = via nat_codec to_severity rank severity_back

abbrev leg_codec : Codec LegDigest
leg_codec =
    via (both (via nat_codec to_vm of_vm vm_back) (both bool_codec text_codec))
      (λ p. record { vm = p.0; executed = p.1.0; poststate_digest = p.1.1 })
      (λ l. (l.vm, (l.executed, l.poststate_digest))) (λ l. refl)

abbrev finding_codec : Codec Finding
finding_codec =
    via
      (both severity_codec (
        both text_codec
          (both (via (listed text_codec) to_option of_option option_back) text_codec)))
      (λ p. record { severity = p.0; code = p.1.0; account = p.1.1.0; message = p.1.1.1 })
      (λ f. (f.severity, (f.code, (f.account, f.message)))) (λ f. refl)

abbrev verdict_codec : Codec InvariantVerdict
verdict_codec =
    via (both severity_codec (listed finding_codec)) (λ p. record { level = p.0; findings = p.1 })
      (λ v. (v.level, v.findings)) (λ v. refl)

abbrev policy_codec : Codec PolicySnapshot
policy_codec =
    via (both severity_codec (both bool_codec bool_codec))
      (λ p. record {
        max_settle_severity = p.0;
        require_executed = p.1.0;
        require_recovered_facts = p.1.1;
      })
      (λ s. (s.max_settle_severity, (s.require_executed, s.require_recovered_facts))) (λ s. refl)

abbrev decision_codec : Codec LiquetDecision
decision_codec = via (both bool_codec (listed text_codec)) to_decision of_decision decision_back

abbrev pub binding_codec : Codec DecisionBinding
binding_codec =
    via
      (both text_codec (
        both text_codec (
          both (listed leg_codec) (
            both (via nat_codec to_reconcile of_reconcile reconcile_back)
              (both verdict_codec (both policy_codec decision_codec))))))
      (λ p. record {
        settlement_id = p.0;
        claim_hash = p.1.0;
        legs = p.1.1.0;
        reconcile = p.1.1.1.0;
        invariant = p.1.1.1.1.0;
        policy = p.1.1.1.1.1.0;
        decision = p.1.1.1.1.1.1;
      })
      (λ b. (
        b.settlement_id,
        (b.claim_hash, (b.legs, (b.reconcile, (b.invariant, (b.policy, b.decision))))),
      ))
      (λ b. refl)

abbrev pub receipt_codec : Codec SignedDecision
receipt_codec =
    via (both binding_codec (both text_codec text_codec))
      (λ p. record { binding = p.0; signer = p.1.0; signature = p.1.1 })
      (λ s. (s.binding, (s.signer, s.signature))) (λ s. refl)
