-- ===== src/Decide/Tests.antt =====
-- The tests of src/decide.rs, and the theorems about the gate at concrete inputs.
use mathlib.Core.List.{filter}
use native.Mathlib.Decide.{dec_lt}
mod Cases
use liquet.Common.{◌≤◌, ◌≡◌, refl, ◌≢◌, ◌↔◌, ◌⊎◌, inl, true, false, String}
use liquet.Common.{List, [], ◌∷◌, map, some, arith, In, every}
use liquet.Common.Text.{join, contains}
use liquet.Common.Decimal.{to_string}
use liquet.Seam.{
  svm, vm_eq, producer_recovered, caller_asserted, ReconcileVerdict, matched, half_open, yellow,
  red, rank, green_verdict,
}
use liquet.Decide.{
  default_policy, settle, hold, describe, unbound_note, check_unverifiable, check_executed,
  offending, check_invariants, covers, check_coverage, bind, check_vm, bind_facts, check_binding,
  safety_reasons, decide, check_reconcile, decide_crossvm,
}
use liquet.Decide.Tests.Cases.{
  cross_vm, intent, caller_asserted_proof, recovered_proof, drain, tests,
}
use liquet.Decide.Gate.{IsSafe, IsBinding, decide-eq-settle}
use liquet.Decide.Reasons.{Withheld, InvariantReason, decide-eq-hold}
use liquet.Decide.CrossVm.{
  ReconcileReason, decide_crossvm-eq-settle, decide_crossvm-eq-hold, check_invariants_of_IsWorst,
  decide_crossvm-congr,
}
use liquet.Decide.Policy.{decide_mono, decide_crossvm_mono}

gate : Unit {0}
unfolding decide decide_crossvm check_unverifiable check_executed offending check_invariants covers
    check_coverage bind check_vm bind_facts check_binding safety_reasons check_reconcile to_string
    vm_eq join
gate = tt

benign_settles_with_binding_caveat_under_custos_exactly :
    decide intent caller_asserted_proof green_verdict default_policy ≡ settle (unbound_note ∷ [])
unfolding gate
benign_settles_with_binding_caveat_under_custos_exactly = refl

drain_finding_holds_with_reason_exactly :
    decide intent caller_asserted_proof drain default_policy
    ≡ hold ("[F1-drain] user token account fully drained" ∷ [])
unfolding gate
drain_finding_holds_with_reason_exactly = refl

coverage_gap_holds_exactly :
    decide intent
      (record caller_asserted_proof { covered_accounts = "Acct1" ∷ [] })
      green_verdict
      default_policy
    ≡ hold ("required account Acct2 was not in the producer's scope (coverage gap)" ∷ [])
unfolding gate
coverage_gap_holds_exactly = refl

producer_recovered_match_settles_without_caveat_exactly :
    decide intent recovered_proof green_verdict default_policy ≡ settle []
unfolding gate
producer_recovered_match_settles_without_caveat_exactly = refl

producer_recovered_recipient_mismatch_holds_exactly :
    decide intent
      (record recovered_proof { recipient = some "Attacker999"; amount = some 7 })
      green_verdict
      default_policy
    ≡ hold (
        "executed amount 7 does not match intent 1000000"
        ∷ "executed recipient Attacker999 does not match intent Rcpt111" ∷ [])
unfolding gate
producer_recovered_recipient_mismatch_holds_exactly = refl

half_open_holds_exactly :
    decide_crossvm (cross_vm half_open) green_verdict default_policy
    ≡ hold (
        "cross-VM settlement half-open — exactly one leg settled (funds in-flight): demo reason"
        ∷ [])
unfolding gate
half_open_holds_exactly = refl

matched_and_clean_settles_without_caveat_exactly :
    decide_crossvm (cross_vm matched) green_verdict default_policy ≡ settle []
unfolding gate
matched_and_clean_settles_without_caveat_exactly = refl

decide-eq-settle_example :
    (decide intent recovered_proof green_verdict default_policy ≡ settle []) ↔ (
      IsSafe intent recovered_proof green_verdict default_policy
      × IsBinding intent recovered_proof default_policy producer_recovered
      × (◌≡◌ {A = List String} [] []))
decide-eq-settle_example = decide-eq-settle intent recovered_proof green_verdict default_policy []

decide-eq-hold_example :
    (◌≢◌ {A = List String} ("[F1-drain] user token account fully drained" ∷ []) [])
    × ((r : String)
        → In r ("[F1-drain] user token account fully drained" ∷ [])
          ↔ Withheld intent caller_asserted_proof drain default_policy r)
decide-eq-hold_example =
    decide-eq-hold intent caller_asserted_proof drain default_policy
      drain_finding_holds_with_reason_exactly

decide_crossvm-eq-settle_example :
    (decide_crossvm (cross_vm matched) green_verdict default_policy ≡ settle [])
    ↔ ((◌≡◌ {A = ReconcileVerdict} matched matched) × (0 ≤ 1) × (◌≡◌ {A = List String} [] []))
decide_crossvm-eq-settle_example =
    decide_crossvm-eq-settle (cross_vm matched) green_verdict default_policy []

abbrev half_open_reasons : List String
half_open_reasons =
    "cross-VM settlement half-open — exactly one leg settled (funds in-flight): demo reason" ∷ []

decide_crossvm-eq-hold_example :
    (half_open_reasons ≢ [])
    × ((r : String)
        → In r half_open_reasons ↔ (
            ReconcileReason half_open ("demo reason" ∷ []) r
            ⊎ InvariantReason green_verdict default_policy r))
decide_crossvm-eq-hold_example =
    decide_crossvm-eq-hold (cross_vm half_open) green_verdict default_policy half_open_holds_exactly

check_invariants_of_IsWorst_example :
    check_invariants drain default_policy
    ≡ map describe (filter (λ f. dec_lt 1 (rank f.severity)) drain.findings)
check_invariants_of_IsWorst_example =
    check_invariants_of_IsWorst drain default_policy
      (record { bounded = omega arith; reached = inl refl })

decide_crossvm-congr_example :
    decide_crossvm (cross_vm matched) drain default_policy
    ≡ decide_crossvm
        (record (cross_vm matched) {
          legs = record caller_asserted_proof { executed = false } ∷ [];
        })
        drain
        (record default_policy { require_executed = false })
decide_crossvm-congr_example =
    decide_crossvm-congr (cross_vm matched)
      (record (cross_vm matched) { legs = record caller_asserted_proof { executed = false } ∷ [] })
      drain default_policy (record default_policy { require_executed = false }) refl refl refl

decide_mono_example :
    decide intent
      (record recovered_proof { covered_accounts = "Acct2" ∷ "Acct1" ∷ "Acct3" ∷ [] })
      green_verdict
      (record default_policy { max_settle_severity = yellow })
    ≡ settle []
decide_mono_example =
    decide_mono intent recovered_proof green_verdict green_verdict default_policy
      (record default_policy { max_settle_severity = yellow }) ("Acct2" ∷ "Acct1" ∷ "Acct3" ∷ []) []
      producer_recovered_match_settles_without_caveat_exactly
      (record { severity = omega arith; executed = λ e. e; recovered = λ e. e }) (omega arith)
      (λ a m. ground arith)

decide_crossvm_mono_example :
    decide_crossvm
      (cross_vm matched)
      green_verdict
      (record default_policy { max_settle_severity = yellow })
    ≡ settle []
decide_crossvm_mono_example =
    decide_crossvm_mono (cross_vm matched) green_verdict green_verdict default_policy
      (record default_policy { max_settle_severity = yellow }) []
      matched_and_clean_settles_without_caveat_exactly
      (record { severity = omega arith; executed = λ e. e; recovered = λ e. e }) (omega arith)

tests_pass : every (λ t. t) tests ≡ true
unfolding gate contains
tests_pass = refl
