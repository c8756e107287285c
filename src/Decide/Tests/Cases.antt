-- ===== src/Decide/Tests/Cases.antt =====
-- The tests of src/decide.rs, as Boolean functions, with their fixtures.
use liquet.Common.{
  Bool, true, false, not, ◌&&◌, String, ◌==◌, List, [], ◌∷◌, none, some, any, list_eq,
}
use liquet.Common.Text.{contains}
use liquet.Seam.{
  svm, producer_recovered, caller_asserted, ReexecProof, SettlementIntent, ReconcileVerdict,
  matched, half_open, mismatch, CrossVmProof, info, yellow, red, InvariantVerdict, green_verdict,
}
use liquet.Decide.{default_policy, LiquetDecision, settle, hold, is_settle, decide, decide_crossvm}

abbrev demo_reasons : ReconcileVerdict → List String
demo_reasons matched = []
demo_reasons _ = "demo reason" ∷ []

abbrev pub cross_vm : ReconcileVerdict → CrossVmProof
cross_vm reconcile = record {
  reconcile = reconcile;
  reasons = demo_reasons reconcile;
  legs = [];
  claim_hash = "abc";
  settlement_id = "settlement-1";
}

abbrev pub intent : SettlementIntent
intent = record {
  vm = svm;
  asset = "USDC";
  amount = 1000000;
  recipient = "Rcpt111";
  required_accounts = "Acct1" ∷ "Acct2" ∷ [];
}

abbrev pub caller_asserted_proof : ReexecProof
caller_asserted_proof = record {
  vm = svm;
  executed = true;
  poststate_digest = "deadbeef";
  covered_accounts = "Acct1" ∷ "Acct2" ∷ "Acct3" ∷ [];
  facts_source = caller_asserted;
  asset = none;
  amount = none;
  recipient = none;
  unverifiable_reason = none;
}

abbrev pub recovered_proof : ReexecProof
recovered_proof = record caller_asserted_proof {
  facts_source = producer_recovered;
  asset = some "USDC";
  amount = some 1000000;
  recipient = some "Rcpt111";
}

abbrev pub drain : InvariantVerdict
drain = record {
  level = red;
  findings =
      record {
        severity = red;
        code = "F1-drain";
        account = some "Tok111";
        message = "user token account fully drained";
      }
      ∷ [];
}

-- `==` on decisions, derived.
abbrev pub decision_eq : LiquetDecision → LiquetDecision → Bool
decision_eq (settle a) (settle b) = list_eq (λ x y. x == y) a b
decision_eq (hold a) (hold b) = list_eq (λ x y. x == y) a b
decision_eq _ _ = false

-- A `match` that panics unless the decision is a hold, or a settlement, one of whose texts passes.
abbrev held_for : (String → Bool) → LiquetDecision → Bool
held_for p (hold reasons) = any p reasons
held_for p (settle caveats) = false

abbrev settled_for : (String → Bool) → LiquetDecision → Bool
settled_for p (settle caveats) = any p caveats
settled_for p (hold reasons) = false

abbrev pub matched_and_clean_settles_without_caveat : Bool
matched_and_clean_settles_without_caveat =
    decision_eq (decide_crossvm (cross_vm matched) green_verdict default_policy) (settle [])

abbrev pub half_open_holds : Bool
half_open_holds =
    held_for (λ r. contains r "half-open")
      (decide_crossvm (cross_vm half_open) green_verdict default_policy)

abbrev pub mismatch_holds : Bool
mismatch_holds = not (is_settle (decide_crossvm (cross_vm mismatch) green_verdict default_policy))

abbrev delegate : InvariantVerdict
delegate = record {
  level = red;
  findings =
      record {
        severity = red;
        code = "F2-delegate";
        account = none;
        message = "unlimited delegate granted on the delivery leg";
      }
      ∷ [];
}

abbrev pub matched_but_malicious_svm_leg_holds : Bool
matched_but_malicious_svm_leg_holds =
    held_for (λ r. contains r "F2-delegate")
      (decide_crossvm (cross_vm matched) delegate default_policy)

abbrev pub benign_settles_with_binding_caveat_under_custos : Bool
benign_settles_with_binding_caveat_under_custos =
    settled_for (λ c. contains c "intent-binding unverified")
      (decide intent caller_asserted_proof green_verdict default_policy)

abbrev pub drain_finding_holds_with_reason : Bool
drain_finding_holds_with_reason =
    held_for (λ r. contains r "F1-drain") (decide intent caller_asserted_proof drain default_policy)

abbrev pub unexecuted_leg_holds : Bool
unexecuted_leg_holds =
    let p = record caller_asserted_proof { executed = false } in
    not (is_settle (decide intent p green_verdict default_policy))

abbrev pub coverage_gap_holds : Bool
coverage_gap_holds =
    let p = record caller_asserted_proof { covered_accounts = "Acct1" ∷ [] } in
    held_for (λ r. contains r "Acct2" && contains r "coverage gap")
      (decide intent p green_verdict default_policy)

abbrev pub producer_recovered_match_settles_without_caveat : Bool
producer_recovered_match_settles_without_caveat =
    decision_eq (decide intent recovered_proof green_verdict default_policy) (settle [])

abbrev pub producer_recovered_recipient_mismatch_holds : Bool
producer_recovered_recipient_mismatch_holds =
    let p = record recovered_proof { recipient = some "Attacker999" } in
    held_for (λ r. contains r "recipient" && contains r "does not match")
      (decide intent p green_verdict default_policy)

abbrev pub require_recovered_facts_turns_caveat_into_hold : Bool
require_recovered_facts_turns_caveat_into_hold =
    let policy = record default_policy { require_recovered_facts = true } in
    not (is_settle (decide intent caller_asserted_proof green_verdict policy))

abbrev informed : InvariantVerdict
informed = record { level = info; findings = [] }

abbrev unknown_program : InvariantVerdict
unknown_program = record {
  level = yellow;
  findings =
      record {
        severity = yellow;
        code = "F5-unknown-program";
        account = none;
        message = "invoked program not on allowlist";
      }
      ∷ [];
}

abbrev pub yellow_holds_but_info_settles_under_default_policy : Bool
yellow_holds_but_info_settles_under_default_policy =
    is_settle (decide intent caller_asserted_proof informed default_policy)
    && not (is_settle (decide intent caller_asserted_proof unknown_program default_policy))

abbrev pub tests : List Bool
tests =
    matched_and_clean_settles_without_caveat ∷ half_open_holds ∷ mismatch_holds
    ∷ matched_but_malicious_svm_leg_holds ∷ benign_settles_with_binding_caveat_under_custos
    ∷ drain_finding_holds_with_reason ∷ unexecuted_leg_holds ∷ coverage_gap_holds
    ∷ producer_recovered_match_settles_without_caveat ∷ producer_recovered_recipient_mismatch_holds
    ∷ require_recovered_facts_turns_caveat_into_hold
    ∷ yellow_holds_but_info_settles_under_default_policy ∷ []
