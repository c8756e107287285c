-- ===== src/Erc8004/Tests/Fixtures.antt =====
-- Receipts, a disk and a validator for the tests of src/erc8004.
use liquet.Common.{err, sym, ◌∙◌, String, ◌≡◌, refl, ap, eq_refl, true, List, [], ◌∷◌, some}
use liquet.Common.{ok, ok_or, arith, eq_iff}
use liquet.Common.Text.{eq_ignore_ascii_case, last_segment, strip_suffix}
use liquet.Seam.{
  ReconcileVerdict, matched, half_open, unverifiable, CrossVmProof, InvariantVerdict, green_verdict,
  red,
}
use liquet.Decide.{default_policy, decide_crossvm, check_reconcile, check_invariants}
use liquet.Attest.{SignedDecision, new_binding}
use liquet.Attest.Verify.{digest, sign_decision, verify_decision}
use liquet.Sample.Toy.{toy}
use liquet.Sample.Hex.{encode, decode}
use liquet.Erc8004.{score, validation_response, verify_bundle}
use liquet.Erc8004.Store.{not_found, embedded_hash}
use liquet.Erc8004.Store.Mem.{lookup, insert, mem_get, mem_put}
use liquet.Erc8004.Store.File.{FileSystem, IsFaithful, FileStore}
use liquet.Erc8004.Validator.History.{SignsWith}
use liquet.Erc8004.Validator.{ResolvedRequest, SettlementValidator, handle_request}

abbrev pub evidence : ReconcileVerdict → CrossVmProof
evidence v = record {
  reconcile = v;
  reasons = "why" ∷ [];
  legs = [];
  claim_hash = "claim-abc";
  settlement_id = "settlement-1";
}

abbrev signed_with : ReconcileVerdict → InvariantVerdict → SignedDecision
signed_with r v =
    let p = evidence r in
    sign_decision toy (new_binding p v default_policy (decide_crossvm p v default_policy)) true

abbrev pub receipt : SignedDecision
receipt = signed_with matched green_verdict

abbrev pub held : SignedDecision
held = signed_with matched (record green_verdict { level = red })

abbrev pub open_leg : SignedDecision
open_leg = signed_with half_open green_verdict

abbrev pub unsure : SignedDecision
unsure = signed_with unverifiable green_verdict

-- A disk on which every call succeeds.
abbrev pub disk : FileSystem
disk = record {
  Disk = List (String × String);
  create_dir_all = λ d path. (ok tt, d);
  write = λ d path text. (ok tt, insert path text d);
  read_to_string =
      λ d path. ok_or (lookup path d) (record { kind = not_found; message = "No such file" });
}

lookup-inserted : (k v : String) (m : List (String × String)) → lookup k (insert k v m) ≡ some v
unfolding lookup insert
lookup-inserted k v [] = rw (eq_refl k) refl
lookup-inserted k v ((j, w) ∷ m) = ground (arith, eq_iff j k, eq_refl k, lookup-inserted k v m)

pub disk-IsFaithful : IsFaithful disk
disk-IsFaithful = record {
  read-write = λ d d' path text e. rw (← ap (λ r. r.1) e, lookup-inserted path text d) refl;
}

abbrev pub temp : FileStore
temp = record { root = "/tmp/store" }

abbrev pub always : SignedDecision → SettlementValidator
always signed = record { validate = λ req. ok signed }

pub always-SignsWith :
    (x : SignedDecision) → x ≡ sign_decision toy x.binding true → SignsWith toy true (always x)
always-SignsWith x made req other e =
    (x.binding, sym (ap (λ r. elim r [ ok y ↦ y | err _ ↦ x ]) e) ∙ made)

abbrev pub request : ResolvedRequest
request = record { request_hash = "request-1"; agent_id = 7; claim_json = "" }

unfoldable pub running : Unit {0}
unfolding new_binding digest sign_decision verify_decision encode decode eq_ignore_ascii_case
    decide_crossvm check_reconcile check_invariants score validation_response verify_bundle mem_get
    mem_put lookup insert embedded_hash last_segment strip_suffix handle_request
running = tt
