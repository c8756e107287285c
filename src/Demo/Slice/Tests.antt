-- ===== src/Demo/Slice/Tests.antt =====
-- src/bin/slice.rs on samples, and the theorems at concrete inputs.
use liquet.Common.{◌≤◌, ◌≡◌, refl, ◌↔◌, ◌⊎◌, String, true, false, All, In-map, [], ◌∷◌, some, err}
use liquet.Seam.{rank, info}
use liquet.Decide.{
  LiquetDecision, settle, hold, unbound_note, decide, check_binding, safety_reasons,
  check_unverifiable, check_executed, check_invariants, check_coverage, offending, covers,
}
use liquet.Adapters.Custos.{Outcome, proof_from_outcome, verdict_from_custos, bytes_le}
use liquet.Sample.Toy.{toy}
use liquet.Sample.Wallet.{wallet}
use liquet.Sample.Bench.{bench, tools, watched}
use liquet.Demo.Program.{panic_report, World, returned, panicked}
use liquet.Demo.Program.Laws.{Reported}
use liquet.Demo.Slice
use liquet.Demo.Slice.Laws.{
  Benign, Drainer, benign_decision, drainer_decision, outcome_of_benign, Printed,
  PrintedThenReported, Uninstalled, after_benign, after_drainer, line, main_prints,
}
use liquet.Demo.Slice.Decisions.{
  Covers, level_of, decide_outcome-eq-settle, IsWatching, decisions_lem,
}

abbrev start : World
start = record { drawn = 0; stdout = []; stderr = [] }

abbrev json : LiquetDecision → String
json (settle caveats) = "settle"
json (hold reasons) = "hold"

main_lines :
    (Slice.main toy wallet bench tools json start).1.stdout
    ≡ "benign-stablecoin-transfer settle" ∷ "hidden-approve-drainer hold" ∷ []
unfolding Slice.main decide check_binding proof_from_outcome safety_reasons check_unverifiable
    check_executed check_invariants verdict_from_custos check_coverage offending covers bytes_le
main_lines = refl

-- Three keypairs for each environment, two for the transfer and one for the approval.
main_draws : (Slice.main toy wallet bench tools json start).1.drawn ≡ 9
unfolding Slice.main
main_draws = refl

-- Tools without the file of the token program.
abbrev incomplete : Slice.Toolkit wallet bench
incomplete = record tools { read = λ path. err "NotFound" }

incomplete_panics : Slice.main toy wallet bench incomplete json start ≡ (
  panicked "SPL Token fixture: NotFound",
  record start { stderr = panic_report "SPL Token fixture: NotFound" ∷ [] },
)
unfolding Slice.main
incomplete_panics = refl

abbrev outcome : Outcome wallet
outcome = record { pre = []; post = (true, some (watched false)) ∷ []; success = true }

decide_outcome-eq-settle_example :
    (Slice.decide_outcome toy wallet bench tools outcome
        (Slice.intent_of toy wallet bench tools false (true ∷ []))
      ≡ settle (unbound_note ∷ []))
    ↔ ((true ≡ true)
        × (rank (level_of toy wallet bench tools outcome) ≤ rank info)
        × All (Covers toy wallet bench tools outcome.post) ("alice" ∷ [])
        × (unbound_note ∷ [] ≡ unbound_note ∷ []))
decide_outcome-eq-settle_example =
    decide_outcome-eq-settle toy wallet bench tools outcome
      (Slice.intent_of toy wallet bench tools false (true ∷ [])) (unbound_note ∷ [])

bench-IsWatching : IsWatching toy wallet bench tools
bench-IsWatching = record {
  watches = λ svm tx payer watch token system k i. (
    some (watched tx),
    (In-map (λ k. (k, some (watched tx))) (k, some (watched tx)) watch).1 (k, i, refl),
  );
}

-- The environment of a run, and what it runs on.
environment :
    (w : World)
    → (env : Slice.Env toy wallet bench tools) × (next : World) × (Slice.fresh_env toy wallet bench
          tools w
        ≡ (returned env, next))
unfolding Slice.fresh_env
environment w = (_, _, refl)

abbrev payment : Benign toy wallet bench tools start
payment = record {
  env = (environment start).0;
  next = (environment start).1;
  fresh = (environment start).2;
  svm = tt;
  installed = refl;
}

abbrev approval : Drainer toy wallet bench tools start
approval = record {
  env = (environment start).0;
  next = (environment start).1;
  fresh = (environment start).2;
}

decisions_lem_example :
    ((benign_decision toy wallet bench tools payment ≡ settle (unbound_note ∷ [])) ↔ (
      ((outcome_of_benign toy wallet bench tools payment).success ≡ true)
      × (rank (level_of toy wallet bench tools (outcome_of_benign toy wallet bench tools payment))
          ≤ rank info)))
    × ((drainer_decision toy wallet bench tools approval ≡ settle (unbound_note ∷ [])) ↔ (
        ((Slice.drainer_outcome toy wallet bench tools approval.env).success ≡ true)
        × (rank (
              level_of toy wallet bench tools
                (Slice.drainer_outcome toy wallet bench tools approval.env))
            ≤ rank info)))
decisions_lem_example = decisions_lem toy wallet bench tools bench-IsWatching payment approval

main_prints_example :
    let ran = Slice.main toy wallet bench tools json start in
    ((b : Benign toy wallet bench tools start) × (d : Drainer toy wallet bench tools
        (after_benign toy wallet bench tools json b))
      × (ran ≡ (returned tt, after_drainer toy wallet bench tools json d))
      × Printed toy wallet bench tools json
          (line toy wallet bench tools json Slice.benign_name
              (benign_decision toy wallet bench tools b)
            ∷ line toy wallet bench tools json Slice.drainer_name
                (drainer_decision toy wallet bench tools d)
            ∷ [])
          start
          (after_drainer toy wallet bench tools json d))
    ⊎ ((why : String) × (w' : World) × (ran ≡ (panicked why, w'))
        × ((Reported start why w'
              × ((Slice.fresh_env toy wallet bench tools start ≡ (panicked why, w'))
                  ⊎ Uninstalled toy wallet bench tools start why))
            ⊎ ((b : Benign toy wallet bench tools start) × (Slice.fresh_env toy wallet bench tools
                    (after_benign toy wallet bench tools json b)
                  ≡ (panicked why, w'))
                × PrintedThenReported toy wallet bench tools json
                    (line toy wallet bench tools json Slice.benign_name
                        (benign_decision toy wallet bench tools b)
                      ∷ [])
                    start
                    why
                    w')))
main_prints_example = main_prints toy wallet bench tools json start
