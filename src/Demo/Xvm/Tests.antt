-- ===== src/Demo/Xvm/Tests.antt =====
-- src/bin/xvm_demo.rs on samples, and the theorems at concrete inputs.
use liquet.Common.{ℕ, zero, suc, ◌≤◌, ◌≡◌, refl, ◌↔◌, ◌⊎◌, String, ◌<>◌, true, false}
use liquet.Common.{length, [], ◌∷◌, ok, err, arith, some, none}
use liquet.Seam.{rank, info, green, red, InvariantVerdict, green_verdict}
use liquet.Decide.{LiquetDecision, settle, hold, is_settle}
use liquet.Adapters.XvmCustos.{SvmReconstruction, invariant_from_svm_leg}
use liquet.Sample.Wallet.{wallet}
use liquet.Sample.Simulator.{guarded, simulator, transfer_of}
use liquet.Common.{eq_iff}
use liquet.Common.Decimal.{to_string}
use liquet.Adapters.Probatio.{crossvm_from_receipt}
use liquet.Adapters.Probatio.Specs.{Claim, SvmTransferSpec}
use liquet.Adapters.Custos.{Level, verdict_from_custos}
use liquet.Demo.Program.{panic_report, World, returned, panicked, panic, unexpected}
use liquet.Sample.Faithful.{simulator-IsFaithful}
use liquet.Demo.Xvm
use liquet.Demo.Xvm.{Formats}
use liquet.Erc8004.Validator.Pipeline.{ProducerError}
use liquet.Demo.Xvm.Held.{story_held, decided}
use liquet.Demo.Xvm.Laws.{Reports, told, lines_of, run-cases}
use liquet.Demo.Xvm.Scenario.{Scenario}
use liquet.Demo.Xvm.Story.{Story, ending, main_story, holds_up}

abbrev start : World
start = record { drawn = 0; stdout = []; stderr = [] }

abbrev json : LiquetDecision → String
json (settle caveats) = "settle"
json (hold reasons) = "hold"

abbrev formats : Formats
formats = record { decision_json = json; debug_string = λ s. "\"" <> (s <> "\"") }

main_returns : (Xvm.main wallet guarded simulator true formats (λ n. n) start).0 ≡ returned tt
unfolding Xvm.main Xvm.svm_spec Xvm.evm_spec Xvm.claim invariant_from_svm_leg crossvm_from_receipt
    to_string
main_returns = refl

main_lines : length (Xvm.main wallet guarded simulator true formats (λ n. n) start).1.stdout ≡ 24
unfolding Xvm.main Xvm.svm_spec Xvm.evm_spec Xvm.claim invariant_from_svm_leg crossvm_from_receipt
    to_string
main_lines = refl

-- A replay in which the transfer fails.
abbrev failing : SvmReconstruction wallet guarded
failing =
    let sound = transfer_of (Xvm.svm_spec wallet guarded simulator 0 1 25) none in
    record sound { transaction = record sound.transaction { success = false } }

failing_panics :
    Xvm.run wallet guarded simulator true formats "benign" "released"
      (Xvm.evm_spec wallet guarded simulator 25)
      failing
      (Xvm.claim wallet guarded simulator 0 1)
      start
    ≡ (
      panicked "Custos replay of SVM delivery leg: \"Custos replay transaction failed\"",
      record start {
        stderr =
            panic_report "Custos replay of SVM delivery leg: \"Custos replay transaction failed\""
            ∷ [];
      },
    )
unfolding Xvm.run Xvm.svm_spec Xvm.evm_spec Xvm.claim invariant_from_svm_leg
failing_panics = refl

abbrev deal : Claim
deal = Xvm.claim wallet guarded simulator 0 1

abbrev spec : ℕ → ℕ → SvmTransferSpec ℕ (Unit {0})
spec = Xvm.svm_spec wallet guarded simulator 0

run-cases_example :
    let evm = Xvm.evm_spec wallet guarded simulator Xvm.demo_amount in
    let svm = transfer_of (spec 1 Xvm.demo_amount) none in
    let ran =
      Xvm.run wallet guarded simulator true formats "benign" "released" evm svm deal start in
    ((r : Reports wallet guarded simulator true formats evm svm) × (ran ≡ (
      returned tt,
      told wallet guarded
          (lines_of wallet guarded simulator true formats
            (record { name = "benign"; gloss = "released" })
            deal
            r)
          start,
    )))
    ⊎ (((e : ProducerError) × (simulator.reconstruct_evm_leg evm ≡ err e)
          × (ran ≡ panic (unexpected "evm leg" e.debug) start))
        ⊎ ((e : String) × (true ≡ true)
            × (invariant_from_svm_leg wallet guarded svm ≡ err e)
            × (ran
                ≡ panic
                    (unexpected "Custos replay of SVM delivery leg" (formats.debug_string e))
                    start)))
run-cases_example =
    run-cases wallet guarded simulator true formats (record { name = "benign"; gloss = "released" })
      (Xvm.evm_spec wallet guarded simulator Xvm.demo_amount)
      (transfer_of (spec 1 Xvm.demo_amount) none) deal start

main_story_example :
    let ran = Xvm.main wallet guarded simulator true formats (λ n. n) start in
    ((s : Story wallet guarded simulator true formats 0 1 2) × (ran
        ≡ ending wallet guarded simulator true formats 0 1 2 s (record start { drawn = 3 })))
    ⊎ ((message : String) × (w' : World) × (ran ≡ (panicked message, w'))
        × ¬ Story wallet guarded simulator true formats 0 1 2)
main_story_example = main_story wallet guarded simulator true formats (λ n. n) start

-- A settlement of the simulator, with the verdict that its screen gives.
abbrev scenario :
    (svm : SvmReconstruction wallet guarded) (v : InvariantVerdict)
    → invariant_from_svm_leg wallet guarded svm ≡ ok v
    → Scenario wallet guarded simulator true formats
        (Xvm.evm_spec wallet guarded simulator Xvm.demo_amount)
        (ok svm)
scenario svm v h = record {
  svm_leg = svm;
  delivered = refl;
  report = record { evm_leg = _; invariant = v; executed = refl; screened = h };
}

screened_clean :
    (owner amount : ℕ)
    → invariant_from_svm_leg wallet guarded (transfer_of (spec owner amount) none)
      ≡ ok green_verdict
unfolding invariant_from_svm_leg Xvm.svm_spec verdict_from_custos
screened_clean owner zero = refl
screened_clean owner (suc amount) = ground arith

abbrev grave_verdict : InvariantVerdict
grave_verdict = record { level = red; findings = [] }

screened_approval :
    invariant_from_svm_leg wallet guarded (transfer_of (spec 1 25) (some 2)) ≡ ok grave_verdict
unfolding invariant_from_svm_leg Xvm.svm_spec verdict_from_custos
screened_approval = refl

-- The approval is seen on the accounts that the producer exposes, and not where none is watched.
unwatched_unseen :
    (guarded.evaluate
      (guarded.capture tt (transfer_of (spec 1 25) (some 2)).transaction true [] true true).0
      tt).level
    ≡ Level.green
unwatched_unseen = refl

abbrev tale : Story wallet guarded simulator true formats 0 1 2
tale = record {
  benign = scenario (transfer_of (spec 1 25) none) green_verdict (screened_clean 1 25);
  misdelivery = scenario (transfer_of (spec 2 25) none) green_verdict (screened_clean 2 25);
  half_open = scenario (transfer_of (spec 1 0) none) green_verdict (screened_clean 1 0);
  backdoor = scenario (transfer_of (spec 1 25) (some 2)) grave_verdict screened_approval;
}

story_held_example :
    (is_settle (decided wallet guarded simulator true formats deal tale.misdelivery) ≡ false)
    × (is_settle (decided wallet guarded simulator true formats deal tale.half_open) ≡ false)
    × (is_settle (decided wallet guarded simulator true formats deal tale.backdoor) ≡ false)
    × ((is_settle (decided wallet guarded simulator true formats deal tale.benign) ≡ true) ↔ (
        (holds_up wallet guarded simulator true formats 0 1 2 tale ≡ true)
        × (rank green ≤ rank info)))
unfolding to_string
story_held_example =
    story_held wallet guarded simulator true formats simulator-IsFaithful 0 1 2
      (λ h. cc ((eq_iff "1" "2").1 h)) tale
