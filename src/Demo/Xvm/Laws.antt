-- ===== src/Demo/Xvm/Laws.antt =====
-- src/bin/xvm_demo.rs, `run` and the check at the end: what they print, and when they end.
use liquet.Common.{◌≡◌, refl, ◌⊎◌, inl, inr, String, ◌<>◌, Bool, true, false}
use liquet.Common.{List, [], ◌∷◌, ◌++◌, ok, err, Result-cases, if◌then◌else◌}
use mathlib.Core.List.{append_assoc}
use liquet.Seam.{debug_severity, CrossVmProof, InvariantVerdict, green_verdict}
use liquet.Decide.{default_policy, decide_crossvm}
use liquet.Adapters.Probatio.{crossvm_from_receipt}
use liquet.Adapters.Probatio.Specs.{EvmPaySpec, Claim}
use liquet.Adapters.Custos.{Keys}
use liquet.Adapters.XvmCustos.{Engine, SvmReconstruction, invariant_from_svm_leg}
use liquet.Erc8004.Validator.Pipeline.{ProducerError, Producer, EvmReconstruction}
use liquet.Demo.Program.{World, returned, panic, unexpected}
use liquet.Demo.Xvm.{Formats, Title, debug_reconcile, screen_leg, report, run}

module _ (keys : Keys) (engine : Engine keys) where
  -- Which verdict the screen gives: that of the replay, or the placeholder without the feature.
  abbrev pub ScreenedBy : Bool → SvmReconstruction keys engine → InvariantVerdict → Type 0
  ScreenedBy true svm v = invariant_from_svm_leg keys engine svm ≡ ok v
  ScreenedBy false svm v = v ≡ green_verdict

  abbrev pub report_lines : Bool → Formats → Title → CrossVmProof → InvariantVerdict → List String
  report_lines wire_xvm formats title cross v =
      ("── " <> title.name)
      ∷ ("   reconcile : " <> debug_reconcile cross.reconcile)
      ∷ ((if wire_xvm
            then ("   custos    : " <> (debug_severity v.level <> " (real replay)")) ∷ []
            else [])
          ++ (("   decision  : " <> formats.decision_json (decide_crossvm cross v default_policy))
              ∷ ("   " <> title.gloss)
              ∷ ""
              ∷ []))

  -- The world in which more lines were printed.
  abbrev pub told : List String → World → World
  told lines w = record w { stdout = w.stdout ++ lines }

  module _ (producer : Producer keys engine) where
    abbrev pub cross_of : EvmReconstruction → SvmReconstruction keys engine → Claim → CrossVmProof
    cross_of evm_leg svm_leg claim =
        crossvm_from_receipt (producer.reconcile evm_leg.leg svm_leg.leg claim) evm_leg.leg
          svm_leg.leg

    report_lem :
        (wire_xvm : Bool) (formats : Formats) (title : Title) (cross : CrossVmProof)
        (v : InvariantVerdict) (w : World)
        → report keys engine producer wire_xvm formats title.name title.gloss cross v w
          ≡ (returned tt, told (report_lines wire_xvm formats title cross v) w)
    report_lem true json title cross v w = simp append_assoc
    report_lem false json title cross v w = simp append_assoc

    screen_leg-cases :
        (wire_xvm : Bool) (json : Formats) (svm : SvmReconstruction keys engine) (w : World)
        → ((v : InvariantVerdict) × (ScreenedBy wire_xvm svm v)
            × (screen_leg keys engine producer wire_xvm json svm w ≡ (returned v, w)))
          ⊎ ((e : String) × (wire_xvm ≡ true)
              × (invariant_from_svm_leg keys engine svm ≡ err e)
              × (screen_leg keys engine producer wire_xvm json svm w
                  ≡ panic (unexpected "Custos replay of SVM delivery leg" (json.debug_string e)) w))
    screen_leg-cases true json svm w =
        elim (Result-cases (invariant_from_svm_leg keys engine svm)) [
          | inl (v, h) ↦ inl (v, h, rw h refl)
          | inr (e, h) ↦ inr (e, refl, h, rw h refl)
        ]
    screen_leg-cases false json svm w = inl (green_verdict, refl, refl)

    module _ (wire_xvm : Bool) (formats : Formats) where
      -- What a report is made of: the pay leg that is reconciled, and the verdict of the screen.
      pub record Reports (evm : EvmPaySpec producer.BindingMode)
          (svm_leg : SvmReconstruction keys engine) : Type 0 where
        pub evm_leg : EvmReconstruction
        pub invariant : InvariantVerdict
        pub executed : producer.reconstruct_evm_leg evm ≡ ok evm_leg
        pub screened : ScreenedBy wire_xvm svm_leg invariant

      abbrev pub lines_of :
          {evm : EvmPaySpec producer.BindingMode} {svm_leg : SvmReconstruction keys engine}
          → Title
          → Claim
          → Reports evm svm_leg
          → List String
      lines_of {evm} {svm_leg} title claim r =
          report_lines wire_xvm formats title (cross_of r.evm_leg svm_leg claim) r.invariant

      -- One settlement of the demo either prints its report, over the cross-VM proof of the pay leg and
      -- the delivery leg and the verdict of the screen, and returns; or the pay leg does not
      -- reconstruct, or the screen is wired and the replay fails, and it panics, with a message that
      -- names the step and ends in what `Debug` prints of the error, before anything else is printed.
      pub run-cases :
          (title : Title) (evm : EvmPaySpec producer.BindingMode)
          (svm_leg : SvmReconstruction keys engine) (claim : Claim) (w : World)
          → let ran =
              run keys engine producer wire_xvm formats title.name title.gloss evm svm_leg claim
                w in
            ((r : Reports evm svm_leg) × (ran ≡ (returned tt, told (lines_of title claim r) w)))
            ⊎ (((e : ProducerError) × (producer.reconstruct_evm_leg evm ≡ err e)
                  × (ran ≡ panic (unexpected "evm leg" e.debug) w))
                ⊎ ((e : String) × (wire_xvm ≡ true)
                    × (invariant_from_svm_leg keys engine svm_leg ≡ err e)
                    × (ran
                        ≡ panic
                            (unexpected "Custos replay of SVM delivery leg"
                              (formats.debug_string e))
                            w)))
      unfolding run
      run-cases title evm svm_leg claim w = elim (Result-cases (producer.reconstruct_evm_leg evm)) [
        | inl (leg, h) ↦ elim (screen_leg-cases wire_xvm formats svm_leg w) [
          | inl (v, s, k) ↦ inl (
            record { evm_leg = leg; invariant = v; executed = h; screened = s },
            rw (h, k) (report_lem wire_xvm formats title (cross_of leg svm_leg claim) v w),
          )
          | inr (e, wired, s, k) ↦ inr (inr (e, wired, s, rw (h, k) refl))
        ]
        | inr (e, h) ↦ inr (inl (e, h, rw h refl))
      ]
