-- ===== src/Demo/Xvm/Scenario.antt =====
-- src/bin/xvm_demo.rs, one settlement of `main`: its delivery leg is reconstructed, and it is run.
use liquet.Common.{◌≡◌, refl, ap, ◌∙◌, sym, subst, ◌⊎◌, inl, inr, String, Bool, true}
use liquet.Common.{List, Result, ok, err, map_err, ok_injective, Result-cases}
use liquet.Adapters.Probatio.Specs.{EvmPaySpec, Claim}
use liquet.Adapters.Custos.{Keys}
use liquet.Adapters.XvmCustos.{Engine, SvmReconstruction, invariant_from_svm_leg}
use liquet.Erc8004.Validator.Pipeline.{ProducerError, Producer}
use liquet.Demo.Program.{World, returned, panic, unexpected, Program, expect, ◌>>=◌}
use liquet.Demo.Xvm
use liquet.Demo.Xvm.{Formats, Title}
use liquet.Demo.Xvm.Laws.{Reports, lines_of, told, run-cases, ScreenedBy}

module _ (keys : Keys) (engine : Engine keys) (producer : Producer keys engine) (wire_xvm : Bool)
    (formats : Formats) where
  abbrev pub Delivery : Type 0
  Delivery = Result (SvmReconstruction keys engine) ProducerError

  -- A settlement whose delivery leg reconstructs, and which is reported.
  pub record Scenario (evm : EvmPaySpec producer.BindingMode) (delivery : Delivery) : Type 0 where
    pub svm_leg : SvmReconstruction keys engine
    pub delivered : delivery ≡ ok svm_leg
    pub report : Reports keys engine producer wire_xvm formats evm svm_leg

  abbrev pub settlement :
      String → Delivery → Title → EvmPaySpec producer.BindingMode → Claim → Program (Unit {0})
  settlement why delivery title evm claim = expect why (map_err Xvm.debug_of delivery) >>= λ svm.
      Xvm.run keys engine producer wire_xvm formats title.name title.gloss evm svm claim

  abbrev pub scenario_lines :
      {evm : EvmPaySpec producer.BindingMode} {delivery : Delivery}
      → Title
      → Claim
      → Scenario evm delivery
      → List String
  scenario_lines title claim s = lines_of keys engine producer wire_xvm formats title claim s.report

  unscreened :
      {evm : EvmPaySpec producer.BindingMode} (delivery : Delivery)
      {svm : SvmReconstruction keys engine} {e : String}
      → delivery ≡ ok svm
      → wire_xvm ≡ true
      → invariant_from_svm_leg keys engine svm ≡ err e
      → ¬ Scenario evm delivery
  unscreened delivery {svm} h wired bad s =
      let same : s.svm_leg ≡ svm = ok_injective (sym s.delivered ∙ h) in
      let screened : ScreenedBy keys engine true s.svm_leg s.report.invariant =
        subst (λ b. ScreenedBy keys engine b s.svm_leg s.report.invariant) wired
          s.report.screened in
      cc (ap (invariant_from_svm_leg keys engine) same, screened, bad)

  pub settlement-cases :
      (why : String) (delivery : Delivery) (title : Title) (evm : EvmPaySpec producer.BindingMode)
      (claim : Claim) (w : World)
      → ((s : Scenario evm delivery) × (settlement why delivery title evm claim w
            ≡ (returned tt, told keys engine (scenario_lines title claim s) w)))
        ⊎ ((message : String) × (settlement why delivery title evm claim w ≡ panic message w)
            × ¬ Scenario evm delivery)
  settlement-cases why delivery title evm claim w = elim (Result-cases delivery) [
    | inr (e, h) ↦ inr (unexpected why e.debug, rw h refl, λ s. cc (h, s.delivered))
    | inl (svm, h) ↦ elim (run-cases keys engine producer wire_xvm formats title evm svm claim w) [
      | inl (r, k) ↦ inl (record { svm_leg = svm; delivered = h; report = r }, rw h k)
      | inr (inl (e, g, k)) ↦
          inr (unexpected "evm leg" e.debug, rw h k, λ s. cc (g, s.report.executed))
      | inr (inr (e, wired, g, k)) ↦ inr (
        unexpected "Custos replay of SVM delivery leg" (formats.debug_string e),
        rw h k,
        unscreened delivery h wired g,
      )
    ]
  ]
