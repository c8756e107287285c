-- ===== src/Demo/Xvm/Story.antt =====
-- src/bin/xvm_demo.rs, `main`: the settlements that it reports, in their order, and its end.
use liquet.Common.{ℕ, suc, ◌≡◌, refl, ap, ◌∙◌, ◌⊎◌, inl, inr, String, Bool, true, false}
use liquet.Common.{List, [], ◌∷◌, ◌++◌, Bool-cases, if◌then◌else◌}
use mathlib.Core.List.{append_assoc, append-nil}
use liquet.Adapters.Probatio.Specs.{EvmPaySpec, Claim}
use liquet.Adapters.Custos.{Keys}
use liquet.Adapters.XvmCustos.{Engine}
use liquet.Erc8004.Validator.Pipeline.{Producer}
use liquet.Demo.Program.{
  warning, panic, reported, World, Ended, returned, panicked, exited, Program, ◌>>=◌,
}
use liquet.Demo.Xvm
use liquet.Demo.Xvm.{Formats}
use liquet.Demo.Xvm.Scenario.{Delivery, Scenario, scenario_lines, settlement-cases}
use liquet.Demo.Xvm.Laws.{told, cross_of}

module _ (keys : Keys) (engine : Engine keys) (producer : Producer keys engine) (wire_xvm : Bool)
    (formats : Formats) where
  module _ (mint recipient attacker : engine.Address) where
    abbrev pub paid : EvmPaySpec producer.BindingMode
    paid = Xvm.evm_spec keys engine producer Xvm.demo_amount

    abbrev pub deal : Claim
    deal = Xvm.claim keys engine producer mint recipient

    abbrev pub delivery_to : engine.Address → ℕ → Delivery keys engine producer wire_xvm formats
    delivery_to owner amount =
        producer.reconstruct_svm_leg (Xvm.svm_spec keys engine producer mint owner amount)

    abbrev pub backdoored_delivery : Delivery keys engine producer wire_xvm formats
    backdoored_delivery =
        producer.reconstruct_svm_leg_with_malice
          (Xvm.svm_spec keys engine producer mint recipient Xvm.demo_amount)
          (producer.approve_unlimited attacker)

    -- The last settlement is there with the feature alone.
    abbrev pub Backdoor : Bool → Type 0
    Backdoor true = Scenario keys engine producer wire_xvm formats paid backdoored_delivery
    Backdoor false = Unit {0}

    pub record Story : Type 0 where
      pub benign :
          Scenario keys engine producer wire_xvm formats paid
            (delivery_to recipient Xvm.demo_amount)
      pub misdelivery :
          Scenario keys engine producer wire_xvm formats paid (delivery_to attacker Xvm.demo_amount)
      pub half_open : Scenario keys engine producer wire_xvm formats paid (delivery_to recipient 0)
      pub backdoor : Backdoor wire_xvm

    abbrev backdoor_lines : (wired : Bool) → Backdoor wired → List String
    backdoor_lines true s =
        scenario_lines keys engine producer wire_xvm formats Xvm.backdoored_title deal s
    backdoor_lines false s = []

    abbrev pub story_lines : Story → List String
    story_lines s =
        scenario_lines keys engine producer wire_xvm formats Xvm.benign_title deal s.benign
        ++ (scenario_lines keys engine producer wire_xvm formats Xvm.misdelivery_title deal
              s.misdelivery
            ++ (scenario_lines keys engine producer wire_xvm formats Xvm.half_open_title deal
                  s.half_open
                ++ backdoor_lines wire_xvm s.backdoor))

    -- Whether the benign settlement reconciles as matched.
    abbrev pub holds_up : Story → Bool
    holds_up s =
        Xvm.is_matched
          (cross_of keys engine producer s.benign.report.evm_leg s.benign.svm_leg deal).reconcile

    told-told :
        (a b c d : List String) (w : World)
        → told keys engine d (told keys engine c (told keys engine b (told keys engine a w)))
          ≡ told keys engine (a ++ (b ++ (c ++ d))) w
    told-told a b c d w = simp append_assoc

    sanity_lem :
        (s : Story) (w : World)
        → Xvm.sanity keys engine producer wire_xvm formats mint recipient w ≡ (
            if holds_up s
            then (returned tt, w)
            else (exited 1, record w { stderr = w.stderr ++ warning Xvm.not_matched ∷ [] }))
    unfolding Xvm.sanity
    sanity_lem s w =
        rw (s.benign.report.executed, s.benign.delivered)
          (elim (Bool-cases (holds_up s)) [ inl good ↦ rw good refl | inr bad ↦ rw bad refl ])

    Backdoor-cases :
        (wired : Bool) (w : World)
        → let stage =
            (if wired
              then Xvm.backdoored keys engine producer wire_xvm formats mint recipient attacker
              else Xvm.pure tt) in
          ((s : Backdoor wired) × (stage w
              ≡ (returned tt, told keys engine (backdoor_lines wired s) w)))
          ⊎ ((message : String) × (stage w ≡ panic message w) × ¬ Backdoor wired)
    Backdoor-cases true w =
        settlement-cases keys engine producer wire_xvm formats "malicious svm leg"
          backdoored_delivery Xvm.backdoored_title paid deal w
    Backdoor-cases false w = inl (tt, simp append-nil)

    -- The world of the end, and the end, of a story.
    abbrev pub ending : Story → World → Ended (Unit {0}) × World
    ending s w =
        let last = told keys engine (story_lines s) w in
        if holds_up s
        then (returned tt, last)
        else (exited 1, record last { stderr = last.stderr ++ warning Xvm.not_matched ∷ [] })

    -- All after the three addresses are drawn.
    abbrev settlements : Program (Unit {0})
    settlements = Xvm.benign keys engine producer wire_xvm formats mint recipient >>= λ _.
        Xvm.mis_delivery keys engine producer wire_xvm formats mint recipient attacker >>= λ _.
        Xvm.half_open keys engine producer wire_xvm formats mint recipient >>= λ _.
        (if wire_xvm
          then Xvm.backdoored keys engine producer wire_xvm formats mint recipient attacker
          else Xvm.pure tt)
        >>= λ _. Xvm.sanity keys engine producer wire_xvm formats mint recipient

    settlements-cases :
        (w : World)
        → ((s : Story) × (settlements w ≡ ending s w))
          ⊎ ((message : String) × (w' : World) × (settlements w ≡ (panicked message, w')) × ¬ Story)
    settlements-cases w =
        elim (settlement-cases keys engine producer wire_xvm formats "svm delivery leg"
          (delivery_to recipient Xvm.demo_amount) Xvm.benign_title paid deal w) [
            | inr (m, h, never) ↦ inr (m, reported m w, rw h refl, λ s. never s.benign)
            | inl (b, h) ↦
                let w₁ =
                  told keys engine
                    (scenario_lines keys engine producer wire_xvm formats Xvm.benign_title deal b)
                    w in
                elim (settlement-cases keys engine producer wire_xvm formats "svm delivery leg"
                  (delivery_to attacker Xvm.demo_amount) Xvm.misdelivery_title paid deal w₁) [
                    | inr (m, k, never) ↦
                        inr (m, reported m w₁, rw (h, k) refl, λ s. never s.misdelivery)
                    | inl (d, k) ↦
                        let w₂ =
                          told keys engine
                            (scenario_lines keys engine producer wire_xvm formats
                              Xvm.misdelivery_title deal d)
                            w₁ in
                        elim (settlement-cases keys engine producer wire_xvm formats
                          "svm delivery leg" (delivery_to recipient 0) Xvm.half_open_title paid deal
                          w₂) [
                            | inr (m, i, never) ↦
                                inr (m, reported m w₂, rw (h, k, i) refl, λ s. never s.half_open)
                            | inl (o, i) ↦
                                let w₃ =
                                  told keys engine
                                    (scenario_lines keys engine producer wire_xvm formats
                                      Xvm.half_open_title deal o)
                                    w₂ in
                                elim (Backdoor-cases wire_xvm w₃) [
                                  | inr (m, j, never) ↦ inr (
                                    m,
                                    reported m w₃,
                                    rw (h, k, i, j) refl,
                                    λ s. never s.backdoor,
                                  )
                                  | inl (x, j) ↦
                                      let s : Story = record {
                                        benign = b;
                                        misdelivery = d;
                                        half_open = o;
                                        backdoor = x;
                                      } in
                                      inl (
                                        s,
                                        rw (h, k, i, j)
                                            (ap
                                                (Xvm.sanity keys engine producer wire_xvm formats
                                                  mint recipient)
                                                (told-told _ _ _ _ w)
                                              ∙ sanity_lem s (told keys engine (story_lines s) w)),
                                      )
                                ]
                          ]
                  ]
          ]

  -- The demo either draws three addresses, prints its settlements in order, and returns if the benign
  -- one reconciles as matched or else warns on the error output and exits with code 1; or it panics,
  -- which it does only when a leg does not reconstruct or a replay fails.
  pub main_story :
      (new_unique : ℕ → engine.Address) (w : World)
      → let mint = new_unique w.drawn in
        let recipient = new_unique (suc w.drawn) in
        let attacker = new_unique (suc (suc w.drawn)) in
        let ran = Xvm.main keys engine producer wire_xvm formats new_unique w in
        ((s : Story mint recipient attacker) × (ran
            ≡ ending mint recipient attacker s (record w { drawn = suc (suc (suc w.drawn)) })))
        ⊎ ((message : String) × (w' : World) × (ran ≡ (panicked message, w'))
            × ¬ Story mint recipient attacker)
  unfolding Xvm.main
  main_story new_unique w =
      settlements-cases (new_unique w.drawn) (new_unique (suc w.drawn))
        (new_unique (suc (suc w.drawn))) (record w { drawn = suc (suc (suc w.drawn)) })
