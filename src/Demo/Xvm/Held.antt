-- ===== src/Demo/Xvm/Held.antt =====
-- src/bin/xvm_demo.rs: the settlements that the demo holds, as what it says of the producer and of the
-- engine implies it.
use liquet.Common.{ℕ, ◌≤◌, ◌<◌, ◌≡◌, ◌≢◌, refl, sym, subst, ◌↔◌, Bool, true, false}
use liquet.Common.{Result, ok, false_of_not, arith}
use liquet.Seam.{ReconcileVerdict, rank, info}
use liquet.Decide.{LiquetDecision, is_settle, decide_crossvm, default_policy}
use liquet.Erc8004.Response.{settles_iff}
use liquet.Adapters.Probatio.Specs.{EvmPaySpec, SvmTransferSpec, Claim}
use liquet.Adapters.Custos.{Keys}
use liquet.Adapters.XvmCustos.{Engine, SvmReconstruction, invariant_from_svm_leg}
use liquet.Erc8004.Validator.Pipeline.{ProducerError, Producer}
use liquet.Erc8004.Validator.Pipeline.Laws.{crossvm_matched}
use liquet.Erc8004.Validator.Pipeline.Faithful.{IsFaithful, same_some, approval_caught}
use liquet.Demo.Xvm
use liquet.Demo.Xvm.{Formats}
use liquet.Demo.Xvm.Laws.{cross_of, ScreenedBy}
use liquet.Demo.Xvm.Scenario.{Scenario}
use liquet.Demo.Xvm.Story.{Story, Backdoor, deal, delivery_to, backdoored_delivery, holds_up}

is_matched_iff : (v : ReconcileVerdict) → (Xvm.is_matched v ≡ true) ↔ (v ≡ ReconcileVerdict.matched)
is_matched_iff v = ground arith

module _ (keys : Keys) (engine : Engine keys) (producer : Producer keys engine) where
  module _ (wire_xvm : Bool) (formats : Formats) where
    -- The decision that the report of a settlement prints.
    abbrev pub decided :
        {evm : EvmPaySpec producer.BindingMode}
        {delivery : Result (SvmReconstruction keys engine) ProducerError}
        → Claim
        → Scenario keys engine producer wire_xvm formats evm delivery
        → LiquetDecision
    decided claim s =
        decide_crossvm (cross_of keys engine producer s.report.evm_leg s.svm_leg claim)
          s.report.invariant default_policy

    module _ (docs : IsFaithful keys engine producer) where
      -- A settled delivery was executed, to the claimed recipient.
      settled :
          {evm : EvmPaySpec producer.BindingMode}
          (spec : SvmTransferSpec engine.Address producer.MemoMode) (claim : Claim)
          (s : Scenario keys engine producer wire_xvm formats evm
            (producer.reconstruct_svm_leg spec))
          → is_settle (decided claim s) ≡ true
          → (0 < spec.amount) × (engine.display_address spec.recipient_owner ≡ claim.good.recipient)
      settled spec claim s h =
          let matched = (settles_iff _ s.report.invariant default_policy).0 h in
          let verdict = (crossvm_matched _ s.report.evm_leg.leg s.svm_leg.leg).0 matched.0 in
          let (paid_for, executed, claimed) =
            docs.reconciles s.report.evm_leg.leg s.svm_leg.leg claim verdict in
          let (moved, recovered) = docs.recovers spec s.svm_leg s.delivered executed in
          (moved, same_some recovered claimed)

      -- What the settlement with the hidden approval is decided, where it is there.
      abbrev pub BackdoorHeld :
          (mint recipient attacker : engine.Address) (wired : Bool)
          → Backdoor keys engine producer wire_xvm formats mint recipient attacker wired
          → Type 0
      BackdoorHeld mint recipient attacker true s =
          is_settle (decided (deal keys engine producer wire_xvm formats mint recipient attacker) s)
          ≡ false
      BackdoorHeld mint recipient attacker false s = Unit {0}

      module _ (mint recipient attacker : engine.Address) where
        settled_to :
            {evm : EvmPaySpec producer.BindingMode} (owner : engine.Address) (amount : ℕ)
            (s : Scenario keys engine producer wire_xvm formats evm (
              delivery_to keys engine producer wire_xvm formats mint recipient attacker owner
                amount))
            → is_settle
                (decided (deal keys engine producer wire_xvm formats mint recipient attacker) s)
              ≡ true
            → (0 < amount) × (engine.display_address owner ≡ engine.display_address recipient)
        unfolding Xvm.svm_spec Xvm.claim
        settled_to owner amount s h = settled _ _ s h

        -- A verdict that is from a replay of an unlimited approval is above the threshold.
        caught :
            {evm : EvmPaySpec producer.BindingMode}
            (s : Scenario keys engine producer wire_xvm formats evm
              (backdoored_delivery keys engine producer wire_xvm formats mint recipient attacker))
            → true ≡ wire_xvm
            → rank info < rank s.report.invariant.level
        caught s wired =
            let screened : invariant_from_svm_leg keys engine s.svm_leg ≡ ok s.report.invariant =
              subst (λ b. ScreenedBy keys engine b s.svm_leg s.report.invariant) (sym wired)
                s.report.screened in
            approval_caught keys engine producer docs _ attacker s.svm_leg s.report.invariant
              s.delivered screened

        backdoor_held :
            (wired : Bool)
            → wired ≡ wire_xvm
            → (s : Backdoor keys engine producer wire_xvm formats mint recipient attacker wired)
            → BackdoorHeld mint recipient attacker wired s
        backdoor_held true h s = false_of_not _ (λ settles.
            let low = ((settles_iff _ s.report.invariant default_policy).0 settles).1 in
            omega (arith, low, caught s h))
        backdoor_held false h s = tt

        -- Where the addresses print differently and the crates do what the demo says of them: the
        -- settlement that was delivered to the attacker and the one that was not delivered are held,
        -- and so is the one with the hidden approval, where the screen is wired; the benign one
        -- settles exactly when it reconciles as matched, which is what the demo checks at its end, and
        -- the level of its screen is at most info.
        pub story_held :
            engine.display_address recipient ≢ engine.display_address attacker
            → (s : Story keys engine producer wire_xvm formats mint recipient attacker)
            → let claim = deal keys engine producer wire_xvm formats mint recipient attacker in
              (is_settle (decided claim s.misdelivery) ≡ false)
              × (is_settle (decided claim s.half_open) ≡ false)
              × BackdoorHeld mint recipient attacker wire_xvm s.backdoor
              × ((is_settle (decided claim s.benign) ≡ true) ↔ (
                  (holds_up keys engine producer wire_xvm formats mint recipient attacker s ≡ true)
                  × (rank s.benign.report.invariant.level ≤ rank info)))
        story_held differ s =
            let cross =
              cross_of keys engine producer s.benign.report.evm_leg s.benign.svm_leg
                (deal keys engine producer wire_xvm formats mint recipient attacker) in
            (
              false_of_not _
                  (λ h. differ (sym (settled_to attacker Xvm.demo_amount s.misdelivery h).1)),
              false_of_not _ (λ h. omega (arith, (settled_to recipient 0 s.half_open h).0)),
              backdoor_held wire_xvm refl s.backdoor,
              ground (
                arith,
                settles_iff cross s.benign.report.invariant default_policy,
                is_matched_iff cross.reconcile,
              ),
            )
