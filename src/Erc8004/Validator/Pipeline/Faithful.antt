-- ===== src/Erc8004/Validator/Pipeline/Faithful.antt =====
-- src/bin/xvm_demo.rs and src/erc8004/liquet_validator.rs: what they say of probatio_xvm and of
-- custos_engine, as hypotheses.
use liquet.Common.{◌<◌, ◌≡◌, Option, some, ok, true, arith, subst, sym}
use liquet.Seam.{rank, info, InvariantVerdict}
use liquet.Adapters.Probatio.{XvmVerdict, ReconstructedLeg}
use liquet.Adapters.Probatio.Specs.{SvmTransferSpec, Claim}
use liquet.Adapters.Custos.{Keys, severity_from_level, verdict_from_custos}
use liquet.Adapters.XvmCustos.{Engine, SvmReconstruction, invariant_from_svm_leg}
use liquet.Adapters.XvmCustos.Laws.{IsBoundTo}
use liquet.Adapters.XvmCustos.Replay.{Replay, outcome_of, invariant_from_svm_leg-eq-ok}
use liquet.Erc8004.Validator.Pipeline.{Producer}

pub same_some : {A : Type 0} {o : Option A} {a b : A} → o ≡ some a → o ≡ some b → a ≡ b
same_some h k = ground arith

module _ (keys : Keys) (engine : Engine keys) (producer : Producer keys engine) where
  -- What src/bin/xvm_demo.rs says of the crates: a delivery of nothing is not executed, an executed one
  -- recovers its recipient, whatever else the transaction does; legs match only if both executed, and
  -- the recipient is the claimed one; and for a delivery with an unlimited approval, the replay of it
  -- on the prestate, payer and watch list that the producer exposes for it, bound to the leg, is
  -- evaluated above info. Nothing is said of other replays, such as one that watches other accounts.
  pub record IsFaithful : Type 0 where
    pub recovers :
        (spec : SvmTransferSpec engine.Address producer.MemoMode)
        (svm : SvmReconstruction keys engine)
        → producer.reconstruct_svm_leg spec ≡ ok svm
        → svm.leg.executed ≡ true
        → (0 < spec.amount)
          × (svm.leg.recipient ≡ some (engine.display_address spec.recipient_owner))
    pub recovers_with_malice :
        (spec : SvmTransferSpec engine.Address producer.MemoMode) (malice : producer.SvmMalice)
        (svm : SvmReconstruction keys engine)
        → producer.reconstruct_svm_leg_with_malice spec malice ≡ ok svm
        → svm.leg.executed ≡ true
        → (0 < spec.amount)
          × (svm.leg.recipient ≡ some (engine.display_address spec.recipient_owner))
    pub reconciles :
        (evm svm : ReconstructedLeg) (claim : Claim)
        → (producer.reconcile evm svm claim).verdict ≡ XvmVerdict.matched
        → (evm.executed ≡ true)
          × (svm.executed ≡ true)
          × (svm.recipient ≡ some claim.good.recipient)
    pub catches :
        (spec : SvmTransferSpec engine.Address producer.MemoMode) (delegate : engine.Address)
        (svm : SvmReconstruction keys engine)
        → producer.reconstruct_svm_leg_with_malice spec (producer.approve_unlimited delegate)
          ≡ ok svm
        → (r : Replay keys engine svm)
        → let outcome = outcome_of keys engine r in
          IsBoundTo keys engine svm outcome
          → rank info
            < rank (severity_from_level (engine.evaluate outcome engine.default_bank).level)

  -- A screen of an unlimited approval that gives a verdict gives one above info.
  pub approval_caught :
      IsFaithful
      → (spec : SvmTransferSpec engine.Address producer.MemoMode) (delegate : engine.Address)
        (svm : SvmReconstruction keys engine) (v : InvariantVerdict)
      → producer.reconstruct_svm_leg_with_malice spec (producer.approve_unlimited delegate) ≡ ok svm
      → invariant_from_svm_leg keys engine svm ≡ ok v
      → rank info < rank v.level
  unfolding verdict_from_custos
  approval_caught docs spec delegate svm v delivered screened =
      let (r, bound, made) = (invariant_from_svm_leg-eq-ok keys engine svm v).0 screened in
      let above = docs.catches spec delegate svm delivered r bound in
      subst (λ x. rank info < rank x.level) (sym made) above
