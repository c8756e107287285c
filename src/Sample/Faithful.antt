-- ===== src/Sample/Faithful.antt =====
-- The simulator does what the hypotheses on the producer say.
use liquet.Common.{
  ◌<◌, ◌≡◌, refl, ap, subst, String, true, map, Option, none, some, ok_injective, eq_iff, arith,
}
use liquet.Common.Decimal.{to_string}
use liquet.Seam.{rank, info}
use liquet.Adapters.Probatio.{XvmVerdict, ReconstructedLeg}
use liquet.Adapters.Probatio.Specs.{Claim}
use liquet.Adapters.Custos.{severity_from_level}
use liquet.Adapters.XvmCustos.{key_of}
use liquet.Erc8004.Validator.Pipeline.Faithful.{IsFaithful}
use liquet.Sample.Wallet.{wallet}
use liquet.Sample.Simulator
use liquet.Sample.Simulator.{guarded, simulator, names}

names_lem : (o : Option String) (s : String) → names o s ≡ true → o ≡ some s
names_lem none s h = cc
names_lem (some t) s h = ap some ((eq_iff t s).0 h)

verdict_lem :
    (evm svm : ReconstructedLeg) (claim : Claim)
    → Simulator.verdict_of evm svm claim ≡ XvmVerdict.matched
    → (evm.executed ≡ true) × (svm.executed ≡ true) × (svm.recipient ≡ some claim.good.recipient)
verdict_lem evm svm claim h = ground (arith, names_lem svm.recipient claim.good.recipient)

pub simulator-IsFaithful : IsFaithful wallet guarded simulator
unfolding severity_from_level
simulator-IsFaithful = record {
  recovers = λ spec svm h.
      subst
        (λ recon.
          recon.leg.executed ≡ true
          → (0 < spec.amount) × (recon.leg.recipient ≡ some (to_string spec.recipient_owner)))
        (ok_injective h) (λ x. (ground arith, refl));
  recovers_with_malice = λ spec malice svm h.
      subst
        (λ recon.
          recon.leg.executed ≡ true
          → (0 < spec.amount) × (recon.leg.recipient ≡ some (to_string spec.recipient_owner)))
        (ok_injective h) (λ x. (ground arith, refl));
  reconciles = verdict_lem;
  catches = λ spec delegate svm h r bound.
      subst
        (λ recon.
          rank info
          < rank (
              severity_from_level
                (guarded.evaluate
                  (guarded.capture tt recon.transaction true
                    (map (key_of wallet guarded) recon.watch) true true).0
                  tt).level))
        (ok_injective h) (omega arith);
}
