-- ===== src/Erc8004/Validator/Pipeline/Delivers.antt =====
-- src/erc8004/liquet_validator.rs, end to end: what a passing response says of the delivery.
use liquet.Common.{◌-◌, ◌<◌, ◌≤◌, ◌≡◌, ◌≢◌, refl, subst, String, ok, arith}
use liquet.Seam.{rank, info}
use liquet.Attest.Crates.{Crates, IsDocumented}
use liquet.Adapters.Custos.{Keys}
use liquet.Adapters.XvmCustos.{Engine}
use liquet.Adapters.XvmCustos.Laws.{IsBoundTo}
use liquet.Adapters.XvmCustos.Replay.{Replay, outcome_of}
use liquet.Erc8004.{pass}
use liquet.Erc8004.Store.{EvidenceStore, IsContentAddressed}
use liquet.Erc8004.Validator.{ResolvedRequest, respond, handle_request}
use liquet.Erc8004.Validator.Pipeline.{Producer, LiquetValidator, liquet_validator}
use liquet.Erc8004.Validator.Pipeline.Laws.{Run, handle_request-Justified}
use liquet.Erc8004.Validator.Pipeline.Faithful.{IsFaithful, same_some, approval_caught}

module _ (c : Crates) (keys : Keys) (engine : Engine keys) (producer : Producer keys engine) where
  -- A delivery of the request behind a run: of some amount, to the claimed recipient, with no unlimited
  -- approval, in a replay in which the balance of the watched recipient rises.
  pub record Delivered {request : ResolvedRequest} (run : Run c keys engine producer request)
      : Type 0 where
    pub moved : 0 < run.sr.svm.amount
    pub claimed : engine.display_address run.sr.svm.recipient_owner ≡ run.sr.claim.good.recipient
    pub innocent : (delegate : engine.Address) → run.sr.malice ≢ producer.approve_unlimited delegate
    pub replay : Replay keys engine run.svm
    pub bound : IsBoundTo keys engine run.svm (outcome_of keys engine replay)
    pub arrived : 0 < bound.after - bound.before

  module _ (docs : IsDocumented c) (faithful : IsFaithful keys engine producer) (S : EvidenceStore)
      (lawful : IsContentAddressed c S) where
    -- With crates and a store that keep what they document, and a producer and an engine that do what
    -- the code says of them, under a policy that tolerates nothing above info: where a response of
    -- the wired validator on chain is a pass, its request was parsed and both legs ran; the delivery
    -- is of a positive amount, to an account that prints as the claimed recipient; it grants no
    -- unlimited approval; and in the replay, which is bound to it, the recipient's balance rises.
    pub respond-Delivered :
        (validator : LiquetValidator c keys engine producer) (request : ResolvedRequest)
        (s t : S.State) (request_hash uri hash tag : String)
        → rank validator.policy.max_settle_severity ≤ rank info
        → handle_request c S request (liquet_validator c keys engine producer validator) s
          ≡ (ok (respond request_hash pass uri hash tag), t)
        → (run : Run c keys engine producer request) × Delivered run
    respond-Delivered validator request s t request_hash uri hash tag strict e =
        let j =
          (handle_request-Justified c docs keys engine producer S lawful validator request s t pass
            request_hash uri hash tag e).0 in
        let r = j.run in
        let (matched, low) = j.passes.0 refl in
        let (paid, executed, recipient) =
          faithful.reconciles r.evm.leg r.svm.leg r.sr.claim matched in
        let (moved, recovered) =
          faithful.recovers_with_malice r.sr.svm r.sr.malice r.svm r.svm_leg executed in
        (
          r,
          record {
            moved = moved;
            claimed = same_some recovered recipient;
            innocent = λ delegate approves.
                let caught =
                  approval_caught keys engine producer faithful r.sr.svm delegate r.svm r.invariant
                    (subst (λ m. producer.reconstruct_svm_leg_with_malice r.sr.svm m ≡ ok r.svm)
                      approves r.svm_leg)
                    r.screened in
                omega (arith, caught, low, strict);
            replay = j.replay;
            bound = j.bound;
            arrived = j.bound.executed.1 executed;
          },
        )
