-- ===== src/Adapters/XvmCustos/Replay.antt =====
-- src/adapters/xvm_custos.rs, `invariant_from_svm_leg`: the verdict is of a replay bound to the leg.
use liquet.Common.{◌≡◌, refl, ◌∙◌, sym, ◌↔◌, inl, inr, String, map, ok, err, ◌<>◌}
use liquet.Common.{Result-cases}
use liquet.Seam.{InvariantVerdict}
use liquet.Adapters.Custos.{Keys, Outcome}
use liquet.Adapters.XvmCustos.{
  Engine, SvmReconstruction, key_of, seed, screen, invariant_from_svm_leg,
}
use liquet.Adapters.XvmCustos.Laws.{IsBoundTo, verdict_of, screen-eq-ok}

module _ (keys : Keys) (engine : Engine keys) where
  -- The machine and the outcome of the replay: the prestate is set, account by account, the payer is
  -- funded, and the transaction of the leg runs.
  pub record Replay (recon : SvmReconstruction keys engine) : Type 0 where
    pub seeded : engine.LiteSvm
    pub funded : engine.LiteSvm
    pub seeds : seed keys engine engine.new recon.prestate ≡ ok seeded
    pub funds :
        engine.airdrop seeded (key_of keys engine recon.payer) recon.payer_airdrop_lamports
        ≡ ok funded

  abbrev pub outcome_of : {recon : SvmReconstruction keys engine} → Replay recon → Outcome keys
  outcome_of {recon} r =
      (engine.capture r.funded recon.transaction (key_of keys engine recon.payer)
        (map (key_of keys engine) recon.watch) engine.spl_token_id engine.system_id).0

  invariant_of_Replay :
      (recon : SvmReconstruction keys engine) (r : Replay recon)
      → invariant_from_svm_leg keys engine recon ≡ screen keys engine recon (outcome_of r)
  unfolding invariant_from_svm_leg
  invariant_of_Replay recon r = rw (r.seeds, r.funds) refl

  not-ok_of_seed :
      (recon : SvmReconstruction keys engine) {e : String}
      → seed keys engine engine.new recon.prestate ≡ err e
      → invariant_from_svm_leg keys engine recon ≡ err e
  unfolding invariant_from_svm_leg
  not-ok_of_seed recon h = rw h refl

  not-ok_of_airdrop :
      (recon : SvmReconstruction keys engine) {svm : engine.LiteSvm} {e : String}
      → seed keys engine engine.new recon.prestate ≡ ok svm
      → engine.airdrop svm (key_of keys engine recon.payer) recon.payer_airdrop_lamports ≡ err e
      → invariant_from_svm_leg keys engine recon ≡ err ("airdrop payer: " <> e)
  unfolding invariant_from_svm_leg
  not-ok_of_airdrop recon h k = rw (h, k) refl

  Replay-of :
      (recon : SvmReconstruction keys engine) {v : InvariantVerdict}
      → invariant_from_svm_leg keys engine recon ≡ ok v
      → Replay recon
  Replay-of recon h = elim (Result-cases (seed keys engine engine.new recon.prestate)) [
    | inr (e, bad) ↦ cc (sym h ∙ not-ok_of_seed recon bad)
    | inl (svm, good) ↦
        elim (Result-cases
          (engine.airdrop svm (key_of keys engine recon.payer) recon.payer_airdrop_lamports)) [
            | inr (e, bad) ↦ cc (sym h ∙ not-ok_of_airdrop recon good bad)
            | inl (next, fine) ↦ record { seeded = svm; funded = next; seeds = good; funds = fine }
          ]
  ]

  -- The screen of a delivery leg gives a verdict exactly when the replay of the leg's transaction
  -- on its prestate runs, and its outcome is bound to the leg: it succeeded, and the recipient's
  -- balance rose by the leg's amount, which is positive exactly when the leg was executed. The
  -- verdict is that of the outcome.
  pub invariant_from_svm_leg-eq-ok :
      (recon : SvmReconstruction keys engine) (v : InvariantVerdict)
      → (invariant_from_svm_leg keys engine recon ≡ ok v) ↔ (
          (r : Replay recon) × IsBoundTo keys engine recon (outcome_of r)
          × (v ≡ verdict_of keys engine (outcome_of r)))
  invariant_from_svm_leg-eq-ok recon v = (
    λ h.
        let r = Replay-of recon h in
        let bound =
          (screen-eq-ok keys engine recon (outcome_of r) v).0
            (sym (invariant_of_Replay recon r) ∙ h) in
        (r, bound.0, bound.1),
    λ (r, bound, made).
        invariant_of_Replay recon r
        ∙ (screen-eq-ok keys engine recon (outcome_of r) v).1 (bound, made),
  )
