-- ===== src/Demo/Slice/Decisions.antt =====
-- src/bin/slice.rs, `print_decision`: what the gate decides of an outcome, and of the two runs.
use liquet.Common.{◌≤◌, ◌≡◌, refl, ◌↔◌, inl, inr, String, true}
use liquet.Common.{List, [], ◌∷◌, map, Option, All, In, In-map, All-iff}
use mathlib.Core.List.Permᴰ.{symm}
use liquet.Seam.{SettlementIntent, Severity, rank, info}
use liquet.Decide.{settle, unbound_note, default_policy}
use liquet.Decide.Gate.{decide-eq-settle}
use liquet.Attest.Crates.{Crates}
use liquet.Adapters.Custos.{
  Keys, Outcome, Snapshots, AccountSnapshot, severity_from_level, verdict_from_custos,
  proof_from_outcome, sort_accounts,
}
use liquet.Adapters.Custos.Sorting.{sort_accounts-Perm, In-Perm}
use liquet.Adapters.XvmCustos.{Engine}
use liquet.Demo.Program.{World}
use liquet.Demo.Slice.{Toolkit, decide_outcome, drainer_outcome}
use liquet.Demo.Slice.Laws.{
  Benign, Drainer, benign_decision, drainer_decision, outcome_of_benign, benign_intent,
  drainer_intent,
}

module _ (c : Crates) (keys : Keys) (engine : Engine keys) (tools : Toolkit keys engine) where
  -- An account of this text is in the map.
  abbrev pub Covers : Snapshots keys → String → Type 0
  Covers post account =
      (entry : keys.Pubkey × Option (AccountSnapshot keys)) × In entry post
      × (account ≡ keys.to_string entry.0)

  -- The level of the verdict that the engine gives.
  abbrev pub level_of : Outcome keys → Severity
  level_of outcome = severity_from_level (engine.evaluate outcome engine.default_bank).level

  covered_iff :
      (post : Snapshots keys) (account : String)
      → In account (map (λ a. keys.to_string a.0) (sort_accounts keys post)) ↔ Covers post account
  covered_iff post account =
      let listed = In-map (λ a. keys.to_string a.0) account (sort_accounts keys post) in
      let order = sort_accounts-Perm keys post in
      (
        λ h. let (a, i, e) = listed.0 h in (a, In-Perm a order i, e),
        λ (a, i, e). listed.1 (a, In-Perm a (symm order) i, e),
      )

  -- The gate settles an outcome exactly when the transaction succeeded, the level of its verdict is at
  -- most info, and each required account is one of the accounts of the outcome; it then adds the one
  -- note that the transfer facts are not bound.
  pub decide_outcome-eq-settle :
      (outcome : Outcome keys) (intent : SettlementIntent) (caveats : List String)
      → (decide_outcome c keys engine tools outcome intent ≡ settle caveats) ↔ (
          (outcome.success ≡ true)
          × (rank (level_of outcome) ≤ rank info)
          × All (Covers outcome.post) intent.required_accounts
          × (caveats ≡ unbound_note ∷ []))
  unfolding proof_from_outcome verdict_from_custos
  decide_outcome-eq-settle outcome intent caveats =
      let i = proof_from_outcome keys c outcome in
      let v = verdict_from_custos keys (engine.evaluate outcome engine.default_bank) in
      let gate = decide-eq-settle intent i v default_policy caveats in
      let scope = All-iff intent.required_accounts (covered_iff outcome.post) in
      (
        λ h.
            let (safe, free, noted) = gate.0 h in
            (safe.executed refl, safe.tolerated, scope.0 safe.covered, noted),
        λ (success, low, covered, noted). gate.1 (
          record {
            verified = refl;
            executed = λ _. success;
            tolerated = low;
            covered = scope.1 covered;
          },
          refl,
          noted,
        ),
      )

  in_scope :
      (outcome : Outcome keys) (intent : SettlementIntent)
      → All (Covers outcome.post) intent.required_accounts
      → (decide_outcome c keys engine tools outcome intent ≡ settle (unbound_note ∷ []))
        ↔ ((outcome.success ≡ true) × (rank (level_of outcome) ≤ rank info))
  in_scope outcome intent covered =
      let gate = decide_outcome-eq-settle outcome intent (unbound_note ∷ []) in
      (
        λ h. let (success, low, _, _) = gate.0 h in (success, low),
        λ (success, low). gate.1 (success, low, covered, refl),
      )

  -- What is documented of `sim::capture`: it takes a snapshot of each watched account.
  pub record IsWatching : Type 0 where
    pub watches :
        (svm : engine.LiteSvm) (tx : engine.Transaction) (payer : keys.Pubkey)
        (watch : List keys.Pubkey) (token system k : keys.Pubkey)
        → In k watch
        → (snapshot : Option (AccountSnapshot keys)) × In
            (k, snapshot)
            (engine.capture svm tx payer watch token system).0.post

  -- What the two lines say, where each watched account is in the outcome: the transfer settles, with
  -- the one note, exactly when the transaction succeeded and its level is at most info, and so does
  -- the approval that is submitted in its place; the required accounts never hold either back.
  pub decisions_lem :
      (docs : IsWatching) {w w₁ : World} (b : Benign c keys engine tools w)
      (d : Drainer c keys engine tools w₁)
      → ((benign_decision c keys engine tools b ≡ settle (unbound_note ∷ []))
          ↔ ((outcome_of_benign c keys engine tools b).success ≡ true)
            × (rank (level_of (outcome_of_benign c keys engine tools b)) ≤ rank info))
        × ((drainer_decision c keys engine tools d ≡ settle (unbound_note ∷ []))
            ↔ ((drainer_outcome c keys engine tools d.env).success ≡ true)
              × (rank (level_of (drainer_outcome c keys engine tools d.env)) ≤ rank info))
  decisions_lem docs b d =
      let covers : (svm : engine.LiteSvm) (tx : engine.Transaction) (payer : keys.Pubkey)
            (watch : List keys.Pubkey) (token k : keys.Pubkey)
          → In k watch
          → Covers (engine.capture svm tx payer watch token engine.system_id).0.post
              (keys.to_string k) =
        λ svm tx payer watch token k i.
          let (snapshot, there) = docs.watches svm tx payer watch token engine.system_id k i in
          ((k, snapshot), there, refl) in
      (
        in_scope (outcome_of_benign c keys engine tools b) (benign_intent c keys engine tools b)
            (covers _ _ _ _ _ _ (inl refl), (covers _ _ _ _ _ _ (inr (inl refl)), tt)),
        in_scope (drainer_outcome c keys engine tools d.env) (drainer_intent c keys engine tools d)
            (covers _ _ _ _ _ _ (inl refl), tt),
      )
