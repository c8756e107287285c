-- ===== src/Adapters/XvmCustos/Laws.antt =====
-- src/adapters/xvm_custos.rs: when the screen gives a verdict, and which.
use liquet.Common.{
  ℕ, ◌-◌, ◌<◌, ◌≡◌, refl, ap, ◌∙◌, sym, subst, ◌↔◌, inl, inr, String, ◌<>◌, Bool, true, false,
}
use liquet.Common.{
  not, ◌||◌, map, get_elem?, Option, none, some, Result, ok, err, ◌>>=◌, ◌>>◌, ok_or,
}
use liquet.Common.{
  Result-cases, Bool-cases, Option-cases, if◌then◌else◌, nat_eq, bool_eq, ltb, arith,
}
use liquet.Seam.{InvariantVerdict}
use liquet.Adapters.Custos.{Keys, Outcome, verdict_from_custos}
use liquet.Adapters.XvmCustos.{
  Engine, SvmReconstruction, key_of, find_snapshot, token_amount, amount, diverged, expected_of,
  screen, replay_failed, no_recipient,
}

-- The test that the replay delivered what the leg says.
abbrev agrees : ℕ → ℕ → Bool → Bool
agrees delivered expected executed =
    not (not (nat_eq delivered expected) || not (bool_eq (ltb 0 delivered) executed))

agrees_iff : (d e : ℕ) (x : Bool) → (agrees d e x ≡ true) ↔ ((d ≡ e) × ((0 < d) ↔ (x ≡ true)))
agrees_iff d e x = ground arith

module _ (keys : Keys) (engine : Engine keys) where
  -- The outcome is that of a transaction that succeeded, it shows the balance of the recipient, which
  -- is the second watched account, before and after, the balance rose by the amount of the leg (a
  -- fall counts as no rise), and the leg was executed exactly when it rose.
  pub record IsBoundTo (recon : SvmReconstruction keys engine) (outcome : Outcome keys)
      : Type 0 where
    pub success : outcome.success ≡ true
    pub recipient : keys.Pubkey
    pub watched : get_elem? (map (key_of keys engine) recon.watch) 1 ≡ some recipient
    pub before : ℕ
    pub after : ℕ
    pub held :
        token_amount keys engine (find_snapshot keys engine outcome.pre recipient) ≡ some before
    pub holds :
        token_amount keys engine (find_snapshot keys engine outcome.post recipient) ≡ some after
    pub delivered : after - before ≡ expected_of keys engine recon.leg
    pub executed : (0 < after - before) ↔ (recon.leg.executed ≡ true)

  abbrev pub verdict_of : Outcome keys → InvariantVerdict
  verdict_of outcome = verdict_from_custos keys (engine.evaluate outcome engine.default_bank)

  -- What a result says of the outcome that was screened.
  abbrev Screened :
      SvmReconstruction keys engine → Outcome keys → Result InvariantVerdict String → Type 0
  Screened recon outcome (ok v) = IsBoundTo recon outcome × (v ≡ verdict_of outcome)
  Screened recon outcome (err e) = ¬ IsBoundTo recon outcome

  same_some : {A : Type 0} {o : Option A} {a b : A} → o ≡ some a → o ≡ some b → a ≡ b
  same_some h k = ground arith

  -- The last two steps, on what was delivered.
  abbrev settle_balance :
      SvmReconstruction keys engine → Outcome keys → ℕ → Result InvariantVerdict String
  settle_balance recon outcome delivered =
      let expected = expected_of keys engine recon.leg in
      (if not (nat_eq delivered expected) || not (bool_eq (ltb 0 delivered) recon.leg.executed)
        then err (diverged keys engine delivered expected recon.leg.executed)
        else ok tt)
      >> ok (verdict_of outcome)

  module _ (recon : SvmReconstruction keys engine) (outcome : Outcome keys) where
    abbrev balance_before : keys.Pubkey → Option ℕ
    balance_before k = token_amount keys engine (find_snapshot keys engine outcome.pre k)

    abbrev balance_after : keys.Pubkey → Option ℕ
    balance_after k = token_amount keys engine (find_snapshot keys engine outcome.post k)

    abbrev second_watched : Option keys.Pubkey
    second_watched = get_elem? (map (key_of keys engine) recon.watch) 1

    screen_failed : outcome.success ≡ false → screen keys engine recon outcome ≡ err replay_failed
    unfolding screen
    screen_failed failed = rw failed refl

    screen_unwatched :
        outcome.success ≡ true
        → second_watched ≡ none
        → screen keys engine recon outcome ≡ err no_recipient
    unfolding screen
    screen_unwatched success missing = rw (success, missing) refl

    screen_watched :
        {k : keys.Pubkey}
        → outcome.success ≡ true
        → second_watched ≡ some k
        → screen keys engine recon outcome ≡ (
            amount keys engine (find_snapshot keys engine outcome.pre k) "before" >>= λ before.
            amount keys engine (find_snapshot keys engine outcome.post k) "after" >>= λ after.
            settle_balance recon outcome (after - before))
    unfolding screen
    screen_watched success watched = rw (success, watched) refl

  bound_at :
      (recon : SvmReconstruction keys engine) (outcome : Outcome keys) {k : keys.Pubkey}
      → second_watched recon outcome ≡ some k
      → (x : IsBoundTo recon outcome)
      → (balance_before recon outcome k ≡ some x.before)
        × (balance_after recon outcome k ≡ some x.after)
  bound_at recon outcome watched x =
      let same = same_some watched x.watched in
      (
        ap (balance_before recon outcome) same ∙ x.held,
        ap (balance_after recon outcome) same ∙ x.holds,
      )

  settle_balance-eq-ok :
      (recon : SvmReconstruction keys engine) (outcome : Outcome keys) (d : ℕ)
      → agrees d (expected_of keys engine recon.leg) recon.leg.executed ≡ true
      → settle_balance recon outcome d ≡ ok (verdict_of outcome)
  settle_balance-eq-ok recon outcome d h = ground arith

  settle_balance-eq-err :
      (recon : SvmReconstruction keys engine) (outcome : Outcome keys) (d : ℕ)
      → agrees d (expected_of keys engine recon.leg) recon.leg.executed ≡ false
      → settle_balance recon outcome d
        ≡ err (diverged keys engine d (expected_of keys engine recon.leg) recon.leg.executed)
  settle_balance-eq-err recon outcome d h = ground arith

  balances_sound :
      (recon : SvmReconstruction keys engine) (outcome : Outcome keys) {k : keys.Pubkey}
      → outcome.success ≡ true
      → second_watched recon outcome ≡ some k
      → (b a : Option ℕ) → balance_before recon outcome k ≡ b
      → balance_after recon outcome k ≡ a
      → Screened recon outcome (
          ok_or b ("Custos replay has no decodable recipient token account " <> "before")
          >>= λ before.
              ok_or a ("Custos replay has no decodable recipient token account " <> "after")
              >>= λ after. settle_balance recon outcome (after - before))
  balances_sound recon outcome success watched none a held holds =
      λ x. cc (held, (bound_at recon outcome watched x).0)
  balances_sound recon outcome success watched (some before) none held holds =
      λ x. cc (holds, (bound_at recon outcome watched x).1)
  balances_sound recon outcome {k} success watched (some before) (some after) held holds =
      let expected = expected_of keys engine recon.leg in
      let meets = agrees_iff (after - before) expected recon.leg.executed in
      elim (Bool-cases (agrees (after - before) expected recon.leg.executed)) [
        | inl yes_it ↦
            subst (Screened recon outcome)
              (sym (settle_balance-eq-ok recon outcome (after - before) yes_it))
              (
                record {
                  success = success;
                  recipient = k;
                  watched = watched;
                  before = before;
                  after = after;
                  held = held;
                  holds = holds;
                  delivered = (meets.0 yes_it).0;
                  executed = (meets.0 yes_it).1;
                },
                refl,
              )
        | inr no_it ↦
            subst (Screened recon outcome)
              (sym (settle_balance-eq-err recon outcome (after - before) no_it))
              (λ x.
                let (was, is) = bound_at recon outcome watched x in
                let first : x.before ≡ before = same_some was held in
                let second : x.after ≡ after = same_some is holds in
                let back = meets.1 (rw (← first, ← second) (x.delivered, x.executed)) in cc)
      ]

  screen_sound :
      (recon : SvmReconstruction keys engine) (outcome : Outcome keys)
      → Screened recon outcome (screen keys engine recon outcome)
  screen_sound recon outcome = elim (Bool-cases outcome.success) [
    | inr failed ↦
        subst (Screened recon outcome) (sym (screen_failed recon outcome failed))
          (λ b. cc (b.success))
    | inl success ↦ elim (Option-cases (second_watched recon outcome)) [
      | inl missing ↦
          subst (Screened recon outcome) (sym (screen_unwatched recon outcome success missing))
            (λ b. cc (b.watched))
      | inr (k, watched) ↦
          subst (Screened recon outcome) (sym (screen_watched recon outcome success watched))
            (balances_sound recon outcome success watched _ _ refl refl)
    ]
  ]

  -- The screen passes the verdict of the outcome exactly when the outcome is bound to the leg.
  pub screen-eq-ok :
      (recon : SvmReconstruction keys engine) (outcome : Outcome keys) (v : InvariantVerdict)
      → (screen keys engine recon outcome ≡ ok v)
        ↔ (IsBoundTo recon outcome × (v ≡ verdict_of outcome))
  screen-eq-ok recon outcome v = (
    λ h. subst (Screened recon outcome) h (screen_sound recon outcome),
    λ (x, made). elim (Result-cases (screen keys engine recon outcome)) [
      | inl (w, e) ↦
          e ∙ ap ok ((subst (Screened recon outcome) e (screen_sound recon outcome)).1 ∙ sym made)
      | inr (w, e) ↦ elim (subst (Screened recon outcome) e (screen_sound recon outcome) x) [ ]
    ],
  )
