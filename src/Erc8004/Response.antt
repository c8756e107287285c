-- ===== src/Erc8004/Response.antt =====
-- src/erc8004/mod.rs, `validation_response`: which score and tag a decision gets.
use liquet.Common.{
  ℕ, ◌<◌, ◌≤◌, ◌≡◌, refl, ap, sym, ◌∙◌, if◌then◌else◌, [], ◌↔◌, Bool, true, false, String, List,
  Option, none, some,
}
use liquet.Common.{arith, eq_iff, ◌==◌}
use liquet.Seam.{
  ReconcileVerdict, matched, half_open, mismatch, unverifiable, CrossVmProof, rank,
  InvariantVerdict,
}
use liquet.Decide.{GatePolicy, LiquetDecision, settle, hold, is_settle, decide_crossvm}
use liquet.Decide.CrossVm.{decide_crossvm-eq-settle}
use liquet.Attest.{SignedDecision, new_binding}
use liquet.Attest.Crates.{Crates}
use liquet.Erc8004.{
  pass, fail, tag_unsafe, tag_unverifiable, score, is_published, validation_response,
}

is_settle_of :
    (d : LiquetDecision) → is_settle d ≡ true → (caveats : List String) × (d ≡ settle caveats)
is_settle_of (settle caveats) h = (caveats, refl)
is_settle_of (hold reasons) h = cc

pub settles_iff :
    (p : CrossVmProof) (v : InvariantVerdict) (pol : GatePolicy)
    → (is_settle (decide_crossvm p v pol) ≡ true)
      ↔ ((p.reconcile ≡ matched) × (rank v.level ≤ rank pol.max_settle_severity))
settles_iff p v pol = (
  λ h.
      let (caveats, e) = is_settle_of (decide_crossvm p v pol) h in
      let (m, l, _) = (decide_crossvm-eq-settle p v pol caveats).0 e in (m, l),
  λ (m, l). ap is_settle ((decide_crossvm-eq-settle p v pol []).1 (m, l, refl)),
)

-- What a tag stands for.
abbrev meaning_of : String → ReconcileVerdict × Option ℕ
meaning_of tag =
    if tag == "unverifiable"
    then (unverifiable, none)
    else if tag == "half-open"
    then (half_open, some 0)
    else if tag == "mismatch"
    then (mismatch, some 0)
    else if tag == "matched"
    then (matched, some 100)
    else (matched, some 0)

meaning_of-score : (a : ReconcileVerdict) (x : Bool) → meaning_of (score a x).1 ≡ (a, (score a x).0)
unfolding score
meaning_of-score unverifiable x = refl
meaning_of-score half_open x = refl
meaning_of-score mismatch x = refl
meaning_of-score matched true = refl
meaning_of-score matched false = refl

-- What is said of a score, by the verdict and the decision that it comes from.
abbrev ScoreMeans : ReconcileVerdict → Bool → Option ℕ × String → Type 0
ScoreMeans a settles s =
    ((s.0 ≡ some pass) ↔ ((a ≡ matched) × (settles ≡ true)))
    × (((s.1 ≡ tag_unsafe) × (s.0 ≡ some fail)) ↔ ((a ≡ matched) × (settles ≡ false)))
    × ((s.0 ≡ none) ↔ (a ≡ unverifiable))

score_means : (a : ReconcileVerdict) (settles : Bool) → ScoreMeans a settles (score a settles)
unfolding score
score_means unverifiable settles = ground (arith, eq_iff "unverifiable" "unsafe")
score_means half_open settles = ground (arith, eq_iff "half-open" "unsafe")
score_means mismatch settles = ground (arith, eq_iff "mismatch" "unsafe")
score_means matched true = ground (arith, eq_iff "matched" "unsafe")
score_means matched false = ground arith

module _ (c : Crates) where
  -- Two responses with one tag have one score, and come from receipts with one reconcile verdict.
  tag_determines :
      (a b : SignedDecision)
      → (validation_response c a).tag ≡ (validation_response c b).tag
      → ((validation_response c a).response ≡ (validation_response c b).response)
        × (a.binding.reconcile ≡ b.binding.reconcile)
  unfolding validation_response
  tag_determines a b h =
      let same =
        sym (meaning_of-score a.binding.reconcile (is_settle a.binding.decision))
        ∙ (ap meaning_of h ∙ meaning_of-score b.binding.reconcile (is_settle b.binding.decision)) in
      (ap (λ m. m.1) same, ap (λ m. m.0) same)

  -- Nothing is published for an unverifiable settlement alone, and its tag says so.
  pub response-eq-none :
      (signed : SignedDecision)
      → ((validation_response c signed).response ≡ none) ↔ (
          (signed.binding.reconcile ≡ unverifiable)
          × ((validation_response c signed).tag ≡ tag_unverifiable))
  unfolding validation_response score
  response-eq-none signed = ground arith

  -- For a receipt over a decision of the cross-VM gate: it scores a pass exactly when the legs
  -- reconcile as matched and the level is within the threshold; it is tagged unsafe, which is a
  -- failing score, exactly when they are matched and the level is above it; and nothing is published
  -- exactly when the legs are unverifiable.
  pub validation_response_of_gate :
      (signed : SignedDecision) (p : CrossVmProof) (v : InvariantVerdict) (pol : GatePolicy)
      → signed.binding ≡ new_binding p v pol (decide_crossvm p v pol)
      → let r = validation_response c signed in
        ((r.response ≡ some pass)
          ↔ ((p.reconcile ≡ matched) × (rank v.level ≤ rank pol.max_settle_severity)))
        × (((r.tag ≡ tag_unsafe) × (r.response ≡ some fail))
            ↔ ((p.reconcile ≡ matched) × (rank pol.max_settle_severity < rank v.level)))
        × ((is_published r ≡ false) ↔ (p.reconcile ≡ unverifiable))
  unfolding validation_response new_binding
  validation_response_of_gate signed p v pol e =
      let verdict : signed.binding.reconcile ≡ p.reconcile = ap (λ b. b.reconcile) e in
      let decided : signed.binding.decision ≡ decide_crossvm p v pol = ap (λ b. b.decision) e in
      rw (verdict, decided)
        (ground (
          arith,
          score_means p.reconcile (is_settle (decide_crossvm p v pol)),
          settles_iff p v pol,
        ))
