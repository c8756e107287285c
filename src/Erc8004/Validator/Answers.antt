-- ===== src/Erc8004/Validator/Answers.antt =====
-- src/erc8004/validator.rs over `MemStore`: a request that is validated is answered, within bounds.
use liquet.Common.{ℕ, ◌≤◌, ◌≡◌, refl, ap, ◌∙◌, sym, ◌≢◌, ◌⊎◌, inl, inr, some}
use liquet.Common.{Result, ok, err, ok_injective, arith}
use liquet.Seam.{unverifiable}
use liquet.Attest.{SignedDecision}
use liquet.Attest.Crates.{Crates}
use liquet.Erc8004.{validation_response, score, pass, fail, tag_unverifiable}
use liquet.Erc8004.Store.Mem.{MemStore, mem_store}
use liquet.Erc8004.Validator.{
  ResolvedRequest, ValidateError, SettlementValidator, OnChainAction, respond, abstain,
  handle_request,
}
use liquet.Erc8004.Validator.Laws.{HandleOutcome, handle_request_outcome}
use liquet.Erc8004.Store.Mem.Laws.{not-put_err}

module _ (c : Crates) where
  -- The answer that a receipt gets: a response of 0 or 100 that carries the request's hash, or, for an
  -- unverifiable settlement alone, an abstention.
  abbrev pub Answers : ResolvedRequest → SignedDecision → OnChainAction → Type 0
  Answers req signed (respond hash points uri digest tag) =
      (signed.binding.reconcile ≢ unverifiable)
      × (hash ≡ req.request_hash)
      × ((points ≡ pass) ⊎ (points ≡ fail))
      × (points ≤ 100)
  Answers req signed (abstain hash tag) =
      (signed.binding.reconcile ≡ unverifiable)
      × (hash ≡ req.request_hash)
      × (tag ≡ tag_unverifiable)

  response_bounds :
      (signed : SignedDecision) {points : ℕ}
      → (validation_response c signed).response ≡ some points
      → (signed.binding.reconcile ≢ unverifiable)
        × ((points ≡ pass) ⊎ (points ≡ fail))
        × (points ≤ 100)
  unfolding validation_response score
  response_bounds signed h = ground arith

  same_receipt :
      (req : ResolvedRequest) (validator : SettlementValidator) {a b : SignedDecision}
      → validator.validate req ≡ ok a
      → validator.validate req ≡ ok b
      → b ≡ a
  same_receipt req validator h k = ok_injective (sym k ∙ h)

  outcome-Answers :
      (req : ResolvedRequest) (validator : SettlementValidator) (s t : MemStore)
      (signed : SignedDecision) (r : Result OnChainAction ValidateError)
      → validator.validate req ≡ ok signed
      → HandleOutcome c (mem_store c) req validator s r t
      → (action : OnChainAction) × (r ≡ ok action) × Answers req signed action
  outcome-Answers req validator s t signed (ok (respond hash points uri digest tag)) v
        (made, w, e, vr, put) =
      let same = same_receipt req validator v w in
      let of_signed =
        ap (λ x. (validation_response c x).response) (sym same) ∙ ap (λ r. r.response) vr in
      let (verifiable, scored, low) = response_bounds signed of_signed in
      (respond hash points uri digest tag, refl, (verifiable, e, scored, low))
  outcome-Answers req validator s t signed (ok (abstain hash tag)) v
        (made, w, e, reconcile, tagged, kept) =
      let same = same_receipt req validator v w in
      (abstain hash tag, refl, (ap (λ x. x.binding.reconcile) (sym same) ∙ reconcile, e, tagged))
  outcome-Answers req validator s t signed (err e) v (inl (w, same)) = cc (v, w)
  outcome-Answers req validator s t signed (err e) v (inr (made, io, _, _, _, put)) =
      elim (not-put_err c s made put) [ ]

  -- Over `MemStore`, a request whose claim is validated is always answered, and in one call: with a
  -- response that carries the request's hash and a score of 0 or of 100, where the settlement is
  -- verifiable, and with an abstention where it is not.
  pub handle_request-Answers :
      (req : ResolvedRequest) (validator : SettlementValidator) (s : MemStore)
      (signed : SignedDecision)
      → validator.validate req ≡ ok signed
      → (action : OnChainAction) × (t : MemStore) × (handle_request c (mem_store c) req validator s
          ≡ (ok action, t))
        × Answers req signed action
  handle_request-Answers req validator s signed v =
      let handled = handle_request c (mem_store c) req validator s in
      let outcome =
        handle_request_outcome c (mem_store c) req validator s handled.1 handled.0 refl in
      let (action, answered, sound) =
        outcome-Answers req validator s handled.1 signed handled.0 v outcome in
      (action, handled.1, ap (λ r. (r, handled.1)) answered, sound)
