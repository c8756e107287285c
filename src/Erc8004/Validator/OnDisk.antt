-- ===== src/Erc8004/Validator/OnDisk.antt =====
-- src/erc8004/validator.rs over `FileStore`: requests one after the other, by validators of one key,
-- over a disk whose calls may fail.
mod Tests
use liquet.Common.{ℕ, String, ◌≡◌, refl, ap, ◌∙◌, sym, subst, ◌≢◌, ◌⊎◌, inl, inr, some}
use liquet.Common.{Result, ok, err, true, ok_injective}
use liquet.Attest.{SignedDecision}
use liquet.Attest.Crates.{Crates, IsDocumented, Collision}
use liquet.Attest.Verify.{signer_text, sign_decision}
use liquet.Erc8004.{verify_bundle}
use liquet.Erc8004.Store.{IoError, ResponseUri}
use liquet.Erc8004.Store.File.{FileSystem, IsFaithful, FileStore, file_put, file_get, file_store}
use liquet.Erc8004.Store.File.Laws.{file_store-IsContentAddressed}
use liquet.Erc8004.Store.File.History.{IsFramed, Puts, done, next, succeeded, file_put_survives}
use liquet.Erc8004.Validator.{
  ResolvedRequest, ValidateError, store, SettlementValidator, OnChainAction, respond, abstain,
  handle_request,
}
use liquet.Erc8004.Validator.History.{SignsWith}
use liquet.Erc8004.Validator.Laws.{HandleOutcome, handle_request_outcome, respond_verifies}

module _ (c : Crates) (fs : FileSystem) (files : FileStore) (k : c.SigningKey) where
  -- One request that is handled, whatever its outcome, where the store does not fail on the receipt
  -- `kept`.
  pub record HandlesBut (kept : SignedDecision) (d e : fs.Disk) : Type 0 where
    pub req : ResolvedRequest
    pub validator : SettlementValidator
    pub signs : SignsWith c k validator
    pub outcome : Result OnChainAction ValidateError
    pub handled : handle_request c (file_store c fs files) req validator d ≡ (outcome, e)
    pub spared : (io : IoError) → validator.validate req ≡ ok kept → outcome ≢ err (store io)

  -- The requests that lead from one state of the disk to another.
  pub data ServesBut (kept : SignedDecision) : fs.Disk → fs.Disk → Type 0 where
    no_more : {d : fs.Disk} → ServesBut kept d d
    one_more : {d e f : fs.Disk} → HandlesBut kept d e → ServesBut kept e f → ServesBut kept d f

  same_receipt :
      (x y : SignedDecision)
      → ((b : _) × (x ≡ sign_decision c b k))
      → ((b : _) × (y ≡ sign_decision c b k))
      → x.binding ≡ y.binding
      → x ≡ y
  unfolding sign_decision
  same_receipt x y (a, made) (b, made') same =
      let bindings : a ≡ b = sym (ap (λ z. z.binding) made) ∙ (same ∙ ap (λ z. z.binding) made') in
      made ∙ (ap (λ z. sign_decision c z k) bindings ∙ sym made')

  put_then :
      (kept x : SignedDecision) (d e f : fs.Disk) (r : Result ResponseUri IoError)
      → file_put c fs files d x ≡ (r, e)
      → (x.binding ≡ kept.binding → (x ≡ kept) × (succeeded r ≡ true))
      → Puts c fs files kept e f
      → Puts c fs files kept d f
  put_then kept x d e f r put spared more =
      next x (λ same. let (it, good) = spared same in (it, ap (λ w. succeeded w.0) put ∙ good))
        (subst (λ z. Puts c fs files kept z f) (sym (ap (λ w. w.1) put)) more)

  -- A request puts one receipt, or none.
  Puts-outcome :
      (kept : SignedDecision)
      → ((b : _) × (kept ≡ sign_decision c b k))
      → (req : ResolvedRequest) (validator : SettlementValidator) (d e f : fs.Disk)
        (r : Result OnChainAction ValidateError)
      → SignsWith c k validator
      → HandleOutcome c (file_store c fs files) req validator d r e
      → ((io : IoError) → validator.validate req ≡ ok kept → r ≢ err (store io))
      → Puts c fs files kept e f
      → Puts c fs files kept d f
  Puts-outcome kept mine req validator d e f (ok (respond _ _ uri _ _)) signs (signed, v, _, _, put)
        spared more =
      put_then kept signed d e f (ok (record { uri = uri })) put
        (λ same. (same_receipt signed kept (signs req signed v) mine same, refl)) more
  Puts-outcome kept mine req validator d e f (ok (abstain _ _)) signs (_, _, _, _, _, same) spared
        more =
      subst (λ x. Puts c fs files kept x f) same more
  Puts-outcome kept mine req validator d e f (err _) signs (inl (_, same)) spared more =
      subst (λ x. Puts c fs files kept x f) same more
  Puts-outcome kept mine req validator d e f (err _) signs (inr (signed, io, failed, v, _, put))
        spared more =
      put_then kept signed d e f (err io) put
        (λ same.
          let it = same_receipt signed kept (signs req signed v) mine same in
          elim (spared io (v ∙ ap ok it) (ap err failed)) [ ])
        more

  Puts-ServesBut :
      (kept : SignedDecision)
      → ((b : _) × (kept ≡ sign_decision c b k))
      → {d e : fs.Disk} → ServesBut kept d e
      → Puts c fs files kept d e
  Puts-ServesBut kept mine no_more = done
  Puts-ServesBut kept mine (one_more {d} {e} {f} x rest) =
      Puts-outcome kept mine x.req x.validator d e f x.outcome x.signs
        (handle_request_outcome c (file_store c fs files) x.req x.validator d e x.outcome x.handled)
        x.spared (Puts-ServesBut kept mine rest)

  -- With crates as documented, over a disk that reads back what was written and whose writes leave
  -- the other files of the store's directory as they are: a response on chain stays checkable after
  -- any further requests that are handled over the same directory by validators of the same key,
  -- whatever their outcomes, but for a store error on the very receipt of the response: its address
  -- still yields a bundle that passes against its hash and the key and implies its score and tag,
  -- or SHA-256 has a collision.
  pub respond_survives_on_disk :
      IsDocumented c
      → IsFaithful fs
      → IsFramed fs files.root
      → (req : ResolvedRequest) (validator : SettlementValidator) (d e later : fs.Disk)
        (kept : SignedDecision) (points : ℕ) (request_hash uri hash tag : String)
      → SignsWith c k validator
      → validator.validate req ≡ ok kept
      → handle_request c (file_store c fs files) req validator d
        ≡ (ok (respond request_hash points uri hash tag), e)
      → ServesBut kept e later
      → ((bundle : String) × (file_get c fs later (record { uri = uri }) ≡ ok bundle)
          × (verify_bundle c bundle hash (signer_text c k)
              ≡ ok (record { response = some points; tag = tag; response_hash = hash })))
        ⊎ Collision c
  respond_survives_on_disk docs faithful framed req validator d e later kept points request_hash uri
        hash tag signs v handled more =
      let lawful = file_store-IsContentAddressed c docs fs files faithful in
      let mine = signs req kept v in
      let (signed, v', _, _, put) =
        handle_request_outcome c (file_store c fs files) req validator d e
          (ok (respond request_hash points uri hash tag)) handled in
      let it : signed ≡ kept = ok_injective (sym v' ∙ v) in
      let (bundle, found, good) =
        (respond_verifies c docs (file_store c fs files) lawful req validator d e k mine.0 points
          request_hash uri hash tag (v ∙ ap ok mine.1) handled).1 in
      let put_kept = subst (λ x. file_put c fs files d x ≡ (ok (record { uri = uri }), e)) it put in
      elim (file_put_survives c fs files docs faithful framed kept (record { uri = uri }) d e later
        put_kept (Puts-ServesBut kept mine more)) [
          | inl still ↦
              inl (bundle, still ∙ (sym (lawful.get-put d e kept _ put_kept) ∙ found), good)
          | inr clash ↦ inr clash
        ]
