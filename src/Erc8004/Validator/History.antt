-- ===== src/Erc8004/Validator/History.antt =====
-- src/erc8004/validator.rs over `MemStore`: requests one after the other, by validators of one key.
use mathlib.Core.Option.{some-injective}
use liquet.Common.{
  ℕ, ◌≡◌, refl, ap, ◌∙◌, sym, subst, ◌⊎◌, inl, inr, String, ◌==◌, eq_iff, Bool-cases, some,
}
use liquet.Common.{Result, ok, err, arith}
use liquet.Common.Text.Laws.{eq_ignore_ascii_case_refl}
use liquet.Attest.{DecisionBinding, SignedDecision}
use liquet.Attest.Crates.{Crates, IsDocumented, Collision}
use liquet.Attest.Verify.{digest_hex, signer_text, sign_decision}
use liquet.Attest.Verify.Commitment.{digest_commits}
use liquet.Erc8004.{evidence_bundle_json, verify_bundle}
use liquet.Erc8004.Bundle.{digest_hex_injective}
use liquet.Erc8004.Store.{ResponseUri, embedded_hash}
use liquet.Erc8004.Store.Address.{embedded_hash-plain, digest_hex-IsHex}
use liquet.Erc8004.Store.Mem.{MemStore, mem_get, mem_put, mem_uri, mem_store}
use liquet.Erc8004.Store.Mem.Laws.{mem_get-mem_put, not-put_err, mem_store-IsContentAddressed}
use liquet.Erc8004.Validator.{
  ResolvedRequest, ValidateError, SettlementValidator, OnChainAction, respond, abstain,
  handle_request,
}
use liquet.Erc8004.Validator.Laws.{HandleOutcome, handle_request_outcome, respond_verifies}

module _ (c : Crates) (k : c.SigningKey) where
  -- Whatever the validator yields is signed with the key.
  abbrev pub SignsWith : SettlementValidator → Type 0
  SignsWith validator =
      (req : ResolvedRequest) (signed : SignedDecision)
      → validator.validate req ≡ ok signed
      → (b : DecisionBinding) × (signed ≡ sign_decision c b k)

  -- One request that is handled, whatever its outcome.
  pub record Handles (s t : MemStore) : Type 0 where
    pub req : ResolvedRequest
    pub validator : SettlementValidator
    pub signs : SignsWith validator
    pub outcome : Result OnChainAction ValidateError
    pub handled : handle_request c (mem_store c) req validator s ≡ (outcome, t)

  -- The requests that lead from one state of the store to another.
  pub data Serves : MemStore → MemStore → Type 0 where
    done : {s : MemStore} → Serves s s
    next : {s t u : MemStore} → Handles s t → Serves t u → Serves s u

module _ (c : Crates) (docs : IsDocumented c) (k : c.SigningKey) where
  abbrev uri_of : DecisionBinding → ResponseUri
  uri_of b = record { uri = mem_uri c (sign_decision c b k) }

  -- The store yields the receipt's bundle at the receipt's address.
  abbrev Holds : DecisionBinding → MemStore → Type 0
  Holds b s = mem_get s (uri_of b) ≡ ok (evidence_bundle_json c (sign_decision c b k))

  same_address :
      (a b : DecisionBinding)
      → mem_uri c (sign_decision c a k) ≡ mem_uri c (sign_decision c b k)
      → (a ≡ b) ⊎ Collision c
  unfolding sign_decision
  same_address a b e =
      let hash_of : (x : DecisionBinding) → embedded_hash (uri_of x) ≡ some (digest_hex c x) =
        λ x. embedded_hash-plain "mem://" (digest_hex c x) refl (digest_hex-IsHex c docs x) in
      let hashes : digest_hex c a ≡ digest_hex c b =
        some-injective _ _
          (sym (hash_of a) ∙ (ap (λ u. embedded_hash (record { uri = u })) e ∙ hash_of b)) in
      digest_commits c docs a b
        (digest_hex_injective c docs a b (rw hashes (eq_ignore_ascii_case_refl (digest_hex c b))))

  Holds-mem_put :
      (a b : DecisionBinding) (s : MemStore)
      → Holds b s
      → Holds b (mem_put c s (sign_decision c a k)).1 ⊎ Collision c
  Holds-mem_put a b s h =
      let now = mem_get-mem_put c s (sign_decision c a k) (uri_of b) in
      elim (Bool-cases (mem_uri c (sign_decision c a k) == mem_uri c (sign_decision c b k))) [
        | inr other ↦ inl (now ∙ rw other h)
        | inl here ↦ elim (same_address a b ((eq_iff _ _).0 here)) [
          | inl same ↦
              inl (now ∙ rw here (ap (λ x. ok (evidence_bundle_json c (sign_decision c x k))) same))
          | inr clash ↦ inr clash
        ]
      ]

  put_uri :
      (s : MemStore) (x : SignedDecision) {u : ResponseUri} {t : MemStore}
      → mem_put c s x ≡ (ok u, t)
      → record { uri = mem_uri c x } ≡ u
  unfolding mem_put
  put_uri s x h = ground arith

  Holds-outcome :
      (b : DecisionBinding) (req : ResolvedRequest) (validator : SettlementValidator)
      (s t : MemStore) (r : Result OnChainAction ValidateError)
      → SignsWith c k validator
      → HandleOutcome c (mem_store c) req validator s r t
      → Holds b s
      → Holds b t ⊎ Collision c
  Holds-outcome b req validator s t (ok (respond _ _ _ _ _)) signs (signed, v, _, _, put) h =
      let (a, made) = signs req signed v in
      subst (λ x. Holds b x ⊎ Collision c)
        (ap (λ x. (mem_put c s x).1) (sym made) ∙ ap (λ w. w.1) put) (Holds-mem_put a b s h)
  Holds-outcome b req validator s t (ok (abstain _ _)) signs (_, _, _, _, _, same) h =
      inl (subst (Holds b) (sym same) h)
  Holds-outcome b req validator s t (err e) signs (inl (_, same)) h =
      inl (subst (Holds b) (sym same) h)
  Holds-outcome b req validator s t (err e) signs (inr (signed, io, _, _, _, put)) h =
      elim (not-put_err c s signed put) [ ]

  Holds-Serves :
      (b : DecisionBinding) {s t : MemStore} → Serves c k s t → Holds b s → Holds b t ⊎ Collision c
  Holds-Serves b done h = inl h
  Holds-Serves b (next {s} {t} x rest) h =
      elim (Holds-outcome b x.req x.validator s t x.outcome x.signs
        (handle_request_outcome c (mem_store c) x.req x.validator s t x.outcome x.handled) h) [
          | inl still ↦ Holds-Serves b rest still
          | inr clash ↦ inr clash
        ]

  -- With crates as documented, a response on chain stays checkable: after any further requests that
  -- are handled over the same `MemStore` by validators of the same key, its address still yields a
  -- bundle that passes against its hash and the key and implies its score and tag, or SHA-256 has a
  -- collision.
  pub respond_survives :
      (req : ResolvedRequest) (validator : SettlementValidator) (s t later : MemStore) (points : ℕ)
      (request_hash uri hash tag : String)
      → SignsWith c k validator
      → handle_request c (mem_store c) req validator s
        ≡ (ok (respond request_hash points uri hash tag), t)
      → Serves c k t later
      → ((bundle : String) × (mem_get later (record { uri = uri }) ≡ ok bundle)
          × (verify_bundle c bundle hash (signer_text c k)
              ≡ ok (record { response = some points; tag = tag; response_hash = hash })))
        ⊎ Collision c
  respond_survives req validator s t later points request_hash uri hash tag signs e more =
      let lawful = mem_store-IsContentAddressed c docs in
      let answered = ok (respond request_hash points uri hash tag) in
      let (signed, v, _, _, put) =
        handle_request_outcome c (mem_store c) req validator s t answered e in
      let (b, made) = signs req signed v in
      let here : uri_of b ≡ record { uri = uri } =
        ap (λ x. record { uri = mem_uri c x }) (sym made) ∙ put_uri s signed put in
      let evidence : mem_get t (record { uri = uri })
          ≡ ok (evidence_bundle_json c (sign_decision c b k)) =
        lawful.get-put s t signed (record { uri = uri }) put
        ∙ ap (λ x. ok (evidence_bundle_json c x)) made in
      let (bundle, found, good) =
        (respond_verifies c docs (mem_store c) lawful req validator s t k b points request_hash uri
          hash tag (v ∙ ap ok made) e).1 in
      elim (Holds-Serves b more (ap (mem_get t) here ∙ evidence)) [
        | inl still ↦
            inl (bundle, ap (mem_get later) (sym here) ∙ (still ∙ (sym evidence ∙ found)), good)
        | inr clash ↦ inr clash
      ]
