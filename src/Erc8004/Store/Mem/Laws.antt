-- ===== src/Erc8004/Store/Mem/Laws.antt =====
-- src/erc8004/store.rs: what `MemStore` holds after any number of puts.
use liquet.Common.{ℕ, ◌+◌, ◌≡◌, refl, ap, ◌∙◌, subst, ◌≢◌, String, ◌==◌, eq_iff, eq_refl}
use liquet.Common.{List, [], ◌∷◌, Option, none, some, Result, ok, err, length}
use liquet.Common.{if◌then◌else◌, arith}
use liquet.Attest.{DecisionBinding, SignedDecision, signer_mismatch}
use liquet.Attest.Crates.{Crates, IsDocumented}
use liquet.Attest.Verify.{digest_hex, signer_text, sign_decision}
use liquet.Attest.Verify.Commitment.{verify_untrusted}
use liquet.Erc8004.{evidence_bundle_json, verify, verify_bundle}
use liquet.Erc8004.Bundle.{verify_bundle-eq_iff}
use liquet.Erc8004.Store.{IoError, ResponseUri, embedded_hash, IsContentAddressed}
use liquet.Erc8004.Store.Address.{embedded_hash-plain, digest_hex-IsHex}
use liquet.Erc8004.Store.Mem.{lookup, insert, MemStore, len, mem_get, mem_uri, mem_put, mem_store}
use liquet.Common.Text.Laws.{eq_ignore_ascii_case_refl}

pub lookup-insert :
    (k v j : String) (m : List (String × String))
    → lookup j (insert k v m) ≡ (if k == j then some v else lookup j m)
unfolding lookup insert
lookup-insert k v j [] = refl
lookup-insert k v j ((i, w) ∷ m) =
    ground (arith, eq_iff k j, eq_iff i k, eq_iff i j, lookup-insert k v j m)

insert-insert :
    (k v : String) (m : List (String × String)) → insert k v (insert k v m) ≡ insert k v m
unfolding insert
insert-insert k v [] = rw (eq_refl k) refl
insert-insert k v ((i, w) ∷ m) = ground (arith, eq_iff i k, eq_iff k k, insert-insert k v m)

-- One more entry if the key is new, and none if it is there.
abbrev grown : Option String → ℕ
grown none = 1
grown (some _) = 0

length-insert :
    (k v : String) (m : List (String × String))
    → length (insert k v m) ≡ length m + grown (lookup k m)
unfolding insert lookup
length-insert k v [] = omega arith
length-insert k v ((i, w) ∷ m) = ground (arith, eq_iff i k, length-insert k v m)

module _ (c : Crates) where
  -- The store after the puts, in their order.
  abbrev pub put_all : MemStore → List SignedDecision → MemStore
  put_all s [] = s
  put_all s (x ∷ xs) = put_all (mem_put c s x).1 xs

  -- The last of the receipts that has the address `u`, if one has.
  abbrev pub latest : String → List SignedDecision → Option SignedDecision
  latest u [] = none
  latest u (x ∷ xs) =
      let later = latest u xs in
      elim later [ some y ↦ some y | none ↦ if mem_uri c x == u then some x else none ]

  abbrev pub found : Option SignedDecision → Result String IoError → Result String IoError
  found (some x) before = ok (evidence_bundle_json c x)
  found none before = before

  pub not-put_err :
      (s : MemStore) (x : SignedDecision) {io : IoError} {t : MemStore}
      → ¬ (mem_put c s x ≡ (err io, t))
  unfolding mem_put
  not-put_err s x h = cc (ap (λ r. r.0) h)

  pub mem_get-mem_put :
      (s : MemStore) (x : SignedDecision) (u : ResponseUri)
      → mem_get (mem_put c s x).1 u
        ≡ (if mem_uri c x == u.uri then ok (evidence_bundle_json c x) else mem_get s u)
  unfolding mem_get mem_put
  mem_get-mem_put s x u =
      rw (lookup-insert (mem_uri c x) (evidence_bundle_json c x) u.uri s.by_uri) (ground arith)

  -- After any puts an address yields the bundle of the last receipt that was put under it, and what
  -- it yielded before if there is none.
  pub mem_get-put_all :
      (xs : List SignedDecision) (s : MemStore) (u : ResponseUri)
      → mem_get (put_all s xs) u ≡ found (latest u.uri xs) (mem_get s u)
  mem_get-put_all [] s u = refl
  mem_get-put_all (x ∷ xs) s u =
      ground (arith, mem_get-put_all xs (mem_put c s x).1 u, mem_get-mem_put s x u)

  -- Putting a receipt a second time changes nothing, and a put adds one bundle at most: none if the
  -- address is taken, and one if it is free.
  mem_put_idempotent :
      (s : MemStore) (x : SignedDecision)
      → ((mem_put c (mem_put c s x).1 x).1 ≡ (mem_put c s x).1)
        × (len (mem_put c s x).1 ≡ len s + grown (lookup (mem_uri c x) s.by_uri))
  unfolding mem_put
  mem_put_idempotent s x = (
    ap (λ m. record { by_uri = m })
        (insert-insert (mem_uri c x) (evidence_bundle_json c x) s.by_uri),
    length-insert (mem_uri c x) (evidence_bundle_json c x) s.by_uri,
  )

module _ (c : Crates) (docs : IsDocumented c) where
  -- With crates as documented, `MemStore` keeps the promise of the trait: the address of a put
  -- carries the receipt's hash, and yields its bundle.
  pub mem_store-IsContentAddressed : IsContentAddressed c (mem_store c)
  unfolding mem_put
  mem_store-IsContentAddressed = record {
    embedded = λ s t signed u h.
        let e : record { uri = mem_uri c signed } ≡ u = ground arith in
        subst (λ w. embedded_hash w ≡ some (digest_hex c signed.binding)) e
          (embedded_hash-plain "mem://" (digest_hex c signed.binding) refl
            (digest_hex-IsHex c docs signed.binding));
    get-put = λ s t signed u h.
        let here : record { uri = mem_uri c signed } ≡ u = ground arith in
        let after : (mem_put c s signed).1 ≡ t = ap (λ r. r.1) h in
        rw (← here, ← after)
          (mem_get-mem_put c s signed (record { uri = mem_uri c signed })
            ∙ rw (eq_refl (mem_uri c signed)) refl);
  }

  -- With crates as documented, the address covers the binding and not the signer: when a key other
  -- than the operator's signs the same binding and its receipt is put, the address of the
  -- operator's receipt yields the other one, which fails the check against the operator's key.
  pub mem_put_replaces :
      (s : MemStore) (b : DecisionBinding) (operator attacker : c.SigningKey)
      → c.verifying_key attacker ≢ c.verifying_key operator
      → let first = sign_decision c b operator in
        let second = sign_decision c b attacker in
        let both = put_all c s (first ∷ second ∷ []) in
        (mem_get both (record { uri = mem_uri c first }) ≡ ok (evidence_bundle_json c second))
        × (verify_bundle c (evidence_bundle_json c second) (digest_hex c b) (signer_text c operator)
            ≡ err (verify signer_mismatch))
  unfolding sign_decision
  mem_put_replaces s b operator attacker differ =
      let second = sign_decision c b attacker in
      (
        mem_get-put_all c (sign_decision c b operator ∷ second ∷ []) s
              (record { uri = mem_uri c second })
            ∙ ground (arith, eq_refl (mem_uri c second)),
        (verify_bundle-eq_iff c (evidence_bundle_json c second) (digest_hex c b)
              (signer_text c operator) (err (verify signer_mismatch))).1
            (
              second,
              (docs.from-to_string second, eq_ignore_ascii_case_refl (digest_hex c b)),
              (verify_untrusted c docs b attacker operator differ).1,
            ),
      )
