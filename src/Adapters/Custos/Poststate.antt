-- ===== src/Adapters/Custos/Poststate.antt =====
-- src/adapters/custos.rs, `proof_from_outcome`: the bytes fed to the hash determine the accounts.
use liquet.Common.{ℕ, ◌^◌, ◌<◌, ◌≡◌, refl, ap, ap₂, ◌∙◌, sym, ◌≢◌, ◌⊎◌, inl, inr}
use liquet.Common.{
  List, [], ◌∷◌, ◌++◌, length, append-eq-nil, Option, none, some, arith, All, Bool-cases,
}
use mathlib.Core.List.{Permᴰ, append_cancel_left, append_assoc}
use mathlib.Core.List.Permᴰ
use liquet.Attest.Crates.{Crates, IsDocumented, Collision}
use liquet.Attest.Verify.Commitment.{bytes_discrete}
use liquet.Adapters.Custos.{
  Keys, le_bytes, AccountSnapshot, Snapshots, Outcome, key_le, insert_account, sort_accounts,
  account_bytes, accounts_bytes, poststate_domain, poststate_digest, proof_from_outcome,
}
use liquet.Adapters.Custos.Bytes.{split, read_u64}
use liquet.Adapters.Custos.Sorting.{IsKeys, sort_accounts-Perm}

module _ (keys : Keys) (docs : IsKeys keys) where
  -- Balances and lengths are machine integers.
  abbrev IsAccount : keys.Pubkey × Option (AccountSnapshot keys) → Type 0
  IsAccount (k, none) = Unit
  IsAccount (k, some s) = (s.lamports < 2 ^ 64) × (length s.contents < 2 ^ 64)

  read_key :
      (j k : keys.Pubkey) (us vs : List ℕ)
      → keys.to_bytes j ++ us ≡ keys.to_bytes k ++ vs
      → (j ≡ k) × (us ≡ vs)
  read_key j k us vs e =
      let (here, there) =
        split (keys.to_bytes j) (keys.to_bytes k) us vs
          (docs.key_length j ∙ sym (docs.key_length k)) e in
      (docs.to_bytes_injective j k here, there)

  -- The bytes of a snapshot, after the mark that one is there.
  abbrev snapshot_bytes : AccountSnapshot keys → List ℕ → List ℕ
  snapshot_bytes s rest =
      le_bytes 8 s.lamports
      ++ (keys.to_bytes s.owner ++ (le_bytes 8 (length s.contents) ++ (s.contents ++ rest)))

  read_snapshot :
      (s t : AccountSnapshot keys) (us vs : List ℕ)
      → (s.lamports < 2 ^ 64) × (length s.contents < 2 ^ 64)
      → (t.lamports < 2 ^ 64) × (length t.contents < 2 ^ 64)
      → snapshot_bytes s us ≡ snapshot_bytes t vs
      → (s ≡ t) × (us ≡ vs)
  read_snapshot s t us vs h j e =
      let (money, e) = read_u64 s.lamports t.lamports _ _ h.0 j.0 e in
      let (owner, e) = read_key s.owner t.owner _ _ e in
      let (size, e) = read_u64 (length s.contents) (length t.contents) _ _ h.1 j.1 e in
      let (body, e) = split s.contents t.contents us vs size e in
      (λ i. record { lamports = money i; owner = owner i; contents = body i }, e)

  account_bytes-some :
      (k : keys.Pubkey) (s : AccountSnapshot keys) (rest : List ℕ)
      → account_bytes keys (k, some s) ++ rest ≡ keys.to_bytes k ++ (1 ∷ snapshot_bytes s rest)
  account_bytes-some k s rest =
      rw
        (
          append_assoc (keys.to_bytes k),
          append_assoc (le_bytes 8 s.lamports),
          append_assoc (keys.to_bytes s.owner),
          append_assoc (le_bytes 8 (length s.contents)),
        )
        refl

  account_bytes-none :
      (k : keys.Pubkey) (rest : List ℕ)
      → account_bytes keys (k, none) ++ rest ≡ keys.to_bytes k ++ (0 ∷ rest)
  account_bytes-none k rest = append_assoc (keys.to_bytes k) (0 ∷ []) rest

  -- One account is read back, with what follows it.
  read_account :
      (x y : keys.Pubkey × Option (AccountSnapshot keys)) (us vs : List ℕ)
      → IsAccount x
      → IsAccount y
      → account_bytes keys x ++ us ≡ account_bytes keys y ++ vs
      → (x ≡ y) × (us ≡ vs)
  read_account (j, none) (k, none) us vs h i e =
      let (key, e) =
        read_key j k _ _ (sym (account_bytes-none j us) ∙ (e ∙ account_bytes-none k vs)) in
      (ap (λ a. (a, none)) key, ground arith)
  read_account (j, none) (k, some t) us vs h i e =
      let (key, e) =
        read_key j k _ _ (sym (account_bytes-none j us) ∙ (e ∙ account_bytes-some k t vs)) in
      ground arith
  read_account (j, some s) (k, none) us vs h i e =
      let (key, e) =
        read_key j k _ _ (sym (account_bytes-some j s us) ∙ (e ∙ account_bytes-none k vs)) in
      ground arith
  read_account (j, some s) (k, some t) us vs h i e =
      let (key, e) =
        read_key j k _ _ (sym (account_bytes-some j s us) ∙ (e ∙ account_bytes-some k t vs)) in
      let (snapshot, rest) = read_snapshot s t us vs h i (ground arith) in
      (ap₂ (λ a b. (a, some b)) key snapshot, rest)

  account_bytes-ne-nil :
      (x : keys.Pubkey × Option (AccountSnapshot keys)) (rest : List ℕ)
      → account_bytes keys x ++ rest ≢ []
  account_bytes-ne-nil (k, none) rest e =
      cc ((append-eq-nil _ (0 ∷ rest)).0 (sym (account_bytes-none k rest) ∙ e)).1
  account_bytes-ne-nil (k, some s) rest e =
      cc ((append-eq-nil _ (1 ∷ snapshot_bytes s rest)).0 (sym (account_bytes-some k s rest) ∙ e)).1

  -- The bytes of the accounts determine them.
  accounts_bytes_injective :
      (m n : Snapshots keys)
      → All IsAccount m
      → All IsAccount n
      → accounts_bytes keys m ≡ accounts_bytes keys n
      → m ≡ n
  accounts_bytes_injective [] [] h i e = refl
  accounts_bytes_injective [] (y ∷ n) h i e = elim (account_bytes-ne-nil y _ (sym e)) [ ]
  accounts_bytes_injective (x ∷ m) [] h i e = elim (account_bytes-ne-nil x _ e) [ ]
  accounts_bytes_injective (x ∷ m) (y ∷ n) h i e =
      let (here, there) = read_account x y _ _ h.0 i.0 e in
      ap₂ (λ z zs. z ∷ zs) here (accounts_bytes_injective m n h.1 i.1 there)

  insert_account-IsAccount :
      (x : keys.Pubkey × Option (AccountSnapshot keys)) (m : Snapshots keys)
      → IsAccount x
      → All IsAccount m
      → All IsAccount (insert_account keys x m)
  unfolding insert_account
  insert_account-IsAccount x [] h i = (h, tt)
  insert_account-IsAccount x (y ∷ m) h i = elim (Bool-cases (key_le keys x y)) [
    | inl first ↦ rw first (h, i)
    | inr later ↦ rw later (i.0, insert_account-IsAccount x m h i.1)
  ]

  sort_accounts-IsAccount :
      (m : Snapshots keys) → All IsAccount m → All IsAccount (sort_accounts keys m)
  unfolding sort_accounts
  sort_accounts-IsAccount [] h = tt
  sort_accounts-IsAccount (x ∷ m) h =
      insert_account-IsAccount x (sort_accounts keys m) h.0 (sort_accounts-IsAccount m h.1)

  module _ (c : Crates) (crates : IsDocumented c) where
    poststate_digest-commits :
        (m n : Snapshots keys)
        → All IsAccount m
        → All IsAccount n
        → poststate_digest keys c m ≡ poststate_digest keys c n
        → (m ≡ n) ⊎ Collision c
    unfolding poststate_digest
    poststate_digest-commits m n h i e =
        elim (bytes_discrete (accounts_bytes keys m) (accounts_bytes keys n)) [
          | yes same ↦ inl (accounts_bytes_injective m n h i same)
          | no differ ↦ inr (record {
            left = poststate_domain keys ++ accounts_bytes keys m;
            right = poststate_domain keys ++ accounts_bytes keys n;
            distinct = λ k. differ (append_cancel_left (poststate_domain keys) _ _ k);
            same_hash =
                docs.lower_hex_injective _ _ (crates.sha256_bytes _) (crates.sha256_bytes _) e;
          })
        ]

    -- With crates as documented, two outcomes whose proofs have one poststate digest have the same
    -- accounts after execution, the missing ones included, up to the order of their maps, or
    -- SHA-256 has a collision, where balances and data lengths are integers of 64 bits.
    pub proof_from_outcome-commits :
        (o o' : Outcome keys)
        → All IsAccount o.post
        → All IsAccount o'.post
        → (proof_from_outcome keys c o).poststate_digest
          ≡ (proof_from_outcome keys c o').poststate_digest
        → Permᴰ o.post o'.post ⊎ Collision c
    unfolding proof_from_outcome
    proof_from_outcome-commits o o' h i e =
        elim (poststate_digest-commits _ _ (sort_accounts-IsAccount o.post h)
          (sort_accounts-IsAccount o'.post i) e) [
            | inl same ↦ inl (
                Permᴰ.trans (sort_accounts-Perm keys o.post)
                  (rw same (Permᴰ.symm (sort_accounts-Perm keys o'.post))))
            | inr clash ↦ inr clash
          ]
