-- ===== src/Adapters/Custos/Sorting.antt =====
-- src/adapters/custos.rs, `proof_from_outcome`: the order in which the map yields its accounts is
-- forgotten.
use mathlib.Core.List.{Permᴰ}
use mathlib.Core.List.Permᴰ
use liquet.Common.{ℕ, ◌≡◌, refl, ap₂, ◌∙◌, sym, inl, inr, true, false}
use liquet.Common.{List, [], ◌∷◌, Option, arith, All, In, Bool-cases}
use liquet.Common.{length}
use liquet.Attest.Crates.{Crates, IsByte}
use liquet.Adapters.Custos.{
  Keys, bytes_le, AccountSnapshot, Snapshots, Outcome, key_le, insert_account, sort_accounts,
  proof_from_outcome,
}

bytes_le_total : (s t : List ℕ) → bytes_le s t ≡ false → bytes_le t s ≡ true
unfolding bytes_le
bytes_le_total [] t h = ground arith
bytes_le_total (a ∷ s) [] h = refl
bytes_le_total (a ∷ s) (b ∷ t) h = ground (arith, bytes_le_total s t)

bytes_le_antisym : (s t : List ℕ) → bytes_le s t ≡ true → bytes_le t s ≡ true → s ≡ t
unfolding bytes_le
bytes_le_antisym [] [] h k = refl
bytes_le_antisym [] (b ∷ t) h k = cc
bytes_le_antisym (a ∷ s) [] h k = cc
bytes_le_antisym (a ∷ s) (b ∷ t) h k =
    let same : a ≡ b = ground arith in
    ap₂ (λ x xs. x ∷ xs) same (bytes_le_antisym s t (ground arith) (ground arith))

bytes_le_trans : (s t u : List ℕ) → bytes_le s t ≡ true → bytes_le t u ≡ true → bytes_le s u ≡ true
unfolding bytes_le
bytes_le_trans [] t u h k = refl
bytes_le_trans (a ∷ s) [] u h k = cc
bytes_le_trans (a ∷ s) (b ∷ t) [] h k = cc
bytes_le_trans (a ∷ s) (b ∷ t) (c ∷ u) h k = ground (arith, bytes_le_trans s t u)

-- What a rearrangement holds was there before.
pub In-Perm : {A : Type 0} (x : A) {l m : List A} → Permᴰ l m → In x m → In x l
In-Perm x Permᴰ.nil h = h
In-Perm x (Permᴰ.cons e d) (inl h) = inl (h ∙ sym e)
In-Perm x (Permᴰ.cons e d) (inr h) = inr (In-Perm x d h)
In-Perm x (Permᴰ.swap e f) (inl h) = inr (inl (h ∙ sym f))
In-Perm x (Permᴰ.swap e f) (inr (inl h)) = inl (h ∙ sym e)
In-Perm x (Permᴰ.swap e f) (inr (inr h)) = inr (inr h)
In-Perm x (Permᴰ.trans d e) h = In-Perm x d (In-Perm x e h)

module _ (keys : Keys) where
  insert_account-Perm :
      (x : keys.Pubkey × Option (AccountSnapshot keys)) (m : Snapshots keys)
      → Permᴰ (x ∷ m) (insert_account keys x m)
  unfolding insert_account
  insert_account-Perm x [] = Permᴰ.refl (x ∷ [])
  insert_account-Perm x (y ∷ m) = elim (Bool-cases (key_le keys x y)) [
    | inl first ↦ rw first (Permᴰ.refl (x ∷ y ∷ m))
    | inr later ↦
        rw later (Permᴰ.trans (Permᴰ.swap refl refl) (Permᴰ.cons refl (insert_account-Perm x m)))
  ]

  pub sort_accounts-Perm : (m : Snapshots keys) → Permᴰ m (sort_accounts keys m)
  unfolding sort_accounts
  sort_accounts-Perm [] = Permᴰ.nil
  sort_accounts-Perm (x ∷ m) =
      Permᴰ.trans (Permᴰ.cons refl (sort_accounts-Perm m))
        (insert_account-Perm x (sort_accounts keys m))

-- What is documented of `Pubkey`, which wraps an array of 32 bytes, and of `{:x}`.
pub record IsKeys (keys : Keys) : Type 0 where
  pub key_bytes : (k : keys.Pubkey) → All IsByte (keys.to_bytes k)
  pub key_length : (k : keys.Pubkey) → length (keys.to_bytes k) ≡ 32
  pub to_bytes_injective : (j k : keys.Pubkey) → keys.to_bytes j ≡ keys.to_bytes k → j ≡ k
  pub lower_hex_injective :
      (s t : List ℕ) → All IsByte s → All IsByte t → keys.lower_hex s ≡ keys.lower_hex t → s ≡ t

module _ (keys : Keys) (docs : IsKeys keys) where
  abbrev Entry : Type 0
  Entry = keys.Pubkey × Option (AccountSnapshot keys)

  key_le_total : (x y : Entry) → key_le keys x y ≡ false → key_le keys y x ≡ true
  key_le_total x y = bytes_le_total _ _

  key_le_trans :
      (x y z : Entry) → key_le keys x y ≡ true → key_le keys y z ≡ true → key_le keys x z ≡ true
  key_le_trans x y z = bytes_le_trans _ _ _

  -- Two entries in strict order are put where they belong, whichever comes first.
  insert-insert :
      (x y : Entry) (l : Snapshots keys)
      → key_le keys x y ≡ true
      → key_le keys y x ≡ false
      → insert_account keys x (insert_account keys y l)
        ≡ insert_account keys y (insert_account keys x l)
  unfolding insert_account
  insert-insert x y [] h k = ground arith
  insert-insert x y (z ∷ l) h k = ground (
    arith,
    insert-insert x y l h k,
    key_le_trans x y z,
    key_le_trans y z x,
    key_le_total x z,
    key_le_total y z,
  )

  -- An entry is fixed by its key, as in a map.
  abbrev pub IsMap : Snapshots keys → Type 0
  IsMap m = (x y : Entry) → In x m → In y m → x.0 ≡ y.0 → x ≡ y

  insert_comm :
      (x y : Entry) (l : Snapshots keys)
      → (x.0 ≡ y.0 → x ≡ y)
      → insert_account keys x (insert_account keys y l)
        ≡ insert_account keys y (insert_account keys x l)
  insert_comm x y l fixed = elim (Bool-cases (key_le keys x y)) [
    | inl h ↦ elim (Bool-cases (key_le keys y x)) [
      | inl k ↦
          let same : x ≡ y = fixed (docs.to_bytes_injective x.0 y.0 (bytes_le_antisym _ _ h k)) in
          rw same refl
      | inr k ↦ insert-insert x y l h k
    ]
    | inr h ↦ sym (insert-insert y x l (key_le_total x y h) h)
  ]

  -- The sorted accounts do not depend on the order of the map.
  sort_accounts-perm :
      {m n : Snapshots keys} → Permᴰ m n → IsMap m → sort_accounts keys m ≡ sort_accounts keys n
  unfolding sort_accounts
  sort_accounts-perm Permᴰ.nil fixed = refl
  sort_accounts-perm (Permᴰ.cons {a} e d) fixed =
      ap₂ (insert_account keys) e (sort_accounts-perm d (λ x y i j. fixed x y (inr i) (inr j)))
  sort_accounts-perm (Permᴰ.swap {a} {b} {l = l} e f) fixed =
      rw (← e, ← f) (insert_comm a b (sort_accounts keys l) (fixed a b (inl refl) (inr (inl refl))))
  sort_accounts-perm (Permᴰ.trans d e) fixed =
      sort_accounts-perm d fixed
      ∙ sort_accounts-perm e (λ x y i j. fixed x y (In-Perm x d i) (In-Perm y d j))

  -- The proof, with its digest and its covered accounts, does not depend on the order in which the
  -- map of post snapshots is iterated, where a key has one snapshot and the bytes of a key
  -- determine it.
  pub proof_from_outcome-perm :
      (c : Crates) (o : Outcome keys) {post : Snapshots keys}
      → Permᴰ o.post post
      → IsMap o.post
      → proof_from_outcome keys c o ≡ proof_from_outcome keys c (record o { post = post })
  unfolding proof_from_outcome
  proof_from_outcome-perm c o {post} d fixed = rw (sort_accounts-perm d fixed) refl
