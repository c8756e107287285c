-- ===== src/Attest/Verify/Laws.antt =====
-- src/attest.rs: every outcome of the verifications, and the round trip with signing.
use liquet.Common.{ℕ, ◌≡◌, refl, ap, ◌∙◌, sym, ◌↔◌, inl, inr, true, false, String}
use liquet.Common.{List, some, length, nat_eq, nat_eq_iff, arith, Result, ok, err}
use liquet.Common.{Option-cases, Bool-cases}
use mathlib.Core.Path.{subst}
use mathlib.Core.Option.{some-injective}
use liquet.Common.Text.{eq_ignore_ascii_case}
use liquet.Attest.{
  DecisionBinding, SignedDecision, VerifyError, signer_mismatch, malformed, bad_signature,
}
use liquet.Attest.Crates.{Crates, IsDocumented}
use liquet.Attest.Verify.{
  digest, signer_text, sign_decision, verify_self_consistent, verify_decision,
}

module _ (c : Crates) where
  -- The texts of a receipt stand for a key and a signature.
  pub record Parses (signed : SignedDecision) (vk : c.VerifyingKey) (sig : c.Signature)
      : Type 0 where
    pub key_bytes : List ℕ
    pub signature_bytes : List ℕ
    pub key_text : c.hex_decode signed.signer ≡ some key_bytes
    pub key_length : length key_bytes ≡ 32
    pub key : c.key_from_bytes key_bytes ≡ some vk
    pub signature_text : c.hex_decode signed.signature ≡ some signature_bytes
    pub signature : c.signature_from_slice signature_bytes ≡ some sig

  -- What each outcome of the unpinned check says.
  abbrev SelfOutcome : SignedDecision → Result (Unit {0}) VerifyError → Type 0
  SelfOutcome signed (ok _) =
      (vk : c.VerifyingKey) × (sig : c.Signature) × Parses signed vk sig
      × (c.verify_strict vk (digest c signed.binding) sig ≡ true)
  SelfOutcome signed (err bad_signature) =
      (vk : c.VerifyingKey) × (sig : c.Signature) × Parses signed vk sig
      × (c.verify_strict vk (digest c signed.binding) sig ≡ false)
  SelfOutcome signed (err malformed) =
      (vk : c.VerifyingKey) (sig : c.Signature) → ¬ Parses signed vk sig
  SelfOutcome signed (err signer_mismatch) = ⊥

  pub verify_self_consistent_sound :
      (signed : SignedDecision) → SelfOutcome signed (verify_self_consistent c signed)
  unfolding verify_self_consistent
  verify_self_consistent_sound signed = elim (Option-cases (c.hex_decode signed.signer)) [
    | inl e ↦ rw e (λ vk sig p. ground arith)
    | inr (pk, e) ↦ elim (Bool-cases (nat_eq (length pk) 32)) [
      | inr long ↦ rw (e, long) (λ vk sig p. ground arith)
      | inl fits ↦ elim (Option-cases (c.key_from_bytes pk)) [
        | inl k ↦ rw (e, fits, k) (λ vk sig p. ground arith)
        | inr (vk, k) ↦ elim (Option-cases (c.hex_decode signed.signature)) [
          | inl d ↦ rw (e, fits, k, d) (λ v sig p. ground arith)
          | inr (sb, d) ↦ elim (Option-cases (c.signature_from_slice sb)) [
            | inl g ↦ rw (e, fits, k, d, g) (λ v sig p. ground arith)
            | inr (sig, g) ↦
                let parses : Parses signed vk sig = record {
                  key_bytes = pk;
                  signature_bytes = sb;
                  key_text = e;
                  key_length = (nat_eq_iff _ _).0 fits;
                  key = k;
                  signature_text = d;
                  signature = g;
                } in
                elim (Bool-cases (c.verify_strict vk (digest c signed.binding) sig)) [
                  | inl good ↦ rw (e, fits, k, d, g, good) (vk, sig, parses, good)
                  | inr bad ↦ rw (e, fits, k, d, g, bad) (vk, sig, parses, bad)
                ]
          ]
        ]
      ]
    ]
  ]

  -- A receipt stands for at most one key and signature.
  pub Parses-unique :
      (signed : SignedDecision) {vk vk' : c.VerifyingKey} {sig sig' : c.Signature}
      → Parses signed vk sig
      → Parses signed vk' sig'
      → (vk ≡ vk') × (sig ≡ sig')
  Parses-unique signed {vk} {vk'} {sig} {sig'} p q =
      let keys : p.key_bytes ≡ q.key_bytes = some-injective _ _ (sym p.key_text ∙ q.key_text) in
      let sigs : p.signature_bytes ≡ q.signature_bytes =
        some-injective _ _ (sym p.signature_text ∙ q.signature_text) in
      (
        some-injective _ _ (sym p.key ∙ (ap c.key_from_bytes keys ∙ q.key)),
        some-injective _ _ (sym p.signature ∙ (ap c.signature_from_slice sigs ∙ q.signature)),
      )

  pub SelfOutcome-unique :
      (signed : SignedDecision) (r r' : Result (Unit {0}) VerifyError)
      → SelfOutcome signed r
      → SelfOutcome signed r'
      → r ≡ r'
  SelfOutcome-unique signed (ok u) (ok w) h k = refl
  SelfOutcome-unique signed (err bad_signature) (err bad_signature) h k = refl
  SelfOutcome-unique signed (err malformed) (err malformed) h k = refl
  SelfOutcome-unique signed (ok u) (err malformed) (vk, sig, p, _) k = absurd (k vk sig p)
  SelfOutcome-unique signed (err bad_signature) (err malformed) (vk, sig, p, _) k =
      absurd (k vk sig p)
  SelfOutcome-unique signed (err malformed) (ok u) k (vk, sig, p, _) = absurd (k vk sig p)
  SelfOutcome-unique signed (err malformed) (err bad_signature) k (vk, sig, p, _) =
      absurd (k vk sig p)
  SelfOutcome-unique signed (ok u) (err bad_signature) (vk, sig, p, good) (vk', sig', q, bad) =
      let (e, d) = Parses-unique signed p q in cc
  SelfOutcome-unique signed (err bad_signature) (ok u) (vk, sig, p, bad) (vk', sig', q, good) =
      let (e, d) = Parses-unique signed p q in cc
  SelfOutcome-unique signed (err signer_mismatch) _ h k = elim h [ ]
  SelfOutcome-unique signed _ (err signer_mismatch) h k = elim k [ ]

  -- What each outcome of the pinned check says.
  abbrev pub Outcome : SignedDecision → String → Result (Unit {0}) VerifyError → Type 0
  Outcome signed trusted (err signer_mismatch) = eq_ignore_ascii_case trusted signed.signer ≡ false
  Outcome signed trusted r =
      (eq_ignore_ascii_case trusted signed.signer ≡ true) × SelfOutcome signed r

  Outcome_unique :
      (signed : SignedDecision) (trusted : String) (r r' : Result (Unit {0}) VerifyError)
      → Outcome signed trusted r
      → Outcome signed trusted r'
      → r ≡ r'
  Outcome_unique signed trusted (err signer_mismatch) (err signer_mismatch) h k = refl
  Outcome_unique signed trusted (err signer_mismatch) _ h k = cc k.0
  Outcome_unique signed trusted _ (err signer_mismatch) h k = cc h.0
  Outcome_unique signed trusted r r' h k = SelfOutcome-unique signed r r' h.1 k.1

  Outcome_of_Self :
      (signed : SignedDecision) (trusted : String) (r : Result (Unit {0}) VerifyError)
      → eq_ignore_ascii_case trusted signed.signer ≡ true
      → SelfOutcome signed r
      → Outcome signed trusted r
  Outcome_of_Self signed trusted (ok u) e h = (e, h)
  Outcome_of_Self signed trusted (err bad_signature) e h = (e, h)
  Outcome_of_Self signed trusted (err malformed) e h = (e, h)
  Outcome_of_Self signed trusted (err signer_mismatch) e h = elim h [ ]

  verify_decision_sound :
      (signed : SignedDecision) (trusted : String)
      → Outcome signed trusted (verify_decision c signed trusted)
  unfolding verify_decision
  verify_decision_sound signed trusted =
      elim (Bool-cases (eq_ignore_ascii_case trusted signed.signer)) [
        | inl same ↦ rw same (
            Outcome_of_Self signed trusted (verify_self_consistent c signed) same
              (verify_self_consistent_sound signed))
        | inr differ ↦ rw differ differ
      ]

  -- Verification gives an outcome exactly when the receipt is as that outcome says: a signer that
  -- is not the trusted one up to case; texts that are no 32-byte key and no signature; a signature
  -- that is not one over the binding's digest; or a signature by the trusted key over that digest.
  pub verify_decision-eq_iff :
      (signed : SignedDecision) (trusted : String) (r : Result (Unit {0}) VerifyError)
      → (verify_decision c signed trusted ≡ r) ↔ Outcome signed trusted r
  verify_decision-eq_iff signed trusted r = (
    λ e. subst (Outcome signed trusted) e (verify_decision_sound signed trusted),
    λ h. Outcome_unique signed trusted _ r (verify_decision_sound signed trusted) h,
  )

module _ (c : Crates) (docs : IsDocumented c) where
  -- The texts of a signed receipt stand for the key and the signature, whatever the binding is now.
  pub sign_decision-Parses :
      (b b' : DecisionBinding) (k : c.SigningKey)
      → Parses c
          (record (sign_decision c b k) { binding = b' })
          (c.verifying_key k)
          (c.sign k (digest c b))
  unfolding sign_decision
  sign_decision-Parses b b' k = record {
    key_bytes = c.key_to_bytes (c.verifying_key k);
    signature_bytes = c.signature_to_bytes (c.sign k (digest c b));
    key_text = docs.decode-encode _ (docs.key_bytes _);
    key_length = docs.key_length _;
    key = docs.key_from-to _;
    signature_text = docs.decode-encode _ (docs.signature_bytes _);
    signature = docs.signature_from-to _;
  }

  -- With crates as documented, a receipt that was signed with a key verifies against the text of
  -- that key in either case.
  pub verify-sign_decision :
      (b : DecisionBinding) (k : c.SigningKey) (trusted : String)
      → eq_ignore_ascii_case trusted (signer_text c k) ≡ true
      → verify_decision c (sign_decision c b k) trusted ≡ ok tt
  unfolding sign_decision
  verify-sign_decision b k trusted same =
      (verify_decision-eq_iff c (sign_decision c b k) trusted (ok tt)).1 (
        same,
        (
          c.verifying_key k,
          c.sign k (digest c b),
          sign_decision-Parses b b k,
          docs.verify-sign k _,
        ),
      )
