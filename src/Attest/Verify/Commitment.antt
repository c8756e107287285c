-- ===== src/Attest/Verify/Commitment.antt =====
-- src/attest.rs: what a digest and a signature bind.
use mathlib.Core.Option.{some-injective}
use mathlib.Core.List.{append_cancel_left}
use native.Mathlib.Decide.{ℕ_discrete}
use liquet.Common.{ℕ, ◌≡◌, ap, ap₂, ◌∙◌, sym, ◌≢◌, ◌⊎◌, inl, inr, true, String}
use liquet.Common.{List, ◌++◌, map, arith, ok, err, Bool-cases}
use liquet.Common.Text.{eq_ignore_ascii_case}
use liquet.Common.Text.Laws.{IsLower, eq_of_IsLower}
use liquet.Seam.{CrossVmProof, InvariantVerdict}
use liquet.Decide.{GatePolicy, LiquetDecision}
use liquet.Attest.{leg_digest, DecisionBinding, new_binding, signer_mismatch}
use liquet.Attest.Crates.{Crates, IsDocumented, Collision, IsHex}
use liquet.Attest.Verify.{
  domain, digest, signer_text, sign_decision, verify_self_consistent, verify_decision,
}
use liquet.Attest.Verify.Laws.{
  Parses-unique, verify_decision-eq_iff, sign_decision-Parses, SelfOutcome-unique,
  verify_self_consistent_sound,
}

pub bytes_discrete : Discrete (List ℕ)
bytes_discrete = hlevel ℕ_discrete

-- What two runs of the gate must agree on for their decisions to be bound alike.
pub record SameSettlement (p q : CrossVmProof) (v w : InvariantVerdict) (pol pol' : GatePolicy)
    (d e : LiquetDecision) : Type 0 where
  pub settlement_id : p.settlement_id ≡ q.settlement_id
  pub claim_hash : p.claim_hash ≡ q.claim_hash
  pub legs : map leg_digest p.legs ≡ map leg_digest q.legs
  pub reconcile : p.reconcile ≡ q.reconcile
  pub invariant : v ≡ w
  pub policy : pol ≡ pol'
  pub decision : d ≡ e

new_binding-SameSettlement :
    (p q : CrossVmProof) (v w : InvariantVerdict) (pol pol' : GatePolicy) (d e : LiquetDecision)
    → new_binding p v pol d ≡ new_binding q w pol' e
    → SameSettlement p q v w pol pol' d e
unfolding new_binding
new_binding-SameSettlement p q v w pol pol' d e h = record {
  settlement_id = ap (λ b. b.settlement_id) h;
  claim_hash = ap (λ b. b.claim_hash) h;
  legs = ap (λ b. b.legs) h;
  reconcile = ap (λ b. b.reconcile) h;
  invariant = ap (λ b. b.invariant) h;
  policy = λ i. record {
    max_settle_severity = (h i).policy.max_settle_severity;
    require_executed = (h i).policy.require_executed;
    require_recovered_facts = (h i).policy.require_recovered_facts;
  };
  decision = ap (λ b. b.decision) h;
}

pub IsHex-IsLower : (s : String) → IsHex s → IsLower s
IsHex-IsLower String.[] h = tt
IsHex-IsLower (String.◌∷◌ x s) (d, h) = (ground arith, IsHex-IsLower s h)

module _ (c : Crates) where
  -- A signature made over one digest that verifies over another.
  abbrev pub Forgery : c.SigningKey → DecisionBinding → DecisionBinding → Type 0
  Forgery k b b' =
      (digest c b' ≢ digest c b)
      × (c.verify_strict (c.verifying_key k) (digest c b') (c.sign k (digest c b)) ≡ true)

module _ (c : Crates) (docs : IsDocumented c) where
  -- Two bindings with one digest are equal, or SHA-256 has a collision.
  pub digest_commits : (a b : DecisionBinding) → digest c a ≡ digest c b → (a ≡ b) ⊎ Collision c
  unfolding digest
  digest_commits a b h = elim (bytes_discrete (c.binding_to_vec a) (c.binding_to_vec b)) [
    | yes same ↦ inl (docs.to_vec_injective a b same)
    | no differ ↦ inr (record {
      left = domain ++ c.binding_to_vec a;
      right = domain ++ c.binding_to_vec b;
      distinct = λ e. differ (append_cancel_left domain _ _ e);
      same_hash = h;
    })
  ]

  -- With crates as documented, two runs of the gate whose bindings have one digest agree on the
  -- settlement, on each leg's identity in order, on both verdicts, on the policy and on the
  -- decision, or SHA-256 has a collision.
  pub digest-new_binding :
      (p q : CrossVmProof) (v w : InvariantVerdict) (pol pol' : GatePolicy) (d e : LiquetDecision)
      → digest c (new_binding p v pol d) ≡ digest c (new_binding q w pol' e)
      → SameSettlement p q v w pol pol' d e ⊎ Collision c
  digest-new_binding p q v w pol pol' d e h =
      elim (digest_commits (new_binding p v pol d) (new_binding q w pol' e) h) [
        | inl same ↦ inl (new_binding-SameSettlement p q v w pol pol' d e same)
        | inr clash ↦ inr clash
      ]

  -- With crates as documented, if a receipt still verifies after its binding was replaced, the new
  -- binding is the signed one, or SHA-256 has a collision, or the signature is valid over a digest
  -- that was not signed.
  pub verify_tampered :
      (b b' : DecisionBinding) (k : c.SigningKey) (trusted : String)
      → verify_decision c (record (sign_decision c b k) { binding = b' }) trusted ≡ ok tt
      → (b' ≡ b) ⊎ (Collision c ⊎ Forgery c k b b')
  verify_tampered b b' k trusted h =
      let forged = record (sign_decision c b k) { binding = b' } in
      let (_, (vk, sig, p, good)) = (verify_decision-eq_iff c forged trusted (ok tt)).0 h in
      let (key, made) = Parses-unique c forged p (sign_decision-Parses c docs b b' k) in
      elim (bytes_discrete (digest c b') (digest c b)) [
        | no differ ↦ inr (
            inr
              (differ, ap₂ (λ x y. c.verify_strict x (digest c b') y) (sym key) (sym made) ∙ good))
        | yes same ↦ elim (digest_commits b' b same) [ inl e ↦ inl e | inr clash ↦ inr (inl clash) ]
      ]

  -- The texts of two keys agree up to case only if the keys are one.
  signer_text_injective :
      (k l : c.SigningKey)
      → eq_ignore_ascii_case (signer_text c k) (signer_text c l) ≡ true
      → c.verifying_key k ≡ c.verifying_key l
  signer_text_injective k l same =
      let bk = docs.key_bytes (c.verifying_key k) in
      let bl = docs.key_bytes (c.verifying_key l) in
      let texts : signer_text c k ≡ signer_text c l =
        eq_of_IsLower _ _ (IsHex-IsLower _ (docs.encode_hex _ bk))
          (IsHex-IsLower _ (docs.encode_hex _ bl)) same in
      let bytes : c.key_to_bytes (c.verifying_key k) ≡ c.key_to_bytes (c.verifying_key l) =
        some-injective _ _
          (sym (docs.decode-encode _ bk) ∙ (ap c.hex_decode texts ∙ docs.decode-encode _ bl)) in
      some-injective _ _
        (sym (docs.key_from-to _) ∙ (ap c.key_from_bytes bytes ∙ docs.key_from-to _))

  -- With crates as documented, a receipt that is signed with a key other than the trusted one
  -- passes the unpinned check, and the pinned check rejects it for its signer.
  pub verify_untrusted :
      (b : DecisionBinding) (attacker operator : c.SigningKey)
      → c.verifying_key attacker ≢ c.verifying_key operator
      → (verify_self_consistent c (sign_decision c b attacker) ≡ ok tt)
        × (verify_decision c (sign_decision c b attacker) (signer_text c operator)
            ≡ err signer_mismatch)
  unfolding sign_decision
  verify_untrusted b attacker operator differ =
      let receipt = sign_decision c b attacker in
      (
        SelfOutcome-unique c receipt _ (ok tt) (verify_self_consistent_sound c receipt) (
          c.verifying_key attacker,
          c.sign attacker (digest c b),
          sign_decision-Parses c docs b b attacker,
          docs.verify-sign attacker _,
        ),
        (verify_decision-eq_iff c receipt (signer_text c operator) (err signer_mismatch)).1
            (elim (Bool-cases
              (eq_ignore_ascii_case (signer_text c operator) (signer_text c attacker))) [
                | inl same ↦ absurd (differ (sym (signer_text_injective operator attacker same)))
                | inr other ↦ other
              ]),
      )
