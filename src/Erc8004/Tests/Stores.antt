-- ===== src/Erc8004/Tests/Stores.antt =====
-- The tests of src/erc8004/store.rs, as Boolean functions of the crates, the operator's key and the
-- store. `FileStore` stands in them for a store in the directory for temporary files.
use liquet.Common.{
  Bool, true, false, ◌&&◌, String, ◌==◌, Option, none, some, Result, ok, err, nat_eq,
}
use liquet.Common.{◌≡◌, refl, eq_refl}
use liquet.Common.Text.Laws.{eq_ignore_ascii_case_refl}
use liquet.Attest.{SignedDecision, new_binding}
use liquet.Attest.Crates.{Crates, IsDocumented}
use liquet.Attest.Verify.{digest_hex, sign_decision}
use liquet.Erc8004.{pass, tag_matched, verify_bundle, validation_response, score}
use liquet.Erc8004.Bundle.{verify-evidence_bundle_json}
use liquet.Erc8004.Store.{
  not_found, other_kind, IoError, ResponseUri, embedded_hash, EvidenceStore, IsContentAddressed,
}
use liquet.Erc8004.Store.Mem.{empty_store, len, mem_put, mem_get, mem_store}
use liquet.Erc8004.Tests.Cases.{matched_settle, gives, accepted}

-- `matched_signed` builds what `matched_settle` does.
abbrev pub matched_signed : (c : Crates) → c.SigningKey → SignedDecision
matched_signed c operator = matched_settle c operator

abbrev names : Option String → String → Bool
names none hash = false
names (some h) hash = h == hash

module _ (c : Crates) (operator : c.SigningKey) where
  module _ (S : EvidenceStore) where
    -- The bundle that is fetched passes, with the score and the tag of a match.
    abbrev fetched : Result String IoError → String → String → Bool
    fetched (err e) onchain_hash signer = false
    fetched (ok bundle) onchain_hash signer =
        accepted (gives (some pass) tag_matched) (verify_bundle c bundle onchain_hash signer)

    abbrev stored : Result ResponseUri IoError × S.State → Bool
    stored (err e, store) = false
    stored (ok uri, store) =
        let signed = matched_signed c operator in
        let onchain_hash = digest_hex c signed.binding in
        names (embedded_hash uri) onchain_hash
        && fetched (S.get store uri) onchain_hash signed.signer

    abbrev pub assert_store_fetch_verify : S.State → Bool
    assert_store_fetch_verify store = stored (S.put store (matched_signed c operator))

  abbrev pub mem_store_closes_the_loop : Bool
  mem_store_closes_the_loop = assert_store_fetch_verify (mem_store c) empty_store

  abbrev pub mem_store_put_is_idempotent_content_addressed : Bool
  mem_store_put_is_idempotent_content_addressed =
      let s = matched_signed c operator in
      nat_eq (len (mem_put c (mem_put c empty_store s).1 s).1) 1

  abbrev is_not_found : Result String IoError → Bool
  is_not_found (ok bundle) = false
  is_not_found (err e) = elim e.kind [ not_found ↦ true | other_kind ↦ false ]

  abbrev pub get_missing_uri_errors : Bool
  get_missing_uri_errors = is_not_found (mem_get empty_store (record { uri = "mem://deadbeef" }))

  -- With crates as documented, the test of a store passes for every store that keeps what its trait
  -- documents, whenever the put succeeds.
  pub assert_store_fetch_verify_lem :
      IsDocumented c
      → (S : EvidenceStore) → IsContentAddressed c S
      → (store next : S.State) (uri : ResponseUri)
      → S.put store (matched_signed c operator) ≡ (ok uri, next)
      → assert_store_fetch_verify S store ≡ true
  unfolding sign_decision validation_response score new_binding
  assert_store_fetch_verify_lem docs S lawful store next uri put =
      let signed = matched_signed c operator in
      let there = lawful.get-put store next signed uri put in
      let named = lawful.embedded store next signed uri put in
      let hash = digest_hex c signed.binding in
      let passed =
        verify-evidence_bundle_json c docs signed.binding operator hash signed.signer
          (eq_ignore_ascii_case_refl hash) (eq_ignore_ascii_case_refl signed.signer) in
      rw (put, there, named, eq_refl hash, passed) refl
