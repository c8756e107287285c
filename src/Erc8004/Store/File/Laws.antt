-- ===== src/Erc8004/Store/File/Laws.antt =====
-- src/erc8004/store.rs: `FileStore` keeps the promise of the trait over a faithful disk.
use text.Mathlib.TextLemmas.{append_assoc, nil-append}
use liquet.Common.{String, ◌≡◌, refl, ap, sym, inl, inr, ◌<>◌, ◌==◌, some}
use liquet.Common.{Result, ok, err, true, false, if◌then◌else◌, arith, Bool-cases}
use liquet.Common.Text.{ends_with_slash, has_char, unwrap_or}
use liquet.Common.Text.Laws.{ends_with_slash-append, strip_prefix-append}
use liquet.Attest.{SignedDecision}
use liquet.Attest.Crates.{Crates, IsDocumented, IsHex}
use liquet.Attest.Verify.{digest_hex}
use liquet.Erc8004.{evidence_bundle_json}
use liquet.Erc8004.Store.{IoError, ResponseUri, embedded_hash, IsContentAddressed}
use liquet.Erc8004.Store.Address.{embedded_hash-json, json-no_slash, digest_hex-IsHex}
use liquet.Erc8004.Store.File.{
  FileSystem, IsFaithful, starts_with_slash, FileStore, path_for, uri_for, finish_put, after_create,
  file_put, file_get, file_store,
}

-- What stands in front of the name in the path, with its separator.
abbrev dir_of : String → String
dir_of root = if root == "" then "" else if ends_with_slash root then root else root <> "/"

pub relative : (s : String) → has_char b'/' s ≡ false → starts_with_slash s ≡ false
relative String.[] h = refl
relative (String.◌∷◌ c s) h = ground arith

path_for-dir_of :
    (store : FileStore) (hash : String)
    → IsHex hash
    → path_for store hash ≡ dir_of store.root <> (hash <> ".json")
unfolding path_for
path_for-dir_of store hash h =
    let name = relative (hash <> ".json") (json-no_slash hash h) in
    elim (Bool-cases (store.root == "")) [
      | inl bare ↦ rw (name, bare) (sym (nil-append (hash <> ".json")))
      | inr named ↦ elim (Bool-cases (ends_with_slash store.root)) [
        | inl slash ↦ rw (name, named, slash) refl
        | inr open_end ↦
            rw (name, named, open_end) (sym (append_assoc store.root "/" (hash <> ".json")))
      ]
    ]

scheme_slash : (root : String) → ends_with_slash ("file://" <> dir_of root) ≡ true
scheme_slash root = elim (Bool-cases (root == "")) [
  | inl bare ↦ rw bare refl
  | inr named ↦ elim (Bool-cases (ends_with_slash root)) [
    | inl slash ↦ rw (named, slash) (ends_with_slash-append "file://" root slash)
    | inr open_end ↦
        rw (named, open_end)
          (ends_with_slash-append "file://" (root <> "/") (ends_with_slash-append root "/" refl))
  ]
]

module _ (c : Crates) (docs : IsDocumented c) where
  pub address_of_path :
      (store : FileStore) (signed : SignedDecision)
      → let hash = digest_hex c signed.binding in
        embedded_hash (uri_for (path_for store hash)) ≡ some hash
  address_of_path store signed =
      let hash = digest_hex c signed.binding in
      let hex = digest_hex-IsHex c docs signed.binding in
      rw
        (
          path_for-dir_of store hash hex,
          ← append_assoc "file://" (dir_of store.root) (hash <> ".json"),
        )
        (embedded_hash-json ("file://" <> dir_of store.root) hash (scheme_slash store.root) hex)

  module _ (fs : FileSystem) where
    finish_put-eq-ok :
        (path : String) (w : Result (Unit {0}) IoError × fs.Disk) {u : ResponseUri} {d' : fs.Disk}
        → finish_put c fs path w ≡ (ok u, d')
        → (u ≡ uri_for path) × (w ≡ (ok tt, d'))
    finish_put-eq-ok path (ok _, d) h = ground arith
    finish_put-eq-ok path (err e, d) h = cc (ap (λ r. r.0) h)

    after_create-eq-ok :
        (path text : String) (w : Result (Unit {0}) IoError × fs.Disk) {u : ResponseUri}
        {d' : fs.Disk}
        → after_create c fs path text w ≡ (ok u, d')
        → (u ≡ uri_for path) × (fs.write w.1 path text ≡ (ok tt, d'))
    after_create-eq-ok path text (ok _, d) h = finish_put-eq-ok path (fs.write d path text) h
    after_create-eq-ok path text (err e, d) h = cc (ap (λ r. r.0) h)

    pub file_get-uri_for :
        (d : fs.Disk) (path : String) → file_get c fs d (uri_for path) ≡ fs.read_to_string d path
    unfolding file_get
    file_get-uri_for d path =
        ap (λ o. fs.read_to_string d (unwrap_or o ("file://" <> path)))
          (strip_prefix-append "file://" path)

    -- A put that succeeds gives the address of the hash's file, and has written the bundle there
    -- after it created the root.
    pub file_put-eq-ok :
        (store : FileStore) (d d' : fs.Disk) (signed : SignedDecision) (u : ResponseUri)
        → file_put c fs store d signed ≡ (ok u, d')
        → let path = path_for store (digest_hex c signed.binding) in
          (u ≡ uri_for path)
          × (fs.write (fs.create_dir_all d store.root).1 path (evidence_bundle_json c signed)
              ≡ (ok tt, d'))
    unfolding file_put
    file_put-eq-ok store d d' signed u h = after_create-eq-ok _ _ (fs.create_dir_all d store.root) h

    -- With crates as documented, `FileStore` keeps the promise of the trait over a disk that reads
    -- back what was written: the address of a put that succeeds carries the receipt's hash, and
    -- yields its bundle.
    pub file_store-IsContentAddressed :
        (store : FileStore) → IsFaithful fs → IsContentAddressed c (file_store c fs store)
    file_store-IsContentAddressed store faithful = record {
      embedded = λ d d' signed u h.
          rw ((file_put-eq-ok store d d' signed u h).0) (address_of_path store signed);
      get-put = λ d d' signed u h.
          let (here, written) = file_put-eq-ok store d d' signed u h in
          let path = path_for store (digest_hex c signed.binding) in
          rw (here, file_get-uri_for d' path)
            (faithful.read-write _ d' path (evidence_bundle_json c signed) written);
    }
