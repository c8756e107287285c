-- ===== src/Erc8004/Store/File/History.antt =====
-- src/erc8004/store.rs: what `FileStore` still yields after further puts, some of which fail.
use mathlib.Core.Option.{some-injective}
use liquet.Common.{String, ◌≡◌, refl, ap, ◌∙◌, sym, subst, ◌≢◌, ◌⊎◌, inl, inr, ◌<>◌, ◌==◌, eq_iff}
use liquet.Common.{Bool, Bool-cases, Result, ok, err, true, false, some}
use liquet.Common.Text.{has_char}
use liquet.Common.Text.Laws.{eq_ignore_ascii_case_refl}
use liquet.Attest.{SignedDecision}
use liquet.Attest.Crates.{Crates, IsDocumented, Collision}
use liquet.Attest.Verify.{digest_hex}
use liquet.Attest.Verify.Commitment.{digest_commits}
use liquet.Erc8004.{evidence_bundle_json}
use liquet.Erc8004.Bundle.{digest_hex_injective}
use liquet.Erc8004.Store.{IoError, ResponseUri, embedded_hash}
use liquet.Erc8004.Store.Address.{json-no_slash, digest_hex-IsHex}
use liquet.Erc8004.Store.File.{
  FileSystem, IsFaithful, FileStore, join_path, path_for, uri_for, finish_put, after_create,
  file_put, file_get,
}
use liquet.Erc8004.Store.File.Laws.{address_of_path, file_get-uri_for, file_put-eq-ok}

-- Creating a directory and writing a file, whether they succeed or fail, leave the other files of
-- the directory as they are, where none of its files is a link to another.
pub record IsFramed (fs : FileSystem) (dir : String) : Type 0 where
  pub read-create :
      (d : fs.Disk) (path text : String)
      → fs.read_to_string d path ≡ ok text
      → fs.read_to_string (fs.create_dir_all d dir).1 path ≡ ok text
  pub read-write_other :
      (d : fs.Disk) (name other text old : String)
      → has_char b'/' name ≡ false
      → has_char b'/' other ≡ false
      → name ≢ other
      → fs.read_to_string d (join_path dir other) ≡ ok old
      → fs.read_to_string (fs.write d (join_path dir name) text).1 (join_path dir other) ≡ ok old

abbrev pub succeeded : {A E : Type 0} → Result A E → Bool
succeeded (ok _) = true
succeeded (err _) = false

module _ (c : Crates) (fs : FileSystem) (store : FileStore) where
  -- Puts, whether they succeed or fail. One of the binding of `signed` is of that very receipt, and
  -- succeeds: a write that fails may leave its file empty.
  pub data Puts (signed : SignedDecision) : fs.Disk → fs.Disk → Type 0 where
    done : {d : fs.Disk} → Puts signed d d
    next :
        {d e : fs.Disk} (x : SignedDecision)
        → (x.binding ≡ signed.binding
            → (x ≡ signed) × (succeeded (file_put c fs store d x).0 ≡ true))
        → Puts signed (file_put c fs store d x).1 e
        → Puts signed d e

  module _ (docs : IsDocumented c) (faithful : IsFaithful fs)
      (framed : IsFramed fs store.root) where
    abbrev name_of : SignedDecision → String
    name_of x = digest_hex c x.binding <> ".json"

    abbrev path_of : SignedDecision → String
    path_of x = path_for store (digest_hex c x.binding)

    -- The file of the receipt has the receipt's bundle.
    abbrev Holds : SignedDecision → fs.Disk → Type 0
    Holds x d = fs.read_to_string d (path_of x) ≡ ok (evidence_bundle_json c x)

    same_name :
        (x y : SignedDecision) → name_of x ≡ name_of y → (x.binding ≡ y.binding) ⊎ Collision c
    unfolding path_for
    same_name x y h =
        let at : (z : SignedDecision)
            → embedded_hash (uri_for (join_path store.root (name_of z)))
              ≡ some (digest_hex c z.binding) =
          λ z. address_of_path c docs store z in
        let hashes : digest_hex c x.binding ≡ digest_hex c y.binding =
          some-injective _ _
            (sym (at x) ∙ (ap (λ n. embedded_hash (uri_for (join_path store.root n))) h ∙ at y)) in
        digest_commits c docs x.binding y.binding (
          digest_hex_injective c docs x.binding y.binding
            (rw hashes (eq_ignore_ascii_case_refl (digest_hex c y.binding))))

    finish_put-disk :
        (path : String) (w : Result (Unit {0}) IoError × fs.Disk) → (finish_put c fs path w).1 ≡ w.1
    finish_put-disk path (ok _, d) = refl
    finish_put-disk path (err _, d) = refl

    after_create-Holds :
        (x signed : SignedDecision) (text : String) (w : Result (Unit {0}) IoError × fs.Disk)
        → name_of x ≢ name_of signed
        → Holds signed w.1
        → Holds signed (after_create c fs (path_of x) text w).1
    unfolding path_for
    after_create-Holds x signed text (err _, d) differ h = h
    after_create-Holds x signed text (ok _, d) differ h =
        let plain : (z : SignedDecision) → has_char b'/' (name_of z) ≡ false =
          λ z. json-no_slash (digest_hex c z.binding) (digest_hex-IsHex c docs z.binding) in
        subst (Holds signed) (sym (finish_put-disk (path_of x) (fs.write d (path_of x) text))) (
          framed.read-write_other d (name_of x) (name_of signed) text _ (plain x) (plain signed)
            differ h)

    file_put-Holds_other :
        (x signed : SignedDecision) (d : fs.Disk)
        → name_of x ≢ name_of signed
        → Holds signed d
        → Holds signed (file_put c fs store d x).1
    unfolding file_put
    file_put-Holds_other x signed d differ h =
        after_create-Holds x signed (evidence_bundle_json c x) (fs.create_dir_all d store.root)
          differ (framed.read-create d (path_of signed) _ h)

    Holds-put_ok :
        (x : SignedDecision) (d d' : fs.Disk) (u : ResponseUri)
        → file_put c fs store d x ≡ (ok u, d')
        → Holds x d'
    Holds-put_ok x d d' u h =
        faithful.read-write _ d' (path_of x) (evidence_bundle_json c x)
          (file_put-eq-ok c docs fs store d d' x u h).1

    Holds-put_succeeded :
        (x : SignedDecision) (d : fs.Disk) (r : Result ResponseUri IoError × fs.Disk)
        → file_put c fs store d x ≡ r
        → succeeded r.0 ≡ true
        → Holds x r.1
    Holds-put_succeeded x d (ok u, d') h good = Holds-put_ok x d d' u h
    Holds-put_succeeded x d (err e, d') h good = cc good

    Holds-Puts :
        (signed : SignedDecision) {d e : fs.Disk}
        → Puts signed d e
        → Holds signed d
        → Holds signed e ⊎ Collision c
    Holds-Puts signed done h = inl h
    Holds-Puts signed (next {d} x spared rest) h = elim (Bool-cases (name_of x == name_of signed)) [
      | inr other ↦
          Holds-Puts signed rest
            (file_put-Holds_other x signed d (λ e. cc (other, (eq_iff _ _).1 e)) h)
      | inl here ↦ elim (same_name x signed ((eq_iff _ _).0 here)) [
        | inr clash ↦ inr clash
        | inl same ↦
            let (it, good) = spared same in
            Holds-Puts signed rest (
              subst (λ y. Holds y (file_put c fs store d x).1) it
                (Holds-put_succeeded x d (file_put c fs store d x) refl good))
      ]
    ]

    -- With crates as documented, over a disk that reads back what was written and whose writes
    -- leave the other files of the store's directory as they are: the address of a put that
    -- succeeded still yields its bundle after any further puts, those that fail included, where a
    -- later put of its binding is of the same receipt and succeeds, or SHA-256 has a collision.
    pub file_put_survives :
        (signed : SignedDecision) (u : ResponseUri) (d d' later : fs.Disk)
        → file_put c fs store d signed ≡ (ok u, d')
        → Puts signed d' later
        → (file_get c fs later u ≡ ok (evidence_bundle_json c signed)) ⊎ Collision c
    file_put_survives signed u d d' later put more =
        elim (Holds-Puts signed more (Holds-put_ok signed d d' u put)) [
          | inr clash ↦ inr clash
          | inl still ↦ inl (
              ap (file_get c fs later) (file_put-eq-ok c docs fs store d d' signed u put).0
              ∙ (file_get-uri_for c docs fs later (path_of signed) ∙ still))
        ]
