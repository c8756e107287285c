-- ===== src/Erc8004/Store.antt =====
-- src/erc8004/store.rs: the trait of evidence stores, and the addresses of bundles.
pub mod Mem
pub mod File
pub mod Address
use liquet.Common.{String, ◌≡◌, ◌<>◌, Option, some, Result, ok}
use liquet.Common.Text.{last_segment, strip_suffix, unwrap_or}
use liquet.Attest.{SignedDecision}
use liquet.Attest.Crates.{Crates}
use liquet.Attest.Verify.{digest_hex}
use liquet.Erc8004.{evidence_bundle_json}

-- The kinds of `std::io::Error` that the program tells apart.
pub data ErrorKind : Type 0 where
  not_found other_kind : ErrorKind

pub record IoError : Type 0 where
  pub kind : ErrorKind
  pub message : String

pub record ResponseUri : Type 0 where
  pub uri : String

-- `embedded_hash`: `rsplit` yields at least one piece, so `next` is never `None`.
unfoldable pub embedded_hash : ResponseUri → Option String
embedded_hash u = let tail = last_segment u.uri in some (unwrap_or (strip_suffix ".json" tail) tail)

-- The trait `EvidenceStore`; a put returns the store as it leaves it.
pub record EvidenceStore : Type 1 where
  pub State : Type 0
  pub put : State → SignedDecision → Result ResponseUri IoError × State
  pub get : State → ResponseUri → Result String IoError

-- What the trait's documentation asks of an implementation.
pub record IsContentAddressed (c : Crates) (S : EvidenceStore) : Type 0 where
  pub embedded :
      (s t : S.State) (signed : SignedDecision) (u : ResponseUri)
      → S.put s signed ≡ (ok u, t)
      → embedded_hash u ≡ some (digest_hex c signed.binding)
  pub get-put :
      (s t : S.State) (signed : SignedDecision) (u : ResponseUri)
      → S.put s signed ≡ (ok u, t)
      → S.get t u ≡ ok (evidence_bundle_json c signed)
