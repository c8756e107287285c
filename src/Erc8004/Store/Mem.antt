-- ===== src/Erc8004/Store/Mem.antt =====
-- src/erc8004/store.rs: `MemStore`. The map is an association list; its order is never seen.
pub mod Laws
use liquet.Common.{ℕ, String, ◌<>◌, ◌==◌, List, [], ◌∷◌, Option, none, some, Result, ok}
use liquet.Common.{length, ok_or, if◌then◌else◌, Bool}
use liquet.Decide.{is_empty}
use liquet.Attest.{SignedDecision}
use liquet.Attest.Crates.{Crates}
use liquet.Attest.Verify.{digest_hex}
use liquet.Erc8004.{evidence_bundle_json}
use liquet.Erc8004.Store.{not_found, IoError, ResponseUri, EvidenceStore}

-- `HashMap::get`
unfoldable pub lookup : String → List (String × String) → Option String
lookup k [] = none
lookup k ((j, v) ∷ m) = if j == k then some v else lookup k m

-- `HashMap::insert`
unfoldable pub insert : String → String → List (String × String) → List (String × String)
insert k v [] = (k, v) ∷ []
insert k v ((j, w) ∷ m) = let rest = insert k v m in if j == k then (k, v) ∷ m else (j, w) ∷ rest

pub record MemStore : Type 0 where
  pub by_uri : List (String × String)

-- `MemStore::new()`
abbrev pub empty_store : MemStore
empty_store = record { by_uri = [] }

-- `MemStore::len`
abbrev pub len : MemStore → ℕ
len s = length s.by_uri

abbrev pub store_is_empty : MemStore → Bool
store_is_empty s = is_empty s.by_uri

unfoldable pub mem_get : MemStore → ResponseUri → Result String IoError
unfolding lookup
mem_get s u =
    ok_or (lookup u.uri s.by_uri) (record { kind = not_found; message = "no bundle at " <> u.uri })

module _ (c : Crates) where
  -- The address of a receipt.
  abbrev pub mem_uri : SignedDecision → String
  mem_uri signed = "mem://" <> digest_hex c signed.binding

  unfoldable pub mem_put : MemStore → SignedDecision → Result ResponseUri IoError × MemStore
  unfolding insert
  mem_put s signed = (
    ok (record { uri = mem_uri signed }),
    record { by_uri = insert (mem_uri signed) (evidence_bundle_json c signed) s.by_uri },
  )

  abbrev pub mem_store : EvidenceStore
  mem_store = record { State = MemStore; put = mem_put; get = mem_get }
