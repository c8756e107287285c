-- ===== src/Erc8004/Store/File.antt =====
-- src/erc8004/store.rs: `FileStore`, over the operations of `std::fs` that it calls. Paths are Unix
-- paths in UTF-8, so that `display` prints them as they are.
pub mod Laws
pub mod History
mod Tests
use Prim.Native.Char.{code}
use Prim.Native.String
use liquet.Common.{String, ◌≡◌, ◌<>◌, ◌==◌, Result, ok, err, Bool, false}
use liquet.Common.{nat_eq, if◌then◌else◌}
use liquet.Common.Text.{ends_with_slash, strip_prefix, unwrap_or}
use liquet.Attest.{SignedDecision}
use liquet.Attest.Crates.{Crates}
use liquet.Attest.Verify.{digest_hex}
use liquet.Erc8004.{evidence_bundle_json}
use liquet.Erc8004.Store.{IoError, ResponseUri, EvidenceStore}

-- `std::fs`, over a state of the disk. Each call that writes may fail.
pub record FileSystem : Type 1 where
  pub Disk : Type 0
  pub create_dir_all : Disk → String → Result (Unit {0}) IoError × Disk
  pub write : Disk → String → String → Result (Unit {0}) IoError × Disk
  pub read_to_string : Disk → String → Result String IoError

-- What was written is read back.
pub record IsFaithful (fs : FileSystem) : Type 0 where
  pub read-write :
      (d d' : fs.Disk) (path text : String)
      → fs.write d path text ≡ (ok tt, d')
      → fs.read_to_string d' path ≡ ok text

abbrev pub starts_with_slash : String → Bool
starts_with_slash String.[] = false
starts_with_slash (String.◌∷◌ c s) = nat_eq (code c) b'/'

-- `PathBuf::join` on Unix: an absolute name replaces the root, and a separator is added unless the
-- root is empty or ends in one.
unfoldable pub join_path : String → String → String
join_path root name =
    if starts_with_slash name
    then name
    else if root == ""
    then name
    else if ends_with_slash root
    then root <> name
    else root <> ("/" <> name)

pub record FileStore : Type 0 where
  pub root : String

-- `path_for`
unfoldable pub path_for : FileStore → String → String
unfolding join_path
path_for store hash = join_path store.root (hash <> ".json")

-- `uri_for`
abbrev pub uri_for : String → ResponseUri
uri_for path = record { uri = "file://" <> path }

module _ (c : Crates) (fs : FileSystem) where
  abbrev finish_put :
      String → Result (Unit {0}) IoError × fs.Disk → Result ResponseUri IoError × fs.Disk
  finish_put path (ok _, d) = (ok (uri_for path), d)
  finish_put path (err e, d) = (err e, d)

  abbrev after_create :
      String → String → Result (Unit {0}) IoError × fs.Disk → Result ResponseUri IoError × fs.Disk
  after_create path text (err e, d) = (err e, d)
  after_create path text (ok _, d) = finish_put path (fs.write d path text)

  unfoldable pub file_put :
      FileStore → fs.Disk → SignedDecision → Result ResponseUri IoError × fs.Disk
  unfolding path_for
  file_put store d signed =
      after_create (path_for store (digest_hex c signed.binding)) (evidence_bundle_json c signed)
        (fs.create_dir_all d store.root)

  unfoldable pub file_get : fs.Disk → ResponseUri → Result String IoError
  file_get d u = fs.read_to_string d (unwrap_or (strip_prefix "file://" u.uri) u.uri)

  abbrev pub file_store : FileStore → EvidenceStore
  file_store store = record { State = fs.Disk; put = file_put store; get = file_get }
