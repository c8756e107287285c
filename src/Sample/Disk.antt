-- ===== src/Sample/Disk.antt =====
-- A disk that holds two files, for the tests of src/erc8004/store.rs.
use mathlib.Core.Option.{some-injective}
use liquet.Common.{String, ◌≡◌, ap, ◌∙◌, sym, ◌≢◌, ◌<>◌, eq_iff}
use liquet.Common.{List, [], ◌∷◌, Result, ok, err, ok_or, arith, some, false}
use liquet.Common.Text.{has_char, strip_prefix, unwrap_or}
use liquet.Common.Text.Laws.{strip_prefix-append}
use liquet.Erc8004.Store.{not_found, other_kind, IoError}
use liquet.Erc8004.Store.Mem.{lookup, insert}
use liquet.Erc8004.Store.Mem.Laws.{lookup-insert}
use liquet.Erc8004.Store.File.{FileSystem, IsFaithful, join_path}
use liquet.Erc8004.Store.File.Laws.{relative}
use liquet.Erc8004.Store.File.History.{IsFramed}

abbrev tmp_store : String
tmp_store = "/tmp/store"

abbrev Files : Type 0
Files = List (String × String)

-- The third file does not fit.
abbrev write_small : Files → String → String → Result (Unit {0}) IoError × Files
write_small (a ∷ b ∷ more) path text =
    (err (record { kind = other_kind; message = "No space left" }), a ∷ b ∷ more)
write_small (a ∷ []) path text = (ok tt, insert path text (a ∷ []))
write_small [] path text = (ok tt, insert path text [])

abbrev pub small : FileSystem
small = record {
  Disk = Files;
  create_dir_all = λ d path. (ok tt, d);
  write = write_small;
  read_to_string =
      λ d path. ok_or (lookup path d) (record { kind = not_found; message = "No such file" });
}

read_inserted :
    (d : Files) (path text : String) → small.read_to_string (insert path text d) path ≡ ok text
read_inserted d path text = rw (lookup-insert path text path d) (ground (arith, eq_iff path path))

pub small-IsFaithful : IsFaithful small
small-IsFaithful = record { read-write = back }
  where
    back :
        (d d' : Files) (path text : String)
        → write_small d path text ≡ (ok tt, d')
        → small.read_to_string d' path ≡ ok text
    back (a ∷ b ∷ more) d' path text e = cc (ap (λ r. r.0) e)
    back (a ∷ []) d' path text e = rw (← ap (λ r. r.1) e) (read_inserted (a ∷ []) path text)
    back [] d' path text e = rw (← ap (λ r. r.1) e) (read_inserted [] path text)

read_kept :
    (d : Files) (path other text old : String)
    → path ≢ other
    → small.read_to_string d other ≡ ok old
    → small.read_to_string (insert path text d) other ≡ ok old
read_kept d path other text old differ h =
    rw (lookup-insert path text other d) (ground (arith, eq_iff path other))

read_other :
    (d : Files) (path other text old : String)
    → path ≢ other
    → small.read_to_string d other ≡ ok old
    → small.read_to_string (write_small d path text).1 other ≡ ok old
read_other (a ∷ b ∷ more) path other text old differ h = h
read_other (a ∷ []) path other text old differ h = read_kept (a ∷ []) path other text old differ h
read_other [] path other text old differ h = read_kept [] path other text old differ h

join_temp :
    (name : String)
    → has_char b'/' name ≡ false
    → strip_prefix "/" (unwrap_or (strip_prefix tmp_store (join_path tmp_store name)) "")
      ≡ some name
unfolding join_path
join_temp name plain =
    rw (relative name plain, strip_prefix-append tmp_store ("/" <> name))
      (strip_prefix-append "/" name)

join_temp_injective :
    (a b : String)
    → has_char b'/' a ≡ false
    → has_char b'/' b ≡ false
    → join_path tmp_store a ≡ join_path tmp_store b
    → a ≡ b
join_temp_injective a b plain plain' h = some-injective _ _ (
    sym (join_temp a plain)
    ∙ (ap (λ p. strip_prefix "/" (unwrap_or (strip_prefix tmp_store p) "")) h ∙ join_temp b plain'))

pub small-IsFramed : IsFramed small tmp_store
small-IsFramed = record {
  read-create = λ d path text h. h;
  read-write_other = λ d name other text old plain plain' differ h.
      read_other d (join_path tmp_store name) (join_path tmp_store other) text old
        (λ e. differ (join_temp_injective name other plain plain' e)) h;
}
