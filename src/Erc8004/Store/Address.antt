-- ===== src/Erc8004/Store/Address.antt =====
-- src/erc8004/store.rs: the hash that an address carries.
use liquet.Common.{String, ◌≡◌, refl, ◌<>◌, some, true, false, arith}
use liquet.Common.Text.{has_char, ends_with_slash}
use liquet.Common.Text.Laws.{
  last_segment-append, has_char-append, strip_suffix_of_absent, strip_suffix-append,
}
use liquet.Attest.Crates.{Crates, IsDocumented, IsHex}
use liquet.Attest.{DecisionBinding}
use liquet.Attest.Verify.{digest, digest_hex}
use liquet.Erc8004.Store.{embedded_hash}

IsHex-no_slash : (s : String) → IsHex s → has_char b'/' s ≡ false
IsHex-no_slash String.[] h = refl
IsHex-no_slash (String.◌∷◌ c s) (d, h) = ground (arith, IsHex-no_slash s h)

IsHex-no_dot : (s : String) → IsHex s → has_char b'.' s ≡ false
IsHex-no_dot String.[] h = refl
IsHex-no_dot (String.◌∷◌ c s) (d, h) = ground (arith, IsHex-no_dot s h)

pub json-no_slash : (s : String) → IsHex s → has_char b'/' (s <> ".json") ≡ false
json-no_slash s h = rw (has_char-append b'/' s ".json", IsHex-no_slash s h) refl

module _ (prefix hash : String) (slash : ends_with_slash prefix ≡ true) (hex : IsHex hash) where
  pub embedded_hash-plain : embedded_hash (record { uri = prefix <> hash }) ≡ some hash
  unfolding embedded_hash
  embedded_hash-plain = rw (
    last_segment-append prefix hash slash (IsHex-no_slash hash hex),
    strip_suffix_of_absent b'.' ".json" hash refl (IsHex-no_dot hash hex),
  )

  pub embedded_hash-json : embedded_hash (record { uri = prefix <> (hash <> ".json") }) ≡ some hash
  unfolding embedded_hash
  embedded_hash-json = rw (
    last_segment-append prefix (hash <> ".json") slash (json-no_slash hash hex),
    strip_suffix-append hash ".json",
  )

module _ (c : Crates) (docs : IsDocumented c) where
  pub digest_hex-IsHex : (b : DecisionBinding) → IsHex (digest_hex c b)
  unfolding digest
  digest_hex-IsHex b = docs.encode_hex _ (docs.sha256_bytes _)
