-- ===== src/Sample/Wallet.antt =====
-- Two public keys, `true` and `false`, for the examples.
use mathlib.Core.Option.{some-injective}
use liquet.Common.{refl, ap, ◌∙◌, sym, Bool, true, false}
use liquet.Adapters.Custos.{Keys}
use liquet.Adapters.Custos.Sorting.{IsKeys}
use liquet.Sample.Toy.{toy, toy-IsDocumented, key_bytes, key_facts}

abbrev pub wallet : Keys
wallet = record {
  Pubkey = Bool;
  to_bytes = key_bytes;
  to_string = elim [ true ↦ "alice" | false ↦ "bob" ];
  lower_hex = toy.hex_encode;
}

pub wallet-IsKeys : IsKeys wallet
wallet-IsKeys = record {
  key_bytes = key_facts;
  key_length = elim [ true ↦ refl | false ↦ refl ];
  to_bytes_injective = λ j k e. some-injective _ _ (
      sym (toy-IsDocumented.key_from-to j)
      ∙ (ap toy.key_from_bytes e ∙ toy-IsDocumented.key_from-to k));
  lower_hex_injective = λ s t h i e. some-injective _ _ (
      sym (toy-IsDocumented.decode-encode s h)
      ∙ (ap toy.hex_decode e ∙ toy-IsDocumented.decode-encode t i));
}
