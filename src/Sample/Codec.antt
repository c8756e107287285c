-- ===== src/Sample/Codec.antt =====
-- Self-delimiting text encodings with their decoders.
use Prim.Native.Nat.{ℕ, zero, suc}
use Prim.Native.Char.{code}
use Prim.Native.String.{String, [], ◌∷◌}
use mathlib.Core.Path.{◌≡◌, refl, ap, ◌∙◌}
use mathlib.Core.Option
use mathlib.Core.Option.{Option, none, some}
use mathlib.Core.List.{List}
use liquet.Common.{nat_eq, if◌then◌else◌, length}

pub record Codec (A : Type 0) : Type 0 where
  pub enc : A → String → String
  pub dec : String → Option (A × String)
  pub dec-enc : (a : A) (rest : String) → dec (enc a rest) ≡ some (a, rest)

abbrev enc_nat : ℕ → String → String
enc_nat zero rest = "," ∷ rest
enc_nat (suc n) rest = "i" ∷ enc_nat n rest

abbrev dec_nat : String → Option (ℕ × String)
dec_nat [] = none
dec_nat (c ∷ s) =
    let more = Option.map (λ ((n, rest) : ℕ × String). (suc n, rest)) (dec_nat s) in
    if nat_eq (code c) b',' then some (zero, s) else more

pub dec_nat-enc_nat : (n : ℕ) (rest : String) → dec_nat (enc_nat n rest) ≡ some (n, rest)
dec_nat-enc_nat zero rest = refl
dec_nat-enc_nat (suc n) rest = rw (dec_nat-enc_nat n rest)

abbrev enc_text : String → String → String
enc_text [] rest = "," ∷ rest
enc_text (c ∷ s) rest = "i" ∷ (c ∷ enc_text s rest)

abbrev dec_text : String → Option (String × String)
dec_text [] = none
dec_text (m ∷ []) = if nat_eq (code m) b',' then some ([], []) else none
dec_text (m ∷ (c ∷ s)) =
    let more = Option.map (λ ((t, rest) : String × String). (c ∷ t, rest)) (dec_text s) in
    if nat_eq (code m) b',' then some ([], c ∷ s) else more

pub dec_text-enc_text : (s rest : String) → dec_text (enc_text s rest) ≡ some (s, rest)
dec_text-enc_text [] [] = refl
dec_text-enc_text [] (c ∷ rest) = refl
dec_text-enc_text (c ∷ s) rest = rw (dec_text-enc_text s rest)

abbrev pub nat_codec : Codec ℕ
nat_codec = record { enc = enc_nat; dec = dec_nat; dec-enc = dec_nat-enc_nat }

abbrev pub text_codec : Codec String
text_codec = record { enc = enc_text; dec = dec_text; dec-enc = dec_text-enc_text }

abbrev map_fst : {A B : Type 0} → (A → B) → Option (A × String) → Option (B × String)
map_fst f none = none
map_fst f (some (a, rest)) = some (f a, rest)

-- A type that another represents.
abbrev pub via :
    {A B : Type 0} → Codec A → (f : A → B) (g : B → A) → ((b : B) → f (g b) ≡ b) → Codec B
via {A} {B} a f g back = record {
  enc = λ b rest. a.enc (g b) rest;
  dec = λ s. map_fst f (a.dec s);
  dec-enc = λ b rest. ap (map_fst f) (a.dec-enc (g b) rest) ∙ ap (λ x. some (x, rest)) (back b);
}

abbrev chain :
    {A C : Type 0} → Option (A × String) → (A → String → Option (C × String)) → Option (C × String)
chain none k = none
chain (some (a, rest)) k = k a rest

abbrev pair_dec : {A B : Type 0} → Codec A → Codec B → String → Option ((A × B) × String)
pair_dec a b s = chain (a.dec s) (λ x rest. map_fst (λ y. (x, y)) (b.dec rest))

abbrev pub both : {A B : Type 0} → Codec A → Codec B → Codec (A × B)
both {A} {B} a b = record {
  enc = λ p rest. a.enc p.0 (b.enc p.1 rest);
  dec = pair_dec a b;
  dec-enc = λ p rest. rw (a.dec-enc p.0 (b.enc p.1 rest), b.dec-enc p.1 rest) refl;
}

abbrev enc_items : {A : Type 0} → Codec A → List A → String → String
enc_items a List.[] rest = rest
enc_items a (List.◌∷◌ x xs) rest = a.enc x (enc_items a xs rest)

abbrev dec_items : {A : Type 0} → Codec A → ℕ → String → Option (List A × String)
dec_items a zero s = some (List.[], s)
dec_items a (suc n) s =
    chain (a.dec s) (λ x rest. map_fst (λ xs. List.◌∷◌ x xs) (dec_items a n rest))

pub dec_items-enc_items :
    {A : Type 0} (a : Codec A) (xs : List A) (rest : String)
    → dec_items a (length xs) (enc_items a xs rest) ≡ some (xs, rest)
dec_items-enc_items a List.[] rest = refl
dec_items-enc_items a (List.◌∷◌ x xs) rest =
    rw (a.dec-enc x (enc_items a xs rest), dec_items-enc_items a xs rest) refl

-- The number of items, and the items.
abbrev pub listed : {A : Type 0} → Codec A → Codec (List A)
listed {A} a = record {
  enc = λ xs rest. enc_nat (length xs) (enc_items a xs rest);
  dec = λ s. chain (dec_nat s) (dec_items a);
  dec-enc = λ xs rest.
      rw (dec_nat-enc_nat (length xs) (enc_items a xs rest)) (dec_items-enc_items a xs rest);
}
