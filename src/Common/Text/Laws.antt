-- ===== src/Common/Text/Laws.antt =====
-- Laws of the text operations.
use Prim.Native.Nat.{ℕ}
use Prim.Native.Char.{Char, code}
use Prim.Native.String.{String, ◌++◌, [], ◌∷◌, count}
use mathlib.Core.Path.{◌≡◌, refl, ap, ap₂}
use mathlib.Core.Logic.{◌≢◌, inl, inr}
use mathlib.Core.Bool.{true, false, ◌||◌}
use mathlib.Core.Option.{none, some}
use native.Mathlib.Omega.{arith}
use text.Mathlib.Text.{◌==◌}
use text.Mathlib.TextEquality.{eq_iff, Char-path}
use text.Mathlib.TextLemmas.{cons-append, nil-append, cons≢nil, length-cons, length-append}
use liquet.Common.Booleans.{Bool-cases}
use liquet.Common.Text.{
  ascii_lower, eq_ignore_ascii_case, has_char, ends_with_slash, last_segment, strip_suffix,
  strip_prefix,
}

pub eq_ignore_ascii_case_refl : (s : String) → eq_ignore_ascii_case s s ≡ true
unfolding eq_ignore_ascii_case
eq_ignore_ascii_case_refl [] = refl
eq_ignore_ascii_case_refl (c ∷ s) = ground (arith, eq_ignore_ascii_case_refl s)

-- No capital letter.
abbrev pub IsLower : String → Type 0
IsLower [] = Unit
IsLower (c ∷ s) = (ascii_lower (code c) ≡ code c) × IsLower s

-- Texts without capitals that agree up to case are equal.
pub eq_of_IsLower : (s t : String) → IsLower s → IsLower t → eq_ignore_ascii_case s t ≡ true → s ≡ t
unfolding eq_ignore_ascii_case
eq_of_IsLower [] [] ls lt h = refl
eq_of_IsLower (c ∷ s) (d ∷ t) (lc, ls) (ld, lt) h =
    ap₂ ◌∷◌ (Char-path c d (ground arith)) (eq_of_IsLower s t ls lt (ground arith))
eq_of_IsLower s t ls lt h = cc

pub has_char-append : (k : ℕ) (s t : String) → has_char k (s ++ t) ≡ (has_char k s || has_char k t)
has_char-append k [] t = rw nil-append refl
has_char-append k (c ∷ s) t = rw cons-append (ground (arith, has_char-append k s t))

last_segment_of_plain : (s : String) → has_char b'/' s ≡ false → last_segment s ≡ s
unfolding last_segment
last_segment_of_plain [] h = refl
last_segment_of_plain (c ∷ s) h = ground arith

has_char_of_ends : (s : String) → ends_with_slash s ≡ true → has_char b'/' s ≡ true
has_char_of_ends [] h = cc
has_char_of_ends (c ∷ []) h = ground arith
has_char_of_ends (c ∷ (d ∷ s)) h = ground (arith, has_char_of_ends (d ∷ s))

-- What stands before a last slash does not count.
pub last_segment-append :
    (s t : String) → ends_with_slash s ≡ true → has_char b'/' t ≡ false → last_segment (s ++ t) ≡ t
unfolding last_segment
last_segment-append [] t h k = cc
last_segment-append (c ∷ []) t h k =
    rw (cons-append, nil-append) (ground (arith, last_segment_of_plain t))
last_segment-append (c ∷ (d ∷ s)) t h k = rw cons-append (
    ground (
      arith,
      has_char-append b'/' (d ∷ s) t,
      has_char_of_ends (d ∷ s),
      last_segment-append (d ∷ s) t h k,
    ))

pub ends_with_slash-append :
    (s t : String) → ends_with_slash t ≡ true → ends_with_slash (s ++ t) ≡ true
ends_with_slash-append [] t h = rw nil-append h
ends_with_slash-append (c ∷ []) [] h = cc
ends_with_slash-append (c ∷ []) (d ∷ t) h = rw (cons-append, nil-append) h
ends_with_slash-append (c ∷ (d ∷ s)) t h =
    let ih : ends_with_slash (d ∷ (s ++ t)) ≡ true =
      rw (cons-append) at (ends_with_slash-append (d ∷ s) t h) in
    rw (cons-append, cons-append) ih

-- A suffix that has a character which the text lacks cannot be stripped.
pub strip_suffix_of_absent :
    (k : ℕ) (suffix s : String)
    → has_char k suffix ≡ true
    → has_char k s ≡ false
    → strip_suffix suffix s ≡ none
unfolding strip_suffix
strip_suffix_of_absent k [] s h n = cc
strip_suffix_of_absent k (d ∷ p) [] h n =
    ground (arith, eq_iff (d ∷ p) "", λ (e : (d ∷ p) ≡ ""). cons≢nil e)
strip_suffix_of_absent k (d ∷ p) (c ∷ s) h n = elim (Bool-cases ((d ∷ p) == (c ∷ s))) [
  | inl same ↦ cc (ap (has_char k) ((eq_iff (d ∷ p) (c ∷ s)).0 same))
  | inr differ ↦ rw differ (ground (arith, strip_suffix_of_absent k (d ∷ p) s))
]

count-ne : (c : Char) (s suffix : String) → suffix ≢ c ∷ (s ++ suffix)
count-ne c s suffix h =
    absurd (omega (arith, ap count h, length-cons c (s ++ suffix), length-append s suffix))

pub strip_suffix-append : (s suffix : String) → strip_suffix suffix (s ++ suffix) ≡ some s
unfolding strip_suffix
strip_suffix-append [] [] = refl
strip_suffix-append [] (c ∷ t) = rw nil-append (ground (arith, eq_iff (c ∷ t) (c ∷ t)))
strip_suffix-append (c ∷ s) suffix = rw cons-append (
    ground
      (arith, eq_iff suffix (c ∷ (s ++ suffix)), count-ne c s suffix, strip_suffix-append s suffix))

pub strip_prefix-append : (p s : String) → strip_prefix p (p ++ s) ≡ some s
unfolding strip_prefix
strip_prefix-append [] s = rw nil-append refl
strip_prefix-append (c ∷ p) s = rw cons-append (ground (arith, strip_prefix-append p s))
