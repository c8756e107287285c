-- ===== src/Common/Text.antt =====
-- The operations of `str` that the program calls, over code points.
pub mod Laws
use Prim.Native.Nat.{ℕ, ◌+◌}
use Prim.Native.Char.{code}
use Prim.Native.String
use Prim.Native.String.{String, [], ◌∷◌}
use mathlib.Core.Bool.{Bool, true, false, ◌&&◌, ◌||◌}
use mathlib.Core.Option
use mathlib.Core.Option.{Option, none, some}
use mathlib.Core.List.{List}
use text.Mathlib.Text.{◌==◌, starts_with}
use liquet.Common.Booleans.{leb, nat_eq, if◌then◌else◌}

-- `u8::to_ascii_lowercase`
abbrev pub ascii_lower : ℕ → ℕ
ascii_lower c = if leb b'A' c && leb c b'Z' then c + 32 else c

unfoldable pub eq_ignore_ascii_case : String → String → Bool
eq_ignore_ascii_case [] [] = true
eq_ignore_ascii_case (c ∷ s) (d ∷ t) =
    nat_eq (ascii_lower (code c)) (ascii_lower (code d)) && eq_ignore_ascii_case s t
eq_ignore_ascii_case _ _ = false

-- `xs.join(sep)`
unfoldable pub join : List String → String → String
join List.[] sep = ""
join (List.◌∷◌ x List.[]) sep = x
join (List.◌∷◌ x (List.◌∷◌ y ys)) sep = String.◌++◌ x (String.◌++◌ sep (join (List.◌∷◌ y ys) sep))

-- `s.contains('/')`, for a character given by its code.
abbrev pub has_char : ℕ → String → Bool
has_char k [] = false
has_char k (c ∷ s) = nat_eq (code c) k || has_char k s

-- `s.contains(t)`
unfoldable pub contains : String → String → Bool
contains [] t = t == ""
contains (c ∷ s) t = let later = contains s t in starts_with (c ∷ s) t || later

-- `s.ends_with('/')`
abbrev pub ends_with_slash : String → Bool
ends_with_slash [] = false
ends_with_slash (c ∷ []) = nat_eq (code c) b'/'
ends_with_slash (c ∷ (d ∷ s)) = ends_with_slash (d ∷ s)

-- `s.rsplit('/').next()`: what follows the last slash, or all of a text without one.
unfoldable pub last_segment : String → String
last_segment [] = []
last_segment (c ∷ s) = let tail = last_segment s in if has_char b'/' (c ∷ s) then tail else c ∷ s

-- `s.strip_suffix(suffix)`
unfoldable pub strip_suffix : String → String → Option String
strip_suffix suffix [] = if suffix == "" then some "" else none
strip_suffix suffix (c ∷ s) =
    let rest = Option.map (λ (t : String). c ∷ t) (strip_suffix suffix s) in
    if suffix == (c ∷ s) then some "" else rest

-- `s.strip_prefix(prefix)`
unfoldable pub strip_prefix : String → String → Option String
strip_prefix [] s = some s
strip_prefix (c ∷ p) [] = none
strip_prefix (c ∷ p) (d ∷ s) = if nat_eq (code c) (code d) then strip_prefix p s else none

-- `o.unwrap_or(d)`
abbrev pub unwrap_or {ℓ} : {A : Type ℓ} → Option A → A → A
unwrap_or none d = d
unwrap_or (some a) d = a
