-- ===== src/Common/Lists.antt =====
-- Lists over the native numbers, and the predicate that holds of every item.
use Prim.Native.Nat.{ℕ, zero, suc, ◌+◌}
use mathlib.Core.Path.{◌≡◌, refl, ap, ◌∙◌}
use mathlib.Core.Logic.{◌⊎◌, inl, inr, ◌↔◌, ◌≢◌}
use mathlib.Core.List.{List, [], ◌∷◌, ◌++◌, map}
use mathlib.Core.Option.{Option, none, some}
use mathlib.Core.Bool.{Bool, true, false, ◌&&◌, ◌||◌}
use native.Mathlib.Omega.{arith}

module _ {ℓ} {A : Type ℓ} where
  abbrev pub length : List A → ℕ
  length [] = 0
  length (x ∷ xs) = suc (length xs)

  abbrev pub get_elem? : List A → ℕ → Option A
  get_elem? [] i = none
  get_elem? (x ∷ xs) zero = some x
  get_elem? (x ∷ xs) (suc i) = get_elem? xs i

  abbrev pub replicate : ℕ → A → List A
  replicate zero x = []
  replicate (suc n) x = x ∷ replicate n x

  -- `xs.iter().any(..)` and `xs.iter().all(..)`
  abbrev pub any : (A → Bool) → List A → Bool
  any p [] = false
  any p (x ∷ xs) = p x || any p xs

  abbrev pub every : (A → Bool) → List A → Bool
  every p [] = true
  every p (x ∷ xs) = p x && every p xs

  -- `==` on vectors.
  abbrev pub list_eq : (A → A → Bool) → List A → List A → Bool
  list_eq eq [] [] = true
  list_eq eq (x ∷ xs) (y ∷ ys) = eq x y && list_eq eq xs ys
  list_eq eq _ _ = false

  pub length-append : (xs ys : List A) → length (xs ++ ys) ≡ length xs + length ys
  length-append [] ys = omega arith
  length-append (x ∷ xs) ys = omega (arith, length-append xs ys)

module _ {ℓ κ} {A : Type ℓ} (P : A → Type κ) where
  abbrev pub All : List A → Type κ
  All [] = Unit
  All (x ∷ xs) = P x × All xs

-- Membership that keeps the position, by recursion so that the tactics read it.
abbrev pub In : {A : Type 0} → A → List A → Type 0
In a [] = ⊥
In a (x ∷ xs) = (a ≡ x) ⊎ In a xs

pub In-append : {A : Type 0} (a : A) (xs ys : List A) → In a (xs ++ ys) ↔ (In a xs ⊎ In a ys)
In-append a [] ys = (λ h. inr h, λ h. elim h [ inl e ↦ elim e [ ] | inr k ↦ k ])
In-append a (x ∷ xs) ys = ground (arith, In-append a xs ys)

-- Membership in two lists, each described, is the one or the other.
pub In-append_of :
    {A P Q : Type 0} (a : A) (xs ys : List A)
    → In a xs ↔ P
    → In a ys ↔ Q
    → In a (xs ++ ys) ↔ (P ⊎ Q)
In-append_of a [] ys p q =
    (λ h. inr (q.0 h), λ h. elim h [ inl k ↦ elim (p.1 k) [ ] | inr k ↦ q.1 k ])
In-append_of a (x ∷ xs) ys p q =
    let both = In-append a (x ∷ xs) ys in
    (
      λ h. elim (both.0 h) [ inl k ↦ inl (p.0 k) | inr k ↦ inr (q.0 k) ],
      λ h. elim h [ inl k ↦ both.1 (inl (p.1 k)) | inr k ↦ both.1 (inr (q.1 k)) ],
    )

module _ {ℓ} {A : Type ℓ} where
  pub append-eq-nil : (xs ys : List A) → (xs ++ ys ≡ []) ↔ ((xs ≡ []) × (ys ≡ []))
  append-eq-nil [] ys = (λ h. (refl, h), λ h. h.1)
  append-eq-nil (x ∷ xs) ys = (λ h. cc, λ h. cc h.0)

  pub push-ne-nil : (xs : List A) (x : A) → xs ++ x ∷ [] ≢ []
  push-ne-nil [] x h = cc
  push-ne-nil (y ∷ xs) x h = cc

pub In-map :
    {A B : Type 0} (f : A → B) (b : B) (xs : List A)
    → In b (map f xs) ↔ ((a : A) × In a xs × (b ≡ f a))
In-map f b [] = (λ h. elim h [ ], λ h. elim h.1 [ ])
In-map f b (x ∷ xs) = (
  λ h. elim h [
    | inl e ↦ (x, inl refl, e)
    | inr k ↦ let (a, i, e) = (In-map f b xs).0 k in (a, inr i, e)
  ],
  λ (a, i, e). elim i [
    | inl same ↦ inl (e ∙ ap f same)
    | inr k ↦ inr ((In-map f b xs).1 (a, k, e))
  ],
)

pub All-iff :
    {A : Type 0} {P Q : A → Type 0} (xs : List A) → ((a : A) → P a ↔ Q a) → All P xs ↔ All Q xs
All-iff [] same = (λ h. h, λ h. h)
All-iff (x ∷ xs) same =
    (λ h. ((same x).0 h.0, (All-iff xs same).0 h.1), λ h. ((same x).1 h.0, (All-iff xs same).1 h.1))
