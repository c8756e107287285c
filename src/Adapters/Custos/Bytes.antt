-- ===== src/Adapters/Custos/Bytes.antt =====
-- src/adapters/custos.rs: fields of a fixed width are read back from the bytes fed to the hash.
use liquet.Common.{
  ℕ, zero, suc, ◌/◌, ◌%◌, ◌^◌, ◌<◌, ◌≡◌, refl, ap, ap₂, ◌∙◌, sym, List, [], ◌∷◌, ◌++◌, length,
  arith,
}
use liquet.Adapters.Custos.{le_bytes}

pub split :
    (xs ys us vs : List ℕ) → length xs ≡ length ys → xs ++ us ≡ ys ++ vs → (xs ≡ ys) × (us ≡ vs)
split [] [] us vs h e = (refl, e)
split [] (y ∷ ys) us vs h e = ground arith
split (x ∷ xs) [] us vs h e = ground arith
split (x ∷ xs) (y ∷ ys) us vs h e =
    let heads : x ≡ y = ground arith in
    let (here, there) = split xs ys us vs (omega (arith, h)) (ground arith) in
    (ap₂ (λ z zs. z ∷ zs) heads here, there)

length-le_bytes : (k n : ℕ) → length (le_bytes k n) ≡ k
length-le_bytes zero n = refl
length-le_bytes (suc k) n = ap suc (length-le_bytes k (n / 256))

le_bytes_injective : (k m n : ℕ) → m < 256 ^ k → n < 256 ^ k → le_bytes k m ≡ le_bytes k n → m ≡ n
le_bytes_injective zero m n h j e = omega arith
le_bytes_injective (suc k) m n h j e =
    let low : m % 256 ≡ n % 256 = ground arith in
    let high : m / 256 ≡ n / 256 =
      le_bytes_injective k (m / 256) (n / 256) (omega arith) (omega arith) (ground arith) in
    omega arith

-- A field of 64 bits is read back, with what follows it.
pub read_u64 :
    (m n : ℕ) (us vs : List ℕ)
    → m < 2 ^ 64
    → n < 2 ^ 64
    → le_bytes 8 m ++ us ≡ le_bytes 8 n ++ vs
    → (m ≡ n) × (us ≡ vs)
read_u64 m n us vs h j e =
    let (here, there) =
      split (le_bytes 8 m) (le_bytes 8 n) us vs (length-le_bytes 8 m ∙ sym (length-le_bytes 8 n))
        e in
    (le_bytes_injective 8 m n h j here, there)
