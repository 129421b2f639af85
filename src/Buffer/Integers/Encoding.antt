-- ===== src/Buffer/Integers/Encoding.antt =====
-- Big-endian bytes: `htobe64` and its kin, followed by `be64toh`, lose nothing.
use mathlib.Core.List.{reverse, reverse-cons, reverse-reverse}
use native.Mathlib.Nat.{pow-suc}
use base_linux.Base.{
  ℕ, zero, suc, ◌*◌, ◌/◌, ◌^◌, ◌<◌, ◌≡◌, refl, ap, ◌∙◌, List, [], ◌∷◌, arith, length, length-append,
}
use base_linux.Buffer.Integers.{le_encode, le_decode, be_encode, be_decode}

le_decode-le_encode : (n v : ℕ) → v < 256 ^ n → le_decode (le_encode n v) ≡ v
unfolding le_decode le_encode
le_decode-le_encode zero v h = omega arith
le_decode-le_encode (suc n) v h =
    let p : 256 ^ suc n ≡ 256 * 256 ^ n = omega (arith, pow-suc 256 n) in
    omega (arith, le_decode-le_encode n (v / 256) (omega (arith, p)))

length-le_encode : (n v : ℕ) → length (le_encode n v) ≡ n
unfolding le_encode
length-le_encode zero v = refl
length-le_encode (suc n) v = ap suc (length-le_encode n (v / 256))

length-reverse {ℓ} : {A : Type ℓ} (xs : List A) → length (reverse xs) ≡ length xs
length-reverse [] = refl
length-reverse (x ∷ xs) =
    omega
      (arith, ap length (reverse-cons x xs), length-append (reverse xs) (x ∷ []), length-reverse xs)

pub length-be_encode : (n v : ℕ) → length (be_encode n v) ≡ n
length-be_encode n v = length-reverse (le_encode n v) ∙ length-le_encode n v

-- Big-endian decoding undoes encoding for every value that fits into `n` bytes.
pub be_decode-be_encode : (n v : ℕ) → v < 256 ^ n → be_decode (be_encode n v) ≡ v
be_decode-be_encode n v h =
    ap le_decode (reverse-reverse (le_encode n v)) ∙ le_decode-le_encode n v h
