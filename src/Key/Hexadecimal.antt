-- ===== src/Key/Hexadecimal.antt =====
-- key.rs: hexadecimal texts and the bytes that they stand for.
use earth_sci_io.Prelude.{
  All, List, Text, [], ap, arith, length, list_eq, prod_eq, refl, ℕ, ℕ_eq, ◌%◌, ◌*◌, ◌/◌, ◌<◌, ◌∙◌,
  ◌∷◌, ◌≡◌,
}
use earth_sci_io.External.{External}
use earth_sci_io.Key.{cache_key, hex_digit, hex_lower}

abbrev IsByte : ℕ → Type 0
IsByte b = b < 256

hex_digit-injective : (m n : ℕ) → m < 16 → n < 16 → hex_digit m ≡ hex_digit n → m ≡ n
unfolding hex_digit
hex_digit-injective m n a b h = ground (arith, a, b, h)

cons-injective :
    {A : Type 0} {x y : A} {xs ys : List A}
    → ◌≡◌ {A = List A} (x ∷ xs) (y ∷ ys)
    → (x ≡ y) × (xs ≡ ys)
cons-injective h = (cc, cc)

byte-eq : (b c : ℕ) → IsByte b → b / 16 ≡ c / 16 → b % 16 ≡ c % 16 → b ≡ c
byte-eq b c h p q = omega (arith, p, q)

length-hex_lower : (bytes : List ℕ) → length (hex_lower bytes) ≡ 2 * length bytes
unfolding hex_lower
length-hex_lower [] = refl
length-hex_lower (b ∷ bytes) = let rest = length-hex_lower bytes in omega (arith, rest)

-- A cache key is twice as long as the digest: 64 digits for the 32 bytes of SHA-256.
pub length-cache_key :
    (X : External) (url : Text) → length (cache_key X url) ≡ 2 * length (X.sha256 url)
unfolding cache_key
length-cache_key X url = length-hex_lower (X.sha256 url)

-- The hexadecimal text of bytes tells them apart.
pub hex_lower-injective :
    (xs ys : List ℕ) → All IsByte xs → All IsByte ys → hex_lower xs ≡ hex_lower ys → xs ≡ ys
unfolding hex_lower
hex_lower-injective [] [] a b h = refl
hex_lower-injective [] (y ∷ ys) a b h = cc
hex_lower-injective (x ∷ xs) [] a b h = cc
hex_lower-injective (x ∷ xs) (y ∷ ys) (a, as_bytes) (b, bs_bytes) h =
    let (high, rest) = cons-injective h in
    let (low, later) = cons-injective rest in
    let top : x / 16 ≡ y / 16 =
      hex_digit-injective (x / 16) (y / 16) (omega (arith, a)) (omega (arith, b)) high in
    let bottom : x % 16 ≡ y % 16 =
      hex_digit-injective (x % 16) (y % 16) (omega arith) (omega arith) low in
    let same = byte-eq x y a top bottom in
    ap (λ z. z ∷ xs) same ∙ ap (λ zs. y ∷ zs) (hex_lower-injective xs ys as_bytes bs_bytes later)

-- Two URLs whose digests are lists of bytes have the same cache key only when the digests are
-- equal.
pub cache_key-injective :
    (X : External) (u v : Text)
    → All IsByte (X.sha256 u)
    → All IsByte (X.sha256 v)
    → cache_key X u ≡ cache_key X v
    → X.sha256 u ≡ X.sha256 v
cache_key-injective X u v a b h =
    hex_lower-injective (X.sha256 u) (X.sha256 v) a b (unfold cache_key in h)
