-- ===== src/Address/Hex.antt =====
-- `hex.EncodeToString` and `hex.DecodeString` of Go's standard library. A text of odd length or with
-- another character is refused.
use shadowyapparatus.Prelude.{
  ℕ, ◌+◌, ◌-◌, ◌*◌, ◌/◌, ◌%◌, ◌<◌, ◌≡◌, refl, arith, Option, none, some, [], ◌∷◌, Bytes, length,
  ltb, leb, ◌&&◌, if◌then◌else◌, take, zero, suc, ◌++◌,
}

abbrev pub AreBytes : Bytes → Type 0
AreBytes [] = Unit
AreBytes (b ∷ bs) = (b < 256) × AreBytes bs

unfoldable pub hex_digit : ℕ → ℕ
hex_digit d = if ltb d 10 then b'0' + d else b'a' + (d - 10)

unfoldable pub hex_value : ℕ → Option ℕ
hex_value c =
    if leb b'0' c && leb c b'9'
    then some (c - b'0')
    else if leb b'a' c && leb c b'f'
    then some (c - b'a' + 10)
    else if leb b'A' c && leb c b'F'
    then some (c - b'A' + 10)
    else none

unfoldable pub hex_encode : Bytes → Bytes
unfolding hex_digit
hex_encode [] = []
hex_encode (b ∷ bs) = hex_digit (b / 16) ∷ hex_digit (b % 16) ∷ hex_encode bs

unfoldable pub hex_decode : Bytes → Option Bytes
unfolding hex_value
hex_decode [] = some []
hex_decode (x ∷ []) = none
hex_decode (x ∷ y ∷ rest) = elim (hex_value x) [
  | none ↦ none
  | some hi ↦ elim (hex_value y) [
    | none ↦ none
    | some lo ↦ elim (hex_decode rest) [ none ↦ none | some bs ↦ some ((hi * 16 + lo) ∷ bs) ]
  ]
]

hex_value-digit : (d : ℕ) → d < 16 → hex_value (hex_digit d) ≡ some d
unfolding hex_value hex_digit
hex_value-digit d h = ground arith

pub hex_decode-encode : (bs : Bytes) → AreBytes bs → hex_decode (hex_encode bs) ≡ some bs
unfolding hex_decode hex_encode
hex_decode-encode [] h = refl
hex_decode-encode (b ∷ bs) h =
    ground (arith, hex_value-digit (b / 16), hex_value-digit (b % 16), hex_decode-encode bs h.1)

pub length-hex_encode : (bs : Bytes) → length (hex_encode bs) ≡ 2 * length bs
unfolding hex_encode
length-hex_encode [] = refl
length-hex_encode (b ∷ bs) = omega (arith, length-hex_encode bs)

-- A cut between two bytes is a cut of the text at twice the index.
pub take-hex_encode : (n : ℕ) (bs : Bytes) → take (2 * n) (hex_encode bs) ≡ hex_encode (take n bs)
unfolding hex_encode
take-hex_encode zero bs = refl
take-hex_encode (suc n) [] = ground (arith, double n)
  where
    double : (k : ℕ) → 2 * suc k ≡ suc (suc (2 * k))
    double k = omega arith
take-hex_encode (suc n) (b ∷ bs) = ground (arith, take-hex_encode n bs, double n)
  where
    double : (k : ℕ) → 2 * suc k ≡ suc (suc (2 * k))
    double k = omega arith

pub AreBytes-take : (n : ℕ) (bs : Bytes) → AreBytes bs → AreBytes (take n bs)
AreBytes-take zero bs h = tt
AreBytes-take (suc n) [] h = tt
AreBytes-take (suc n) (b ∷ bs) h = (h.0, AreBytes-take n bs h.1)

pub AreBytes-append : (xs ys : Bytes) → AreBytes xs → AreBytes ys → AreBytes (xs ++ ys)
AreBytes-append [] ys h k = k
AreBytes-append (x ∷ xs) ys h k = (h.0, AreBytes-append xs ys h.1 k)
