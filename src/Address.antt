-- ===== src/Address.antt =====
-- The addresses of cmd/wallet.go and cmd/transaction.go: how one is derived from a public key or from
-- the transaction that creates a pool, and how a text is checked to be one.
-- Keccak-256 and SHAKE-256 are those of golang.org/x/crypto/sha3, and so parameters.
pub mod Hex
pub mod Derived
use shadowyapparatus.Prelude.{
  ℕ, ◌≡◌, ◌<◌, Bool, true, false, ◌&&◌, Option, none, some, List, [], ◌∷◌, ◌++◌, Bytes, bytes,
  length, take, drop, ◌==◌, if◌then◌else◌,
}
use shadowyapparatus.Address.Hex.{hex_encode, hex_decode, AreBytes}

-- `shake n` reads n bytes of SHAKE-256.
pub record Hashes : Type 0 where
  pub keccak : Bytes → Bytes
  pub shake : ℕ → Bytes → Bytes

-- What the code relies on: the functions return bytes, as many as they are asked for.
pub record AreSound (h : Hashes) : Type 0 where
  pub keccak_bytes : (m : Bytes) → AreBytes (h.keccak m)
  pub keccak_length : (m : Bytes) → length (h.keccak m) ≡ 32
  pub shake_bytes : (n : ℕ) (m : Bytes) → AreBytes (h.shake n m)
  pub shake_length : (n : ℕ) (m : Bytes) → length (h.shake n m) ≡ n

abbrev pub address_version : ℕ
address_version = 0x42

abbrev pub address_len : ℕ
address_len = 25

unfoldable pub calculate_checksum : Hashes → Bytes → Bytes
calculate_checksum h payload = take 4 (h.keccak (h.keccak payload))

unfoldable pub derive_address : Hashes → Bytes → Bytes
unfolding calculate_checksum hex_encode
derive_address h public_key =
    let payload = address_version ∷ h.shake 20 public_key in
    b'S' ∷ hex_encode (payload ++ calculate_checksum h payload)

unfoldable pub generate_l_address : Hashes → Bytes → Bytes
unfolding hex_encode
generate_l_address h tx_hash =
    b'L' ∷ take 40 (hex_encode (h.shake 32 (bytes "L-ADDRESS:" ++ tx_hash)))

abbrev pub bytes_equal : Bytes → Bytes → Bool
bytes_equal [] [] = true
bytes_equal [] (y ∷ ys) = false
bytes_equal (x ∷ xs) [] = false
bytes_equal (x ∷ xs) (y ∷ ys) = x == y && bytes_equal xs ys

-- Version and checksum of a decoded address.
unfoldable pub decoded_is_valid : Hashes → Bytes → Bool
unfolding calculate_checksum
decoded_is_valid h [] = false
decoded_is_valid h (v ∷ rest) =
    if length (v ∷ rest) == address_len
    then if v == address_version
      then bytes_equal (drop 21 (v ∷ rest)) (calculate_checksum h (take 21 (v ∷ rest)))
      else false
    else false

abbrev pub is_hex : Bytes → Bool
is_hex s = elim (hex_decode s) [ none ↦ false | some _ ↦ true ]

unfoldable pub is_valid_address : Hashes → Bytes → Bool
unfolding decoded_is_valid
is_valid_address h [] = false
is_valid_address h (c ∷ rest) =
    if c == b'S'
    then if length (c ∷ rest) == 51
      then (elim (hex_decode rest) [ none ↦ false | some d ↦ decoded_is_valid h d ])
      else false
    else if c == b'L'
    then if length (c ∷ rest) == 41 then is_hex rest else false
    else false

unfoldable pub is_valid_l_address : Bytes → Bool
is_valid_l_address [] = false
is_valid_l_address (c ∷ rest) =
    if length (c ∷ rest) == 41 then if c == b'L' then is_hex rest else false else false
