-- ===== src/Crypto.antt =====
-- cmd/crypto.go: key pairs, signatures, and the search for a close identifier. ML-DSA-87 is that of
-- github.com/cloudflare/circl, and Keccak-256 and SHAKE-128 are those of golang.org/x/crypto/sha3:
-- parameters. A key is its bytes.
pub mod Closest
use Prim.Native.Nat.{bit_and, bit_xor}
use shadowyapparatus.Prelude.{
  ℕ, zero, suc, ◌+◌, ◌-◌, ◌*◌, ltb, ◌==◌, if◌then◌else◌, ◌&&◌, Bool, true, false, not, Option, none,
  some, List, [], ◌∷◌, ◌++◌, Bytes, length, take, drop, ◌≡◌,
}
use shadowyapparatus.Address.{Hashes}
use shadowyapparatus.Address.Hex.{hex_encode, AreBytes}

abbrev pub seed_size : ℕ
seed_size = 32

abbrev pub private_key_size : ℕ
private_key_size = 4896

abbrev pub public_key_size : ℕ
public_key_size = 2592

abbrev pub signature_size : ℕ
signature_size = 4627

-- A nil key, an error, or a text that is no key: none.
pub record Mldsa : Type 0 where
  pub new_key_from_seed : Bytes → Option (Bytes × Bytes)
  pub public_key_of : Bytes → Option Bytes
  pub sign_to : Bytes → Bytes → Option Bytes
  pub is_public_key : Bytes → Bool
  pub accepts : Bytes → Bytes → Bytes → Bool

-- What the code relies on for a key that was made from a seed.
pub record IsMldsa (s : Mldsa) : Type 0 where
  pub public_key :
      (seed pk sk : Bytes)
      → s.new_key_from_seed seed ≡ some (pk, sk)
      → AreBytes pk × (length pk ≡ public_key_size) × (s.is_public_key pk ≡ true)
  pub signature :
      (sk m sig : Bytes) → s.sign_to sk m ≡ some sig → AreBytes sig × (length sig ≡ signature_size)
  pub verified :
      (seed pk sk m sig : Bytes)
      → s.new_key_from_seed seed ≡ some (pk, sk)
      → s.sign_to sk m ≡ some sig
      → s.accepts pk m sig ≡ true

pub record KeyPair : Type 0 where
  pub seed : Bytes
  pub private_key : Bytes
  pub public_key : Bytes
  pub address : Bytes
  pub identifier : Bytes

abbrev pub zeros : ℕ → Bytes
zeros zero = []
zeros (suc n) = 0 ∷ zeros n

-- `copy` into an array of n bytes that are 0.
abbrev pub fit : ℕ → Bytes → Bytes
fit n bs = take n (bs ++ zeros n)

abbrev pub all_zeros : Bytes → Bool
all_zeros [] = true
all_zeros (b ∷ bs) = b == 0 && all_zeros bs

unfoldable pub generate_address : Hashes → Bytes → Bytes
generate_address h pk = fit 20 (drop 12 (h.keccak pk))

unfoldable pub generate_identifier : (ℕ → Bytes → Bytes) → Bytes → Bytes
generate_identifier shake128 m = shake128 16 m

module _ (h : Hashes) (shake128 : ℕ → Bytes → Bytes) (s : Mldsa) where
  unfoldable pub key_pair : Bytes → Bytes → Bytes → KeyPair
  unfolding generate_address generate_identifier
  key_pair seed pk sk = record {
    seed = seed;
    private_key = fit private_key_size sk;
    public_key = fit public_key_size pk;
    address = generate_address h pk;
    identifier = generate_identifier shake128 (fit public_key_size pk);
  }

  unfoldable pub new_key_pair_from_seed : Bytes → Option KeyPair
  unfolding key_pair
  new_key_pair_from_seed seed = elim (s.new_key_from_seed seed) [
    | none ↦ none
    | some (pk, sk) ↦ some (key_pair seed pk sk)
  ]

  -- A private key that can be read back has its own bytes.
  unfoldable pub new_key_pair_from_private_key : Bytes → Option KeyPair
  unfolding key_pair
  new_key_pair_from_private_key sk = elim (s.public_key_of sk) [
    | none ↦ none
    | some pk ↦ some (key_pair (take seed_size sk) pk sk)
  ]

unfoldable pub public_key_hex : KeyPair → Bytes
unfolding hex_encode
public_key_hex kp = hex_encode kp.public_key

module _ (s : Mldsa) where
  -- None: the seed is zero, or the package gives no key or no signature.
  unfoldable pub sign : KeyPair → Bytes → Option Bytes
  sign kp message =
      if all_zeros kp.seed
      then none
      else elim (s.new_key_from_seed kp.seed) [ none ↦ none | some (pk, sk) ↦ s.sign_to sk message ]

  unfoldable pub verify_signature : Bytes → Bytes → Bytes → Bool
  verify_signature pk message signature =
      if not (length pk == public_key_size)
      then false
      else if not (length signature == signature_size)
      then false
      else if not (s.is_public_key pk)
      then false
      else s.accepts pk message signature

-- The loop clears the lowest bit that is set; a byte has eight bits.
unfoldable pub clear_bits : ℕ → ℕ → ℕ
clear_bits zero x = 0
clear_bits (suc fuel) zero = 0
clear_bits (suc fuel) (suc x) = suc (clear_bits fuel (bit_and (suc x) x))

unfoldable pub hamming_distance : Bytes → Bytes → ℕ
unfolding clear_bits
hamming_distance [] bs = 0
hamming_distance (a ∷ xs) [] = 0
hamming_distance (a ∷ xs) (b ∷ ys) = clear_bits 8 (bit_xor a b) + hamming_distance xs ys

-- The loop from index i on, with the best so far.
unfoldable pub closest_loop : Bytes → ℕ → ℕ → ℕ → List Bytes → ℕ
unfolding hamming_distance
closest_loop target best distance i [] = best
closest_loop target best distance i (b ∷ bs) =
    let d = hamming_distance target b in
    let closer = ltb d distance in
    closest_loop target (if closer then i else best) (if closer then d else distance) (suc i) bs

-- None is -1.
unfoldable pub find_closest_match : Bytes → List Bytes → Option ℕ
unfolding closest_loop hamming_distance
find_closest_match target [] = none
find_closest_match target (b ∷ bs) = some (closest_loop target 0 (hamming_distance target b) 1 bs)
