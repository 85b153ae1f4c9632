-- ===== src/Blockchain/Hash.antt =====
-- The hash of a block and the Merkle root of its transactions.
use shadowyapparatus.Prelude.{
  ℕ, zero, suc, ◌+◌, ◌*◌, ◌/◌, ◌%◌, Option, none, some, List, [], ◌∷◌, ◌++◌, Bytes, bytes, length,
  ◌==◌, if◌then◌else◌, map, u64_mod, ◌-◌,
}
use shadowyapparatus.Address.Hex.{hex_encode, hex_value}
use shadowyapparatus.Transaction.{SignedTransaction}
use shadowyapparatus.Blockchain.{BlockHeader, Block, Outside}

-- `binary.LittleEndian`
unfoldable pub little_endian : ℕ → ℕ → Bytes
little_endian zero x = []
little_endian (suc n) x = x % 256 ∷ little_endian n (x / 256)

unfoldable pub zeros : ℕ → Bytes
zeros zero = []
zeros (suc n) = 0 ∷ zeros n

-- What `hex.DecodeString` returns besides its error: the bytes before the first wrong character.
unfoldable pub decoded_prefix : Bytes → Bytes
unfolding hex_value
decoded_prefix [] = []
decoded_prefix (x ∷ []) = []
decoded_prefix (x ∷ y ∷ rest) = elim (hex_value x) [
  | none ↦ []
  | some hi ↦ elim (hex_value y) [ none ↦ [] | some lo ↦ (hi * 16 + lo) ∷ decoded_prefix rest ]
]

-- `uint64(t.Unix())`
abbrev pub unix_bits : ℕ → ℕ
unix_bits t = (t / 1000000000 + (u64_mod - 62135596800)) % u64_mod

abbrev pub or_zeros : Bytes → Bytes
or_zeros bs = if length bs == 32 then bs else zeros 32

unfoldable pub hash_field : Bytes → Bytes
unfolding decoded_prefix zeros
hash_field text = or_zeros (decoded_prefix text)

unfoldable pub serialize_header : BlockHeader → Bytes
unfolding little_endian hash_field
serialize_header h =
    little_endian 4 h.version
    ++ hash_field h.previous_block_hash
    ++ hash_field h.merkle_root
    ++ little_endian 8 (unix_bits h.timestamp)
    ++ little_endian 8 h.height
    ++ little_endian 8 h.nonce
    ++ h.challenge_seed
    ++ h.proof_hash

abbrev pub zero_hash : Bytes
zero_hash = bytes "0000000000000000000000000000000000000000000000000000000000000000"

module _ (o : Outside) where
  unfoldable pub hash : Block → Bytes
  unfolding serialize_header hex_encode
  hash b = hex_encode (o.sha256 (serialize_header b.header))

  abbrev pub combine : Bytes → Bytes → Bytes
  combine x y = hex_encode (o.sha256 (x ++ y))

  -- The next level of the tree; the last of an odd number of hashes is paired with itself.
  unfoldable pub next_level : List Bytes → List Bytes
  unfolding hex_encode
  next_level [] = []
  next_level (x ∷ []) = combine x x ∷ []
  next_level (x ∷ y ∷ rest) = combine x y ∷ next_level rest

  -- The loop, on fuel: as many rounds as there are hashes are enough.
  unfoldable pub merkle_loop : ℕ → List Bytes → Option Bytes
  unfolding next_level
  merkle_loop fuel [] = none
  merkle_loop fuel (x ∷ []) = some x
  merkle_loop zero (x ∷ y ∷ rest) = none
  merkle_loop (suc fuel) (x ∷ y ∷ rest) = merkle_loop fuel (next_level (x ∷ y ∷ rest))

  unfoldable pub merkle_of : List Bytes → Option Bytes
  unfolding merkle_loop
  merkle_of [] = some zero_hash
  merkle_of (x ∷ xs) = merkle_loop (length (x ∷ xs)) (x ∷ xs)

  unfoldable pub calculate_merkle_root : List SignedTransaction → Option Bytes
  unfolding merkle_of
  calculate_merkle_root txs = merkle_of (map (λ t. t.tx_hash) txs)
