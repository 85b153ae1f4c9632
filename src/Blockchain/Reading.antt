-- ===== src/Blockchain/Reading.antt =====
-- The methods of cmd/blockchain.go that only read.
use shadowyapparatus.Prelude.{
  ℕ, true, false, Option, none, some, List, [], ◌∷◌, Bytes, is_empty, ltb, if◌then◌else◌, take,
}
use shadowyapparatus.Dict.{Dict, lookup, bytes_key, number_key}
use shadowyapparatus.Blockchain.{Block, Blockchain}

unfoldable pub get_block : Bytes → Blockchain → Option Block
get_block h bc = lookup h bc.blocks

unfoldable pub get_block_by_height : ℕ → Blockchain → Option Block
get_block_by_height n bc = lookup n bc.blocks_by_height

-- An error without a tip; a nil block if the tip's is not stored.
unfoldable pub get_tip : Blockchain → Option (Option Block)
get_tip bc = if is_empty bc.tip_hash then none else some (lookup bc.tip_hash bc.blocks)

-- `sort.Slice` of the heights, the highest first. No height is there twice, so that its answer is
-- that of every sort.
unfoldable pub place : ℕ → List ℕ → List ℕ
place n [] = n ∷ []
place n (m ∷ ms) = elim (ltb m n) [ true ↦ n ∷ m ∷ ms | false ↦ m ∷ place n ms ]

unfoldable pub heights_down : Dict ℕ Block → List ℕ
unfolding place
heights_down [] = []
heights_down ((n, b) ∷ m) = place n (heights_down m)

abbrev with_block : Option Block → List Block → List Block
with_block none bs = bs
with_block (some b) bs = b ∷ bs

unfoldable pub blocks_of : List ℕ → Dict ℕ Block → List Block
blocks_of [] m = []
blocks_of (n ∷ ns) m = with_block (lookup n m) (blocks_of ns m)

-- For a count that is not negative.
unfoldable pub get_recent_blocks : ℕ → Blockchain → List Block
unfolding heights_down blocks_of
get_recent_blocks count bc =
    blocks_of (take count (heights_down bc.blocks_by_height)) bc.blocks_by_height
