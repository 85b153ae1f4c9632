-- ===== src/Heights.antt =====
-- `compressHeightRanges` of cmd/block.go. A range is kept as the pair that `formatRange` prints.
pub mod Ranges
use shadowyapparatus.Prelude.{ℕ, ◌==◌, true, false, List, [], ◌∷◌, add64}

-- The loop, with the range that is being built.
unfoldable pub ranges_from : ℕ → ℕ → List ℕ → List (ℕ × ℕ)
unfolding add64
ranges_from start end [] = (start, end) ∷ []
ranges_from start end (h ∷ heights) = elim (h == add64 end 1) [
  | true ↦ ranges_from start h heights
  | false ↦ (start, end) ∷ ranges_from h h heights
]

unfoldable pub compress_height_ranges : List ℕ → List (ℕ × ℕ)
unfolding ranges_from
compress_height_ranges [] = []
compress_height_ranges (h ∷ heights) = ranges_from h h heights
