-- ===== src/Tests/Blocks.antt =====
-- Ranges of block heights.
use shadowyapparatus.Prelude.{◌≡◌, refl, arith, [], ◌∷◌, add64}
use shadowyapparatus.Heights.{ranges_from, compress_height_ranges}
use shadowyapparatus.Heights.Ranges.{expand, AreMaximal, compress_height_ranges_lem}

three_ranges : compress_height_ranges (0 ∷ 1 ∷ 2 ∷ 5 ∷ 8 ∷ 9 ∷ []) ≡ (0, 2) ∷ (5, 5) ∷ (8, 9) ∷ []
unfolding compress_height_ranges ranges_from add64
three_ranges = refl

compress_height_ranges_lem_example :
    (expand (compress_height_ranges (0 ∷ 1 ∷ 5 ∷ [])) ≡ 0 ∷ 1 ∷ 5 ∷ [])
    × AreMaximal (compress_height_ranges (0 ∷ 1 ∷ 5 ∷ []))
compress_height_ranges_lem_example = compress_height_ranges_lem (0 ∷ 1 ∷ 5 ∷ []) (omega arith)
