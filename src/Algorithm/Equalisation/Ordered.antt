-- ===== src/Algorithm/Equalisation/Ordered.antt =====
-- `get_equalisation_parameters` of src/algorithm.cpp, with sums that can be compared.
use exposure.Base.{ℕ, suc, ◌≡◌, List, ◌∷◌, [], ◌++◌, map, length}
use exposure.Base.Outcome.{ok}
use exposure.Protocol.Schema.{Float32}
use exposure.Algorithm.Arithmetic.{Arithmetic}
use exposure.Algorithm.Equalisation
use exposure.Algorithm.Equalisation.{get_equalisation_parameters}
use exposure.Algorithm.Equalisation.Lists.{Ascends}
use exposure.Algorithm.Equalisation.Matching.{AreComparable, Matches}
use exposure.Algorithm.Equalisation.Loop.{get_equalisation_parameters-Matches}

-- For two histograms of the same length, whose sums up to the last bins can be compared with each
-- other, the call returns: the loop ends, and reads and writes within the arrays. All entries but the
-- last are levels of bins of the previous histogram, which rise from 0 at least to the last bin at
-- most. Each entry is matched by the sums: from the bin where the entry before it left off, it passes
-- the bins of the previous histogram with a sum less than its own, and is left at the first one of a
-- greater sum, or of the same sum, where the next entry starts one bin further, or at the last bin.
-- The last entry is the number of the last bin times QuantumRange, not divided by the size.
pub get_equalisation_parameters-returns :
    (a : Arithmetic) (previous current : List Float32) (last : ℕ)
    → AreComparable a previous current last
    → length previous ≡ suc last
    → length current ≡ suc last
    → (bins : List ℕ) × (next : ℕ) × (get_equalisation_parameters a previous current
        ≡ ok (
            map (λ b. Equalisation.level a b (suc last)) bins
            ++ Equalisation.full_level a last ∷ []))
      × (length bins ≡ last)
      × Ascends 0 bins last
      × Matches a previous current last 0 0 bins next
get_equalisation_parameters-returns a previous current last comparable lp lc =
    get_equalisation_parameters-Matches a previous current last lp lc comparable
