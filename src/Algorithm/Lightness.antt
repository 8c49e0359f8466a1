-- ===== src/Algorithm/Lightness.antt =====
-- `compute_lightness_histogram` of src/algorithm.cpp.
pub mod Counted
use exposure.Base.{ℕ, zero, suc, ◌+◌, ◌-◌, ◌*◌, ◌%◌, ◌^◌, List, map, set, replicate, length}
use exposure.Base.Outcome.{Outcome, ok, ◌>>=◌}
use exposure.Config.{histogram_segments}
use exposure.Protocol.Schema.{Float32}
use exposure.Algorithm.Arithmetic.{Arithmetic, PixelArithmetic}
use exposure.Algorithm.Mapping.{entry}

-- `histogram[i]++`, on an array of `uint64_t`
unfoldable pub increment : List ℕ → ℕ → Outcome (List ℕ)
increment histogram i = entry histogram i >>= λ n. ok (set histogram i ((n + 1) % 2 ^ 64))

module _ (a : Arithmetic) (p : PixelArithmetic a) where
  -- The bin of a pixel
  abbrev pub bucket : a.Quantum → ℕ
  bucket pixel = p.to_uint32 (p.scaled (p.ratio pixel) (histogram_segments - 1))

  -- The loop over `x`, with `rounds` to go, and the loop over `y`
  unfoldable pub count_row : (rounds x y columns : ℕ) → List a.Quantum → List ℕ → Outcome (List ℕ)
  unfolding increment
  count_row zero x y columns pixels histogram = ok histogram
  count_row (suc rounds) x y columns pixels histogram = entry pixels (x + y * columns) >>= λ pixel.
      (increment histogram (bucket pixel) >>= count_row rounds (x + 1) y columns pixels)

  unfoldable pub count_rows : (rounds y columns : ℕ) → List a.Quantum → List ℕ → Outcome (List ℕ)
  unfolding count_row
  count_rows zero y columns pixels histogram = ok histogram
  count_rows (suc rounds) y columns pixels histogram =
      count_row columns 0 y columns pixels histogram >>= count_rows rounds (y + 1) columns pixels

  -- `histogram[i] / pixelCount`
  abbrev pub proportion : (rows columns : ℕ) → ℕ → Float32
  proportion rows columns n =
      a.narrow (p.div (p.of_nat n) (p.mul (p.of_nat rows) (p.of_nat columns)))

  unfoldable pub compute_lightness_histogram :
      (rows columns : ℕ) → List a.Quantum → Outcome (List Float32)
  unfolding count_rows
  compute_lightness_histogram rows columns pixels =
      count_rows rows 0 columns pixels (replicate histogram_segments 0) >>= λ histogram.
      ok (map (proportion rows columns) histogram)
