-- ===== src/Tests/Algorithm.antt =====
-- The theorems on the equalisation at concrete histograms, with whole numbers for `double`.
use exposure.Base.{ℕ, ◌+◌, ◌*◌, ◌/◌, ◌≡◌, refl, List, [], ◌∷◌, ◌++◌, length, arith, ltb, ◌==◌, map}
use exposure.Base.Outcome.{ok}
use exposure.Algorithm.Arithmetic.{Arithmetic}
use exposure.Algorithm.Equalisation.{get_equalisation_parameters, level, full_level}
use exposure.Algorithm.Equalisation.Lists.{Ascends}
use exposure.Algorithm.Equalisation.Matching.{AreComparable, Matches}
use exposure.Algorithm.Equalisation.Ordered.{get_equalisation_parameters-returns}

abbrev pub whole : Arithmetic
whole = record {
  Double = ℕ;
  zero_double = 0;
  of_float = λ x. x;
  add = λ x y. x + y;
  lt = ltb;
  eq = λ x y. x == y;
  Quantum = ℕ;
  times_quantum_range = λ n. n * 65535;
  divided_by = λ x n. x / n;
  to_float = λ x. x;
  to_double = λ x. x;
  narrow = λ x. x;
}

pub comparable : AreComparable whole (2 ∷ 1 ∷ 1 ∷ []) (1 ∷ 1 ∷ 2 ∷ []) 2
comparable i j hi hj = ground arith

get_equalisation_parameters-returns_example :
    (bins : List ℕ) × (next : ℕ) × (get_equalisation_parameters whole
        (2 ∷ 1 ∷ 1 ∷ [])
        (1 ∷ 1 ∷ 2 ∷ [])
      ≡ ok (map (λ b. level whole b 3) bins ++ full_level whole 2 ∷ []))
    × (length bins ≡ 2)
    × Ascends 0 bins 2
    × Matches whole (2 ∷ 1 ∷ 1 ∷ []) (1 ∷ 1 ∷ 2 ∷ []) 2 0 0 bins next
get_equalisation_parameters-returns_example =
    get_equalisation_parameters-returns whole (2 ∷ 1 ∷ 1 ∷ []) (1 ∷ 1 ∷ 2 ∷ []) 2 comparable refl
      refl
