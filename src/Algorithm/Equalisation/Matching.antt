-- ===== src/Algorithm/Equalisation/Matching.antt =====
-- Which bins `get_equalisation_parameters` of src/algorithm.cpp matches, said of the sums of the two
-- histograms and without the loop.
use exposure.Base.{
  ℕ, zero, suc, ◌+◌, ◌≤◌, ◌<◌, ◌≡◌, refl, sym, ap, subst, true, ◌⊎◌, some, List, [], ◌∷◌, ◌++◌,
  length, get_elem?, ltb, arith, if◌then◌else◌,
}
use exposure.Protocol.Schema.{Float32}
use exposure.Algorithm.Arithmetic.{Arithmetic}

module _ (a : Arithmetic) where
  abbrev pub sum_from : ℕ → List Float32 → a.Double → a.Double
  sum_from zero xs start = start
  sum_from (suc n) [] start = start
  sum_from (suc n) (x ∷ xs) start = sum_from n xs (a.add start (a.of_float x))

  -- The sum of the first entries
  abbrev pub sum_of : ℕ → List Float32 → a.Double
  sum_of n xs = sum_from n xs a.zero_double

  pub sum_from-suc :
      (i : ℕ) (xs : List Float32) (start : a.Double) (x : Float32)
      → get_elem? xs i ≡ some x
      → sum_from (suc i) xs start ≡ a.add (sum_from i xs start) (a.of_float x)
  sum_from-suc i [] start x e = cc
  sum_from-suc zero (y ∷ xs) start x e =
      let same : y ≡ x = cc in ap (λ z. a.add start (a.of_float z)) same
  sum_from-suc (suc i) (y ∷ xs) start x e = sum_from-suc i xs (a.add start (a.of_float y)) x e

  -- The sums of the two histograms, up to their last bins, can be compared with each other: none of
  -- them is a NaN.
  abbrev pub AreComparable : List Float32 → List Float32 → ℕ → Type 0
  AreComparable previous current last =
      (i j : ℕ)
      → i ≤ last
      → j ≤ last
      → (a.lt (sum_of i current) (sum_of j previous) ≡ true)
        ⊎ ((a.lt (sum_of j previous) (sum_of i current) ≡ true)
            ⊎ (a.eq (sum_of i current) (sum_of j previous) ≡ true))

  module _ (previous current : List Float32) (last : ℕ) where
    -- Why an entry of the mapping was left at a bin of the previous histogram, and the bin that the
    -- next entry starts from: the sum before the entry is less than the one before the bin, or the
    -- bin is the last one, or the sums are equal, and both go on.
    abbrev pub Leaves : a.Double → a.Double → ℕ → ℕ → Type 0
    Leaves c p bin next =
        ((a.lt c p ≡ true) × (next ≡ bin))
        ⊎ (((a.lt p c ≡ true) × (bin ≡ last) × (next ≡ bin))
            ⊎ ((a.eq c p ≡ true) × (next ≡ (if ltb bin last then suc bin else bin))))

    -- The entry starts from a bin, and passes those whose sums are less than its own.
    pub record IsMatched (entry from bin next : ℕ) : Type 0 where
      pub from_le : from ≤ bin
      pub passed :
          (k : ℕ) → from ≤ k → k < bin → a.lt (sum_of k previous) (sum_of entry current) ≡ true
      pub leaves : Leaves (sum_of entry current) (sum_of bin previous) bin next

    abbrev pub Matches : ℕ → ℕ → List ℕ → ℕ → Type 0
    Matches entry from [] next = from ≡ next
    Matches entry from (bin ∷ bins) next =
        (middle : ℕ) × IsMatched entry from bin middle × Matches (suc entry) middle bins next

    pub Matches-append :
        (entry from : ℕ) (bins : List ℕ) (middle n bin next : ℕ)
        → n ≡ entry + length bins
        → Matches entry from bins middle
        → IsMatched n middle bin next
        → Matches entry from (bins ++ bin ∷ []) next
    Matches-append entry from [] middle n bin next e h m =
        let same : n ≡ entry = omega (arith, e) in
        (
          next,
          subst (λ i. IsMatched i from bin next) same
              (subst (λ f. IsMatched n f bin next) (sym h) m),
          refl,
        )
    Matches-append entry from (b ∷ bins) middle n bin next e (f, first, h) m =
        (f, first, Matches-append (suc entry) f bins middle n bin next (omega (arith, e)) h m)
