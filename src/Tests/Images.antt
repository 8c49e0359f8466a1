-- ===== src/Tests/Images.antt =====
-- The theorems on pixels at concrete images, with whole numbers for `double`.
use exposure.Base.{
  ℕ, zero, suc, ◌-◌, ◌*◌, ◌/◌, ◌%◌, ◌^◌, ◌<◌, ◌≡◌, refl, some, none, List, [], ◌∷◌, map, length,
  get_elem?, count, leb, ltb, arith, if◌then◌else◌,
}
use exposure.Base.Outcome.{ok}
use exposure.Config.{histogram_segments}
use exposure.Algorithm.Arithmetic.{PixelArithmetic}
use exposure.Algorithm.Equalisation.{get_equalisation_parameters}
use exposure.Algorithm.Mapping.{entry, neighbours, linear_map}
use exposure.Algorithm.Mapping.Climbing.{IsMonotone, linear_map-get_equalisation_parameters}
use exposure.Algorithm.Lightness.{bucket, proportion, compute_lightness_histogram}
use exposure.Algorithm.Lightness.Counted.{sum, in_bin, compute_lightness_histogram-counts}
use exposure.Algorithm.Images.{equalise_rows}
use exposure.Algorithm.Images.Equalised.{IsMapped, equalise_rows-maps}
use exposure.Tests.Algorithm.{whole, comparable}

abbrev pub pixels : PixelArithmetic whole
pixels = record {
  quantum_range = 65535;
  of_nat = λ n. n;
  sub = λ x y. x - y;
  mul = λ x y. x * y;
  div = λ x y. x / y;
  le = leb;
  round = λ x. x;
  absolute = λ x. x;
  to_size = λ x. x;
  to_quantum = λ x. x;
  ratio = λ v. v;
  scaled = λ x n. x * n / 65535;
  to_uint32 = λ x. x % 2 ^ 32;
}

three_bins : IsMonotone whole pixels 2
three_bins = record {
  levels = λ m n h top. ground arith;
  below_full = λ m h. ground arith;
  full = refl;
}

linear_map-get_equalisation_parameters_example :
    (mapping : List ℕ) × (q : ℕ) × (get_equalisation_parameters whole
        (2 ∷ 1 ∷ 1 ∷ [])
        (1 ∷ 1 ∷ 2 ∷ [])
      ≡ ok mapping)
    × (linear_map whole pixels 65535 mapping ≡ ok q)
linear_map-get_equalisation_parameters_example =
    linear_map-get_equalisation_parameters whole pixels (2 ∷ 1 ∷ 1 ∷ []) (1 ∷ 1 ∷ 2 ∷ []) 2 65535
      comparable three_bins refl refl (omega arith) (omega arith)

abbrev black_and_white : List ℕ
black_and_white = 0 ∷ 65535 ∷ []

in_a_bin :
    (i v : ℕ) → get_elem? black_and_white i ≡ some v → bucket whole pixels v < histogram_segments
in_a_bin zero v h = let same : 0 ≡ v = cc in omega arith
in_a_bin (suc zero) v h = let same : 65535 ≡ v = cc in omega arith
in_a_bin (suc (suc i)) v h = cc

compute_lightness_histogram-counts_example :
    (counts : List ℕ) × (compute_lightness_histogram whole pixels 1 2 black_and_white
      ≡ ok (map (proportion whole pixels 1 2) counts))
    × (length counts ≡ histogram_segments)
    × ((i : ℕ)
        → get_elem? counts i ≡ (
            if ltb i histogram_segments
            then some (count (in_bin whole pixels i) black_and_white)
            else none))
    × (sum counts ≡ 2)
compute_lightness_histogram-counts_example =
    compute_lightness_histogram-counts whole pixels 1 2 black_and_white refl (omega arith) in_a_bin

abbrev one_pixel : List ℕ
one_pixel = 65535 ∷ 7 ∷ 9 ∷ []

abbrev rising : List ℕ
rising = 0 ∷ 21845 ∷ 65535 ∷ []

white_maps : linear_map whole pixels 65535 rising ≡ ok 65535
unfolding linear_map neighbours entry
white_maps = refl

within : (i v : ℕ) → get_elem? one_pixel i ≡ some v → i < 3
within zero v h = omega arith
within (suc zero) v h = omega arith
within (suc (suc zero)) v h = omega arith
within (suc (suc (suc i))) v h = cc

first_maps :
    (k v : ℕ)
    → get_elem? one_pixel (k * 3) ≡ some v
    → (q : ℕ) × (linear_map whole pixels v rising ≡ ok q)
first_maps zero v h = let same : 65535 ≡ v = cc in (65535, rw (← same) white_maps)
first_maps (suc k) v h = absurd (omega (arith, within (suc k * 3) v h))

equalise_rows-maps_example :
    (after : List ℕ) × (equalise_rows whole pixels rising 1 1 (0, one_pixel) ≡ ok (3, after))
    × IsMapped whole pixels rising one_pixel 1 after
equalise_rows-maps_example = equalise_rows-maps whole pixels rising one_pixel 1 1 refl first_maps
