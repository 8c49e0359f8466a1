-- ===== src/Algorithm/Lightness/Counted.antt =====
-- The counts of the bins against the pixels that were read.
use native.Mathlib.Nat.{add-mul}
use exposure.Base.{
  ℕ, zero, suc, ◌+◌, ◌-◌, ◌*◌, ◌%◌, ◌^◌, ◌≤◌, ◌<◌, ◌≡◌, refl, ap, ◌∙◌, sym, Bool, some, List, [],
  ◌∷◌, map, set, replicate, length, take, count, get_elem?, ◌==◌, if◌then◌else◌, arith, length-set,
  length-replicate, length-take, count-le-length, subst, none, inl, inr, ltb, Bool-cases,
  get_elem?-set, get_elem?_there,
}
use exposure.Base.Outcome.{ok}
use exposure.Config.{histogram_segments}
use exposure.Algorithm.Arithmetic.{Arithmetic, PixelArithmetic}
use exposure.Algorithm.Mapping.{entry-some}
use exposure.Algorithm.Lightness.{
  increment, bucket, count_row, count_rows, proportion, compute_lightness_histogram,
}

abbrev pub sum : List ℕ → ℕ
sum [] = 0
sum (n ∷ ns) = n + sum ns

sum-replicate : (n : ℕ) → sum (replicate n 0) ≡ 0
sum-replicate zero = refl
sum-replicate (suc n) = omega (arith, sum-replicate n)

sum-set : (ns : List ℕ) (i n : ℕ) → get_elem? ns i ≡ some n → sum (set ns i (suc n)) ≡ suc (sum ns)
sum-set [] i n e = cc
sum-set (m ∷ ns) zero n e = let same : m ≡ n = cc in omega arith
sum-set (m ∷ ns) (suc i) n e = omega (arith, sum-set ns i n e)

get_elem?-replicate : (k i n : ℕ) → i < k → get_elem? (replicate k n) i ≡ some n
get_elem?-replicate zero i n h = elim h [ ]
get_elem?-replicate (suc k) zero n h = refl
get_elem?-replicate (suc k) (suc i) n h = get_elem?-replicate k i n (omega arith)

module _ {ℓ} {A : Type ℓ} where
  count-take-suc :
      (t : A → Bool) (xs : List A) (i : ℕ) (x : A)
      → get_elem? xs i ≡ some x
      → count t (take (suc i) xs) ≡ (if t x then suc (count t (take i xs)) else count t (take i xs))
  count-take-suc t [] i x e = cc
  count-take-suc t (y ∷ xs) zero x e = let same : y ≡ x = cc in rw same
  count-take-suc t (y ∷ xs) (suc i) x e = ground (arith, count-take-suc t xs i x e)

  take_all : (xs : List A) (n : ℕ) → length xs ≡ n → take n xs ≡ xs
  take_all [] zero e = refl
  take_all [] (suc n) e = refl
  take_all (x ∷ xs) zero e = absurd (omega arith)
  take_all (x ∷ xs) (suc n) e = ap (◌∷◌ x) (take_all xs n (omega arith))

get_elem?_beyond : (ns : List ℕ) (i : ℕ) → length ns ≤ i → get_elem? ns i ≡ none
get_elem?_beyond [] i h = refl
get_elem?_beyond (n ∷ ns) zero h = elim h [ ]
get_elem?_beyond (n ∷ ns) (suc i) h = get_elem?_beyond ns i (omega arith)

entry_or_none :
    (ns : List ℕ) (i n : ℕ)
    → (i < histogram_segments → get_elem? ns i ≡ some n)
    → length ns ≡ histogram_segments
    → get_elem? ns i ≡ (if ltb i histogram_segments then some n else none)
entry_or_none ns i n h size = elim (Bool-cases (ltb i histogram_segments)) [
  | inl inside ↦ rw inside (h (ground arith))
  | inr beyond ↦ rw beyond (get_elem?_beyond ns i (ground arith))
]

abbrev pub in_bin : (a : Arithmetic) → PixelArithmetic a → ℕ → a.Quantum → Bool
in_bin a p i pixel = bucket a p pixel == i

module _ (a : Arithmetic) (p : PixelArithmetic a) (pixels : List a.Quantum) where
  -- The counts after the first pixels.
  record IsCounted (seen : ℕ) (histogram : List ℕ) : Type 0 where
    size : length histogram ≡ histogram_segments
    bins :
        (i : ℕ)
        → i < histogram_segments
        → get_elem? histogram i ≡ some (count (in_bin a p i) (take seen pixels))
    total : sum histogram ≡ seen

  IsCounted-start : IsCounted 0 (replicate histogram_segments 0)
  IsCounted-start = record {
    size = length-replicate {A = ℕ} histogram_segments 0;
    bins = λ i h. get_elem?-replicate histogram_segments i 0 h;
    total = sum-replicate histogram_segments;
  }

  increment-IsCounted :
      (seen : ℕ) (histogram : List ℕ) (pixel : a.Quantum)
      → get_elem? pixels seen ≡ some pixel
      → bucket a p pixel < histogram_segments
      → seen < 2 ^ 64 - 1
      → IsCounted seen histogram
      → (h : List ℕ) × (increment histogram (bucket a p pixel) ≡ ok h) × IsCounted (suc seen) h
  unfolding increment
  increment-IsCounted seen histogram pixel there inside small c =
      let b = bucket a p pixel in
      let n = count (in_bin a p b) (take seen pixels) in
      let few : n ≤ seen =
        omega (arith, count-le-length (in_bin a p b) (take seen pixels), length-take seen pixels) in
      let exact : (n + 1) % 2 ^ 64 ≡ suc n = omega arith in
      (
        set histogram b (suc n),
        rw (entry-some histogram b n (c.bins b inside), exact),
        record {
          size = length-set histogram b (suc n) ∙ c.size;
          bins = λ i h. ground (
            arith,
            get_elem?-set histogram b i (suc n),
            c.size,
            c.bins i h,
            count-take-suc (in_bin a p i) pixels seen pixel there,
          );
          total = omega (arith, sum-set histogram b n (c.bins b inside), c.total);
        },
      )

  module _ (small : length pixels < 2 ^ 64)
      (inside : (i : ℕ) (v : a.Quantum)
        → get_elem? pixels i ≡ some v
        → bucket a p v < histogram_segments) where
    count_row-IsCounted :
        (rounds x y columns : ℕ) (histogram : List ℕ)
        → x + rounds ≡ columns
        → y * columns + columns ≤ length pixels
        → IsCounted (x + y * columns) histogram
        → (h : List ℕ) × (count_row a p rounds x y columns pixels histogram ≡ ok h)
          × IsCounted (y * columns + columns) h
    unfolding count_row
    count_row-IsCounted zero x y columns histogram at fits c =
        let there : x + y * columns ≡ y * columns + columns = omega arith in
        (histogram, refl, rw there at c)
    count_row-IsCounted (suc rounds) x y columns histogram at fits c =
        let (pixel, e) = get_elem?_there pixels (x + y * columns) (omega arith) in
        let (h, counted, c') =
          increment-IsCounted (x + y * columns) histogram pixel e (inside _ pixel e) (omega arith)
            c in
        let next : suc (x + y * columns) ≡ (x + 1) + y * columns = omega arith in
        let (h', rest, c'') =
          count_row-IsCounted rounds (x + 1) y columns h (omega arith) fits (rw next at c') in
        (h', rw (entry-some pixels (x + y * columns) pixel e, counted) rest, c'')

    count_rows-IsCounted :
        (rounds y rows columns : ℕ) (histogram : List ℕ)
        → y + rounds ≡ rows
        → rows * columns ≡ length pixels
        → IsCounted (y * columns) histogram
        → (h : List ℕ) × (count_rows a p rounds y columns pixels histogram ≡ ok h)
          × IsCounted (rows * columns) h
    unfolding count_rows
    count_rows-IsCounted zero y rows columns histogram at fits c =
        let there : y ≡ rows = omega arith in (histogram, refl, rw there at c)
    count_rows-IsCounted (suc rounds) y rows columns histogram at fits c =
        let split : rows * columns ≡ (y * columns + 1 * columns) + rounds * columns =
          ap (λ (t : ℕ). t * columns) (let e : rows ≡ (y + 1) + rounds = omega arith in e)
          ∙ add-mul (y + 1) rounds columns
          ∙ ap (λ (t : ℕ). t + rounds * columns) (add-mul y 1 columns) in
        let (h, row, c') =
          count_row-IsCounted columns 0 y columns histogram (omega arith) (omega arith)
            (let start : y * columns ≡ 0 + y * columns = omega arith in rw start at c) in
        let next : y * columns + columns ≡ (y + 1) * columns = omega (arith, add-mul y 1 columns) in
        let (h', rest, c'') =
          count_rows-IsCounted rounds (y + 1) rows columns h (omega arith) fits (rw next at c') in
        (h', rw row rest, c'')

-- For an image with a pixel for each row and column, fewer than 2^64 of them, each of which rounds
-- to one of the bins: the call reads and counts within its arrays, and returns for each bin the
-- proportion of the number of pixels in that bin; the numbers of all bins add up to the number of
-- pixels.
pub compute_lightness_histogram-counts :
    (a : Arithmetic) (p : PixelArithmetic a) (rows columns : ℕ) (pixels : List a.Quantum)
    → rows * columns ≡ length pixels
    → length pixels < 2 ^ 64
    → ((i : ℕ) (v : a.Quantum) → get_elem? pixels i ≡ some v → bucket a p v < histogram_segments)
    → (counts : List ℕ) × (compute_lightness_histogram a p rows columns pixels
        ≡ ok (map (proportion a p rows columns) counts))
      × (length counts ≡ histogram_segments)
      × ((i : ℕ)
          → get_elem? counts i
            ≡ (if ltb i histogram_segments then some (count (in_bin a p i) pixels) else none))
      × (sum counts ≡ rows * columns)
unfolding compute_lightness_histogram
compute_lightness_histogram-counts a p rows columns pixels shape small inside =
    let start : 0 ≡ 0 * columns = omega arith in
    let (counts, e, c) =
      count_rows-IsCounted a p pixels small inside rows 0 rows columns
        (replicate histogram_segments 0) (omega arith) shape
        (subst (λ n. IsCounted a p pixels n (replicate histogram_segments 0)) start
          (IsCounted-start a p pixels)) in
    (
      counts,
      rw e,
      c.size,
      λ i.
          entry_or_none counts i _
            (λ h.
              c.bins i h
              ∙ ap (λ seen. some (count (in_bin a p i) seen))
                  (take_all pixels (rows * columns) (sym shape)))
            c.size,
      c.total,
    )
