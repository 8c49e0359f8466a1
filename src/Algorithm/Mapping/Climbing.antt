-- ===== src/Algorithm/Mapping/Climbing.antt =====
-- The assertion of `linear_map` against the mappings that src/algorithm.cpp makes.
use exposure.Base.{
  ℕ, zero, suc, ◌+◌, ◌-◌, ◌%◌, ◌^◌, ◌≤◌, ◌<◌, ◌≡◌, refl, ◌∙◌, true, inl, inr, some, List, [], ◌∷◌,
  ◌++◌, map, length, get_elem?, leb, ◌==◌, if◌then◌else◌, arith, Bool-cases, length-append,
  length-map,
}
use exposure.Base.Outcome.{Outcome, ok, ◌>>=◌}
use exposure.Protocol.Schema.{Float32}
use exposure.Algorithm.Arithmetic.{Arithmetic, PixelArithmetic}
use exposure.Algorithm.Equalisation
use exposure.Algorithm.Equalisation.{get_equalisation_parameters}
use exposure.Algorithm.Equalisation.Lists.{Ascends, Ascends-le}
use exposure.Algorithm.Equalisation.Matching.{AreComparable}
use exposure.Algorithm.Equalisation.Ordered.{get_equalisation_parameters-returns}
use exposure.Algorithm.Mapping.{entry-some, rounded_bin, neighbours, linear_map}

then_returns {ℓ κ} :
    {A : Type ℓ} {B : Type κ} (o : Outcome A) (f : A → B)
    → (x : A) × (o ≡ ok x)
    → (y : B) × ((o >>= λ x. ok (f x)) ≡ ok y)
then_returns o f (x, e) = (f x, rw e)

module _ (a : Arithmetic) (p : PixelArithmetic a) where
  abbrev pub Le : Float32 → Float32 → Type 0
  Le x y = p.le (a.of_float x) (a.of_float y) ≡ true

  -- How the levels of the bins of a histogram compare: up to the last bin they rise with the bin, the
  -- last entry is above them, and none is a NaN. With an integer `Quantum`, no product of a bin of a
  -- histogram and `QuantumRange` wraps.
  pub record IsMonotone (last : ℕ) : Type 0 where
    pub levels :
        (m n : ℕ)
        → m ≤ n
        → n ≤ last
        → Le (Equalisation.level a m (suc last)) (Equalisation.level a n (suc last))
    pub below_full :
        (m : ℕ) → m ≤ last → Le (Equalisation.level a m (suc last)) (Equalisation.full_level a last)
    pub full : Le (Equalisation.full_level a last) (Equalisation.full_level a last)

  -- No entry is above the next one.
  abbrev Climbs : List Float32 → Type 0
  Climbs [] = Unit {0}
  Climbs (x ∷ []) = Le x x
  Climbs (x ∷ y ∷ xs) = Le x x × Le x y × Climbs (y ∷ xs)

  levels-Climbs :
      (last : ℕ) (lo : ℕ) (bins : List ℕ)
      → IsMonotone last
      → Ascends lo bins last
      → Climbs
          (map (λ b. Equalisation.level a b (suc last)) bins ++ Equalisation.full_level a last ∷ [])
  levels-Climbs last lo [] m s = m.full
  levels-Climbs last lo (b ∷ []) m s = (m.levels b b (omega arith) s.1, m.below_full b s.1, m.full)
  levels-Climbs last lo (b ∷ c ∷ bins) m s =
      let top = Ascends-le c bins last s.1.1 in
      (
        m.levels b b (omega arith) (omega (arith, s.1.0, top)),
        m.levels b c s.1.0 top,
        levels-Climbs last b (c ∷ bins) m s.1,
      )

  Climbs-at :
      (xs : List Float32) (i : ℕ)
      → i < length xs
      → Climbs xs
      → (x : Float32) × (get_elem? xs i ≡ some x) × Le x x
  Climbs-at [] i h c = elim h [ ]
  Climbs-at (x ∷ []) zero h c = (x, refl, c)
  Climbs-at (x ∷ []) (suc i) h c = absurd (omega arith)
  Climbs-at (x ∷ y ∷ xs) zero h c = (x, refl, c.0)
  Climbs-at (x ∷ y ∷ xs) (suc i) h c = Climbs-at (y ∷ xs) i (omega arith) c.2

  Climbs-step :
      (xs : List Float32) (i : ℕ)
      → suc i < length xs
      → Climbs xs
      → (x : Float32) × (y : Float32) × (get_elem? xs i ≡ some x)
        × (get_elem? xs (suc i) ≡ some y)
        × Le x y
  Climbs-step [] i h c = absurd (omega arith)
  Climbs-step (x ∷ []) i h c = absurd (omega arith)
  Climbs-step (x ∷ y ∷ xs) zero h c = (x, y, refl, refl, c.1)
  Climbs-step (x ∷ y ∷ xs) (suc i) h c = Climbs-step (y ∷ xs) i (omega arith) c.2

  below-Le :
      (xs : List Float32) (bin : ℕ)
      → bin < length xs
      → Climbs xs
      → (x : Float32) × (w : Float32) × (get_elem? xs bin ≡ some x)
        × (get_elem? xs (if bin == 0 then 0 else bin - 1) ≡ some w)
        × Le w x
  below-Le xs zero h c = let (x, e, l) = Climbs-at xs zero h c in (x, x, e, e, l)
  below-Le xs (suc bin) h c =
      let (w, x, e, f, l) = Climbs-step xs bin h c in
      let same : (if suc bin == 0 then 0 else suc bin - 1) ≡ bin = ground arith in
      (x, w, f, rw same e, l)

  above-Le :
      (xs : List Float32) (bin : ℕ) (x : Float32)
      → bin < length xs
      → length xs ≤ 2 ^ 32
      → Climbs xs
      → get_elem? xs bin ≡ some x
      → (y : Float32) × (get_elem? xs (if leb (length xs - 1) bin then bin else (bin + 1) % 2 ^ 32)
          ≡ some y)
        × Le x y
  above-Le xs bin x h small c e = elim (Bool-cases (leb (length xs - 1) bin)) [
    | inl top ↦
        let (y, f, l) = Climbs-at xs bin h c in
        let same : y ≡ x = cc in (x, rw (top, e), rw same at l)
    | inr below ↦
        let more : suc bin < length xs = ground arith in
        let (x', y, e', f, l) = Climbs-step xs bin more c in
        let same : x' ≡ x = cc in
        let next : (bin + 1) % 2 ^ 32 ≡ suc bin = omega arith in
        (y, rw (below, next) f, rw same at l)
  ]

  neighbours-returns :
      (xs : List Float32) (bin : ℕ)
      → bin < length xs
      → length xs ≤ 2 ^ 32
      → Climbs xs
      → (n : a.Double × a.Double × a.Double) × (neighbours a p bin xs ≡ ok n)
  unfolding neighbours
  neighbours-returns xs bin h small c =
      let (x, w, e, f, l) = below-Le xs bin h c in
      let (y, g, l') = above-Le xs bin x h small c e in
      (
        (a.of_float w, a.of_float x, a.of_float y),
        rw (entry-some xs bin x e, entry-some xs _ w f, entry-some xs _ y g, l, l'),
      )

  linear_map-returns :
      (value : a.Quantum) (xs : List Float32)
      → rounded_bin a p value (length xs) < length xs
      → length xs ≤ 2 ^ 32
      → Climbs xs
      → (q : a.Quantum) × (linear_map a p value xs ≡ ok q)
  unfolding linear_map
  linear_map-returns value xs h small c =
      then_returns (neighbours a p (rounded_bin a p value (length xs)) xs) _
        (neighbours-returns xs (rounded_bin a p value (length xs)) h small c)

-- Whatever the two histograms are, the worker can map every value to the brightness that the server
-- computed: the call returns a mapping, and with it `linear_map` reads within the array and its
-- assertion holds. The histograms have the same length, their sums up to the last bins can be
-- compared, the levels of the bins up to the last one compare as the bins do, and the value is rounded
-- to one of the bins.
pub linear_map-get_equalisation_parameters :
    (a : Arithmetic) (p : PixelArithmetic a) (previous current : List Float32) (last : ℕ)
    (value : a.Quantum)
    → AreComparable a previous current last
    → IsMonotone a p last
    → length previous ≡ suc last
    → length current ≡ suc last
    → last < 2 ^ 32
    → rounded_bin a p value (suc last) ≤ last
    → (mapping : List Float32) × (q : a.Quantum) × (get_equalisation_parameters a previous current
        ≡ ok mapping)
      × (linear_map a p value mapping ≡ ok q)
linear_map-get_equalisation_parameters a p previous current last value ordered m lp lc small
      inside =
    let (bins, next, e, size, climbs, matched) =
      get_equalisation_parameters-returns a previous current last ordered lp lc in
    let mapping =
      map (λ b. Equalisation.level a b (suc last)) bins ++ Equalisation.full_level a last ∷ [] in
    let long : length mapping ≡ suc last =
      length-append (map (λ b. Equalisation.level a b (suc last)) bins)
        (Equalisation.full_level a last ∷ [])
      ∙ rw (length-map (λ b. Equalisation.level a b (suc last)) bins, size) (omega arith) in
    let (q, done) =
      linear_map-returns a p value mapping (rw long (omega arith)) (omega arith)
        (levels-Climbs a p last 0 bins m climbs) in
    (mapping, q, e, done)
