-- ===== src/Algorithm/Images/Equalised.antt =====
-- The pixels of an image before and after `image_equalise`.
use exposure.Base.{
  ℕ, zero, suc, ◌+◌, ◌*◌, ◌%◌, ◌≤◌, ◌<◌, ◌≡◌, ◌≢◌, refl, ◌∙◌, ◌⊎◌, inl, inr, some, List, set,
  length, get_elem?, ◌==◌, arith, length-set, get_elem?-set, get_elem?_there, subst, Bool-cases,
}
use exposure.Base.Outcome.{ok}
use exposure.Protocol.Schema.{Float32}
use exposure.Algorithm.Arithmetic.{Arithmetic, PixelArithmetic}
use exposure.Algorithm.Mapping.{entry-some, linear_map}
use exposure.Algorithm.Images.{equalise_row, equalise_rows}

module _ (a : Arithmetic) (p : PixelArithmetic a) (mapping : List Float32)
    (before : List a.Quantum) where
  -- The first entry of each of the first `n` pixels is mapped, and the rest is as it was.
  pub record IsMapped (n : ℕ) (after : List a.Quantum) : Type 0 where
    pub size : length after ≡ length before
    pub mapped :
        (k : ℕ)
        → k < n
        → (v : a.Quantum) × (q : a.Quantum) × (get_elem? before (k * 3) ≡ some v)
          × (linear_map a p v mapping ≡ ok q)
          × (get_elem? after (k * 3) ≡ some q)
    pub kept : (j : ℕ) → (j % 3 ≢ 0) ⊎ (n * 3 ≤ j) → get_elem? after j ≡ get_elem? before j

  pixel-IsMapped :
      (n : ℕ) (pixels : List a.Quantum) (v q : a.Quantum)
      → n * 3 < length before
      → get_elem? before (n * 3) ≡ some v
      → linear_map a p v mapping ≡ ok q
      → IsMapped n pixels
      → IsMapped (suc n) (set pixels (n * 3) q)
  pixel-IsMapped n pixels v q inside e l m = record {
    size = length-set pixels (n * 3) q ∙ m.size;
    mapped = λ k h. elim (Bool-cases (n == k)) [
      | inl same ↦
          let here : n ≡ k = ground arith in
          (
            v,
            q,
            subst (λ i. get_elem? before (i * 3) ≡ some v) here e,
            l,
            subst (λ i. get_elem? (set pixels (n * 3) q) (i * 3) ≡ some q) here written,
          )
      | inr differ ↦
          let (w, r, f, g, old) = m.mapped k (ground arith) in
          (w, r, f, g, unwritten (k * 3) (ground arith) ∙ old)
    ];
    kept = λ j h. unwritten j (ground (arith, h)) ∙ m.kept j (ground (arith, h));
  }
    where
      written : get_elem? (set pixels (n * 3) q) (n * 3) ≡ some q
      written = ground (arith, get_elem?-set pixels (n * 3) (n * 3) q, m.size)

      unwritten : (j : ℕ) → j ≢ n * 3 → get_elem? (set pixels (n * 3) q) j ≡ get_elem? pixels j
      unwritten j h = ground (arith, get_elem?-set pixels (n * 3) j q, m.size)

  IsMapped-start : IsMapped 0 before
  IsMapped-start = record { size = refl; mapped = λ k h. absurd (omega arith); kept = λ j h. refl }

  module _
      (maps : (k : ℕ) (v : a.Quantum)
        → get_elem? before (k * 3) ≡ some v
        → (q : a.Quantum) × (linear_map a p v mapping ≡ ok q)) where
    equalise_row-IsMapped :
        (rounds n : ℕ) (pixels : List a.Quantum)
        → (n + rounds) * 3 ≤ length before
        → IsMapped n pixels
        → (after : List a.Quantum) × (equalise_row a p mapping rounds (n * 3, pixels)
            ≡ ok ((n + rounds) * 3, after))
          × IsMapped (n + rounds) after
    unfolding equalise_row
    equalise_row-IsMapped zero n pixels fits m =
        let there : n ≡ n + 0 = omega arith in (pixels, rw (← there), rw there at m)
    equalise_row-IsMapped (suc rounds) n pixels fits m =
        let (v, e) = get_elem?_there before (n * 3) (omega arith) in
        let (q, l) = maps n v e in
        let (after, rest, m') =
          equalise_row-IsMapped rounds (suc n) (set pixels (n * 3) q) (omega arith)
            (pixel-IsMapped n pixels v q (omega arith) e l m) in
        let next : suc n * 3 ≡ n * 3 + 3 = omega arith in
        let end : suc n + rounds ≡ n + suc rounds = omega arith in
        (
          after,
          rw (entry-some pixels (n * 3) v (m.kept (n * 3) (inr (omega arith)) ∙ e), l)
              (rw (next, end) at rest),
          rw end at m',
        )

    equalise_rows-IsMapped :
        (rows columns n : ℕ) (pixels : List a.Quantum)
        → (n + rows * columns) * 3 ≤ length before
        → IsMapped n pixels
        → (after : List a.Quantum) × (equalise_rows a p mapping rows columns (n * 3, pixels)
            ≡ ok ((n + rows * columns) * 3, after))
          × IsMapped (n + rows * columns) after
    unfolding equalise_rows
    equalise_rows-IsMapped zero columns n pixels fits m =
        let there : n ≡ n + 0 * columns = omega arith in (pixels, rw (← there), rw there at m)
    equalise_rows-IsMapped (suc rows) columns n pixels fits m =
        let split : suc rows * columns ≡ columns + rows * columns = grind arith in
        let (middle, row, m') = equalise_row-IsMapped columns n pixels (omega (arith, split)) m in
        let (after, rest, m'') =
          equalise_rows-IsMapped rows columns (n + columns) middle (omega (arith, split)) m' in
        let end : (n + columns) + rows * columns ≡ n + suc rows * columns = omega (arith, split) in
        (after, rw row (rw end at rest), rw end at m'')

-- For an image with three entries for each row and column, and a mapping that maps the first entry
-- of each of them: the loops return, within the pixels; the first entry of each is mapped, all other
-- entries stay, and none is added.
pub equalise_rows-maps :
    (a : Arithmetic) (p : PixelArithmetic a) (mapping : List Float32) (before : List a.Quantum)
    (rows columns : ℕ)
    → length before ≡ (rows * columns) * 3
    → ((k : ℕ) (v : a.Quantum)
        → get_elem? before (k * 3) ≡ some v
        → (q : a.Quantum) × (linear_map a p v mapping ≡ ok q))
    → (after : List a.Quantum) × (equalise_rows a p mapping rows columns (0, before)
        ≡ ok (length before, after))
      × IsMapped a p mapping before (rows * columns) after
equalise_rows-maps a p mapping before rows columns shape maps =
    let (after, e, m) =
      equalise_rows-IsMapped a p mapping before maps rows columns 0 before (omega (arith, shape))
        (IsMapped-start a p mapping before) in
    let all : (0 + rows * columns) * 3 ≡ length before = omega (arith, shape) in
    let each : 0 + rows * columns ≡ rows * columns = omega arith in
    (after, rw all at e, rw each at m)
