-- ===== src/Algorithm/Equalisation/Loop.antt =====
-- The loop of `get_equalisation_parameters` in src/algorithm.cpp: its bins and its writes.
use exposure.Base.{
  ℕ, zero, suc, ◌+◌, ◌-◌, ◌<◌, ◌≡◌, refl, ◌∙◌, true, false, ◌||◌, lt→ltb, ◌⊎◌, inl, inr, List, [],
  ◌∷◌, ◌++◌, map, length, ltb, arith, length-replicate, Bool-cases,
}
use exposure.Base.Outcome.{Outcome, ok, ◌>>=◌}
use exposure.Protocol.Schema.{Float32}
use exposure.Algorithm.Arithmetic.{Arithmetic}
use exposure.Algorithm.Equalisation
use exposure.Algorithm.Equalisation.{Walk, advance, walk_step, walk, get_equalisation_parameters}
use exposure.Algorithm.Equalisation.Matching.{AreComparable, Matches}
use exposure.Algorithm.Equalisation.Lists.{Ascends, set_last, get_elem?_in}
use exposure.Algorithm.Equalisation.Rounds.{
  IsWalk, measure, chain-Advanced, written_walk, IsWalk-Moved,
}

module _ (a : Arithmetic) (previous current : List Float32) (last : ℕ) where
  module _ (lp : length previous ≡ suc last) (lc : length current ≡ suc last)
      (comparable : AreComparable a previous current last) where
    walk_step-eq-chain :
        (w : Walk a)
        → IsWalk a previous current last w
        → walk_step a previous current w
          ≡ Equalisation.chain a
              (a.lt w.cumulative_current w.cumulative_previous)
              (a.lt w.cumulative_previous w.cumulative_current)
              (a.eq w.cumulative_current w.cumulative_previous)
              (ltb w.current_bin last)
              (ltb w.previous_bin last)
              previous
              current
              (written_walk a previous current last w)
    unfolding walk_step advance
    walk_step-eq-chain w i =
        let room : ltb w.current_bin (length w.mapping) ≡ true =
          lt→ltb _ _ (omega (arith, i.size, i.current_in)) in
        let pm : length previous - 1 ≡ last = omega arith in
        let cm : length current - 1 ≡ last = omega arith in rw (room, i.size, pm, cm)

    Steps : Walk a → Outcome (Walk a) → Type 0
    Steps w r =
        (v : Walk a) × (r ≡ ok v)
        × IsWalk a previous current last v
        × (measure a previous current last v < measure a previous current last w)

    walk_step-Steps :
        (w : Walk a)
        → IsWalk a previous current last w
        → Equalisation.at_end a previous current w ≡ false
        → Steps w (walk_step a previous current w)
    unfolding Steps
    walk_step-Steps w i more =
        let (x, ex) = get_elem?_in current w.current_bin (omega (arith, i.current_in)) in
        let (y, ey) = get_elem?_in previous w.previous_bin (omega (arith, i.previous_in)) in
        let left : (ltb w.current_bin last || ltb w.previous_bin last) ≡ true =
          ground (arith, i.current_in, i.previous_in) in
        let some_way : (a.lt w.cumulative_current w.cumulative_previous ≡ true)
            ⊎ ((a.lt w.cumulative_previous w.cumulative_current ≡ true)
                ⊎ (a.eq w.cumulative_current w.cumulative_previous ≡ true)) =
          rw (i.sum_current, i.sum_previous)
            (comparable w.current_bin w.previous_bin i.current_in i.previous_in) in
        let (v, e, m) =
          chain-Advanced a previous current last (written_walk a previous current last w)
            i.current_in i.previous_in _ _ _ _ _ x y ex ey refl refl refl refl refl left some_way in
        rw (walk_step-eq-chain w i) (v, e, IsWalk-Moved a previous current last w v i m, m.closer)

    -- Enough rounds end the loop at the last bin of both histograms.
    Ends : Outcome (Walk a) → Type 0
    Ends r =
        (v : Walk a) × (r ≡ ok v)
        × IsWalk a previous current last v
        × (v.current_bin ≡ last)
        × (v.previous_bin ≡ last)

    walk_done :
        (fuel : ℕ) (w : Walk a)
        → Equalisation.at_end a previous current w ≡ true
        → walk a (suc fuel) previous current w ≡ ok w
    unfolding walk
    walk_done fuel w e = rw (e, walk)

    walk_more :
        (fuel : ℕ) (w : Walk a)
        → Equalisation.at_end a previous current w ≡ false
        → walk a (suc fuel) previous current w
          ≡ (walk_step a previous current w >>= walk a fuel previous current)
    unfolding walk
    walk_more fuel w e = rw (e, walk)

    walk-Ends :
        (fuel : ℕ) (w : Walk a)
        → IsWalk a previous current last w
        → measure a previous current last w < fuel
        → Ends (walk a fuel previous current w)
    unfolding Ends Steps
    walk-Ends zero w i h = elim h [ ]
    walk-Ends (suc fuel) w i h = elim (Bool-cases (Equalisation.at_end a previous current w)) [
      | inl done ↦
          rw (walk_done fuel w done) (w, refl, i, ground (arith, done), ground (arith, done))
      | inr more ↦
          let (v, e, j, closer) = walk_step-Steps w i more in
          rw (walk_more fuel w more, e) (walk-Ends fuel v j (omega arith))
    ]

    IsWalk-start : IsWalk a previous current last (Equalisation.start a (suc last))
    IsWalk-start = record {
      bins = [];
      arrival = 0;
      current_in = omega arith;
      previous_in = omega arith;
      size = length-replicate (suc last) 0;
      ascends = omega arith;
      count = refl;
      written = refl;
      sum_current = refl;
      sum_previous = refl;
      matches = refl;
      arrived = omega arith;
      passed = λ h k from below. absurd (omega arith);
    }

    ended : Ends (
        walk a
          (length previous + length current)
          previous
          current
          (Equalisation.start a (length current)))
    unfolding Ends
    ended = rw (lc) (
        walk-Ends (length previous + suc last) (Equalisation.start a (suc last)) IsWalk-start
          (omega arith))

    pub get_equalisation_parameters-Matches :
        (bins : List ℕ) × (next : ℕ) × (get_equalisation_parameters a previous current
          ≡ ok (
              map (λ b. Equalisation.level a b (suc last)) bins
              ++ Equalisation.full_level a last ∷ []))
        × (length bins ≡ last)
        × Ascends 0 bins last
        × Matches a previous current last 0 0 bins next
    unfolding get_equalisation_parameters Ends
    get_equalisation_parameters-Matches =
        let cm : length current - 1 ≡ last = omega arith in
        let (v, e, i, c, p) = ended in
        (
          i.bins,
          i.arrival,
          rw (e, cm, set_last last v.mapping (Equalisation.full_level a v.previous_bin) i.size)
              (rw (p, ← i.written, c)),
          i.count ∙ c,
          rw p at i.ascends,
          i.matches,
        )
