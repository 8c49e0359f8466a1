-- ===== src/Algorithm/Equalisation/Rounds.antt =====
-- One round of the loop of `get_equalisation_parameters` in src/algorithm.cpp.
use exposure.Base.{
  ℕ, suc, ◌+◌, ◌-◌, ◌≤◌, ◌<◌, ◌≡◌, refl, sym, ap, subst, ◌∙◌, Bool, true, false, ◌||◌, ltb→lt,
  lt→ltb, ◌⊎◌, inl, inr, some, List, [], ◌∷◌, ◌++◌, map, length, get_elem?, set, take, ltb, arith,
  length-set, length-append, Bool-cases,
}
use mathlib.Core.List.{map-append}
use exposure.Base.Outcome.{Outcome, ok}
use exposure.Protocol.Schema.{Float32}
use exposure.Algorithm.Arithmetic.{Arithmetic}
use exposure.Algorithm.Equalisation
use exposure.Algorithm.Equalisation.{Walk, advance, walk_step, walk, get_equalisation_parameters}
use exposure.Algorithm.Equalisation.Matching.{sum_of, sum_from-suc, Leaves, Matches, Matches-append}
use exposure.Algorithm.Equalisation.Lists.{
  Ascends, Ascends-append, Ascends-weaken, take-set, take-suc-set,
}

module _ (a : Arithmetic) (previous current : List Float32) (last : ℕ) where
  -- Between rounds: the bins that the entries below `current_bin` were given rise to `previous_bin`,
  -- and each was matched; `previous_bin` has passed those below it, from the arrival on.
  pub record IsWalk (w : Walk a) : Type 0 where
    pub bins : List ℕ
    pub arrival : ℕ
    pub current_in : w.current_bin ≤ last
    pub previous_in : w.previous_bin ≤ last
    pub size : length w.mapping ≡ suc last
    pub ascends : Ascends 0 bins w.previous_bin
    pub count : length bins ≡ w.current_bin
    pub written : take w.current_bin w.mapping ≡ map (λ b. Equalisation.level a b (suc last)) bins
    pub sum_current : w.cumulative_current ≡ sum_of a w.current_bin current
    pub sum_previous : w.cumulative_previous ≡ sum_of a w.previous_bin previous
    pub matches : Matches a previous current last 0 0 bins arrival
    pub arrived : arrival ≤ w.previous_bin
    pub passed :
        w.current_bin < last
        → (k : ℕ) → arrival ≤ k
        → k < w.previous_bin
        → a.lt (sum_of a k previous) (sum_of a w.current_bin current) ≡ true

  abbrev pub measure : Walk a → ℕ
  measure w = (last - w.current_bin) + (last - w.previous_bin)

  -- The entry goes on to the next bin, or is left.
  abbrev Stays : Walk a → Walk a → Type 0
  Stays w v =
      (v.current_bin ≡ w.current_bin)
      × (v.previous_bin ≡ suc w.previous_bin)
      × (w.current_bin < last → a.lt w.cumulative_previous w.cumulative_current ≡ true)

  abbrev Goes : Walk a → Walk a → Type 0
  Goes w v =
      (v.current_bin ≡ suc w.current_bin)
      × Leaves a previous current last w.cumulative_current w.cumulative_previous w.previous_bin
          v.previous_bin

  -- What a round that returns has done to the bins.
  pub record Moved (w v : Walk a) : Type 0 where
    pub mapping_kept : v.mapping ≡ w.mapping
    pub move : Stays w v ⊎ Goes w v
    pub previous_move : w.previous_bin ≤ v.previous_bin
    pub current_in : v.current_bin ≤ last
    pub previous_in : v.previous_bin ≤ last
    pub closer : measure v < measure w
    pub sum_current :
        w.cumulative_current ≡ sum_of a w.current_bin current
        → v.cumulative_current ≡ sum_of a v.current_bin current
    pub sum_previous :
        w.cumulative_previous ≡ sum_of a w.previous_bin previous
        → v.cumulative_previous ≡ sum_of a v.previous_bin previous

  abbrev Advanced : Walk a → Outcome (Walk a) → Type 0
  Advanced w r = (v : Walk a) × (r ≡ ok v) × Moved w v

  module _ (w : Walk a) (ci : w.current_bin ≤ last) (pi : w.previous_bin ≤ last) where
    abbrev current_on : Float32 → Walk a → Walk a
    current_on x v = record v {
      cumulative_current = a.add v.cumulative_current (a.of_float x);
      current_bin = suc v.current_bin;
    }

    abbrev previous_on : Float32 → Walk a → Walk a
    previous_on y v = record v {
      cumulative_previous = a.add v.cumulative_previous (a.of_float y);
      previous_bin = suc v.previous_bin;
    }

    more_current :
        (x : Float32)
        → get_elem? current w.current_bin ≡ some x
        → w.cumulative_current ≡ sum_of a w.current_bin current
        → a.add w.cumulative_current (a.of_float x) ≡ sum_of a (suc w.current_bin) current
    more_current x e h =
        ap (λ c. a.add c (a.of_float x)) h
        ∙ sym (sum_from-suc a w.current_bin current a.zero_double x e)

    more_previous :
        (y : Float32)
        → get_elem? previous w.previous_bin ≡ some y
        → w.cumulative_previous ≡ sum_of a w.previous_bin previous
        → a.add w.cumulative_previous (a.of_float y) ≡ sum_of a (suc w.previous_bin) previous
    more_previous y e h =
        ap (λ c. a.add c (a.of_float y)) h
        ∙ sym (sum_from-suc a w.previous_bin previous a.zero_double y e)

    Moved-current :
        (x : Float32)
        → get_elem? current w.current_bin ≡ some x
        → w.current_bin < last
        → Leaves a previous current last w.cumulative_current w.cumulative_previous w.previous_bin
            w.previous_bin
        → Moved w (current_on x w)
    Moved-current x ex h why = record {
      mapping_kept = refl;
      move = inr (refl, why);
      previous_move = omega arith;
      current_in = omega arith;
      previous_in = pi;
      closer = omega arith;
      sum_current = more_current x ex;
      sum_previous = λ e. e;
    }

    Moved-previous :
        (y : Float32)
        → get_elem? previous w.previous_bin ≡ some y
        → w.previous_bin < last
        → (w.current_bin < last → a.lt w.cumulative_previous w.cumulative_current ≡ true)
        → Moved w (previous_on y w)
    Moved-previous y ey h why = record {
      mapping_kept = refl;
      move = inl (refl, refl, why);
      previous_move = omega arith;
      current_in = ci;
      previous_in = omega arith;
      closer = omega arith;
      sum_current = λ e. e;
      sum_previous = more_previous y ey;
    }

    Moved-both :
        (x y : Float32)
        → get_elem? current w.current_bin ≡ some x
        → get_elem? previous w.previous_bin ≡ some y
        → w.current_bin < last
        → w.previous_bin < last
        → a.eq w.cumulative_current w.cumulative_previous ≡ true
        → Moved w (previous_on y (current_on x w))
    Moved-both x y ex ey h k why = record {
      mapping_kept = refl;
      move = inr (refl, inr (inr (why, rw (lt→ltb _ _ k))));
      previous_move = omega arith;
      current_in = omega arith;
      previous_in = omega arith;
      closer = omega arith;
      sum_current = more_current x ex;
      sum_previous = more_previous y ey;
    }

    not_last : {A : Type 0} → ltb w.current_bin last ≡ false → w.current_bin < last → A
    not_last h k = absurd (ground arith)

    pub chain-Advanced :
        (l g q cl pl : Bool) (x y : Float32)
        → get_elem? current w.current_bin ≡ some x
        → get_elem? previous w.previous_bin ≡ some y
        → a.lt w.cumulative_current w.cumulative_previous ≡ l
        → a.lt w.cumulative_previous w.cumulative_current ≡ g
        → a.eq w.cumulative_current w.cumulative_previous ≡ q
        → ltb w.current_bin last ≡ cl
        → ltb w.previous_bin last ≡ pl
        → (cl || pl) ≡ true
        → (l ≡ true) ⊎ ((g ≡ true) ⊎ (q ≡ true))
        → Advanced w (Equalisation.chain a l g q cl pl previous current w)
    chain-Advanced true g q true pl x y ex ey hl hg hq hc hp left some_way =
        (current_on x w, ground arith, Moved-current x ex (ltb→lt _ _ hc) (inl (hl, refl)))
    chain-Advanced true g q false true x y ex ey hl hg hq hc hp left some_way =
        (previous_on y w, ground arith, Moved-previous y ey (ltb→lt _ _ hp) (not_last hc))
    chain-Advanced true g q false false x y ex ey hl hg hq hc hp left some_way = cc
    chain-Advanced false true q cl true x y ex ey hl hg hq hc hp left some_way =
        (previous_on y w, ground arith, Moved-previous y ey (ltb→lt _ _ hp) (λ h. hg))
    chain-Advanced false true q true false x y ex ey hl hg hq hc hp left some_way = (
      current_on x w,
      ground arith,
      Moved-current x ex (ltb→lt _ _ hc) (inr (inl (hg, ground (arith, pi), refl))),
    )
    chain-Advanced false true q false false x y ex ey hl hg hq hc hp left some_way = cc
    chain-Advanced false false true true true x y ex ey hl hg hq hc hp left some_way = (
      previous_on y (current_on x w),
      ground arith,
      Moved-both x y ex ey (ltb→lt _ _ hc) (ltb→lt _ _ hp) hq,
    )
    chain-Advanced false false true true false x y ex ey hl hg hq hc hp left some_way =
        (current_on x w, ground arith, Moved-current x ex (ltb→lt _ _ hc) (inr (inr (hq, rw hp))))
    chain-Advanced false false true false true x y ex ey hl hg hq hc hp left some_way =
        (previous_on y w, ground arith, Moved-previous y ey (ltb→lt _ _ hp) (not_last hc))
    chain-Advanced false false true false false x y ex ey hl hg hq hc hp left some_way = cc
    chain-Advanced false false false cl pl x y ex ey hl hg hq hc hp left some_way = ground arith

  abbrev pub written_walk : Walk a → Walk a
  written_walk w = record w {
    mapping = set w.mapping w.current_bin (Equalisation.level a w.previous_bin (suc last));
  }

  -- The bins that are passed when the entry goes on to the next one.
  passes_one_more :
      (w v : Walk a) (i : IsWalk w)
      → Stays w v
      → v.current_bin < last
      → (k : ℕ) → i.arrival ≤ k
      → k < v.previous_bin
      → a.lt (sum_of a k previous) (sum_of a v.current_bin current) ≡ true
  passes_one_more w v i (same, next, why) h k from below =
      let h' : w.current_bin < last = omega (arith, same) in
      elim (Bool-cases (ltb k w.previous_bin)) [
        | inl under ↦ rw same (i.passed h' k from (ltb→lt _ _ under))
        | inr over ↦
            let here : k ≡ w.previous_bin = ground (arith, next) in
            rw (same, here, ← i.sum_previous, ← i.sum_current) (why h')
      ]

  -- One round keeps the invariant, whichever bins it moves.
  pub IsWalk-Moved : (w v : Walk a) → IsWalk w → Moved (written_walk w) v → IsWalk v
  IsWalk-Moved w v i m = elim m.move [
    | inl stays ↦ record {
      bins = i.bins;
      arrival = i.arrival;
      current_in = m.current_in;
      previous_in = m.previous_in;
      size = rw m.mapping_kept (length-set w.mapping w.current_bin _ ∙ i.size);
      ascends = Ascends-weaken 0 i.bins w.previous_bin v.previous_bin m.previous_move i.ascends;
      count = i.count ∙ sym stays.0;
      written = rw (m.mapping_kept, stays.0) (take-set w.mapping w.current_bin _ ∙ i.written);
      sum_current = m.sum_current i.sum_current;
      sum_previous = m.sum_previous i.sum_previous;
      matches = i.matches;
      arrived = omega (arith, i.arrived, m.previous_move);
      passed = passes_one_more w v i stays;
    }
    | inr (next, why) ↦ record {
      bins = i.bins ++ w.previous_bin ∷ [];
      arrival = v.previous_bin;
      current_in = m.current_in;
      previous_in = m.previous_in;
      size = rw m.mapping_kept (length-set w.mapping w.current_bin _ ∙ i.size);
      ascends = Ascends-append 0 i.bins w.previous_bin v.previous_bin m.previous_move i.ascends;
      count =
          omega
            (arith, length-append i.bins (w.previous_bin ∷ []), i.count, ap (λ (n : ℕ). n) next);
      written =
          rw (m.mapping_kept, next)
            (rw
              (take-suc-set w.mapping w.current_bin (Equalisation.level a w.previous_bin (suc last))
                (omega (arith, i.size, i.current_in)))
              (rw (map-append (λ b. Equalisation.level a b (suc last)) i.bins (w.previous_bin ∷ []))
                (ap (λ xs. xs ++ Equalisation.level a w.previous_bin (suc last) ∷ []) i.written)));
      sum_current = m.sum_current i.sum_current;
      sum_previous = m.sum_previous i.sum_previous;
      matches =
          Matches-append a previous current last 0 0 i.bins i.arrival w.current_bin w.previous_bin
            v.previous_bin (omega (arith, i.count)) i.matches
            (record {
              from_le = i.arrived;
              passed = i.passed (omega (arith, next, m.current_in));
              leaves =
                  subst
                    (λ c.
                      Leaves a previous current last c (sum_of a w.previous_bin previous)
                        w.previous_bin v.previous_bin)
                    i.sum_current
                    (subst
                      (λ p.
                        Leaves a previous current last w.cumulative_current p w.previous_bin
                          v.previous_bin)
                      i.sum_previous why);
            });
      arrived = omega arith;
      passed = λ h k from below. absurd (omega arith);
    }
  ]
