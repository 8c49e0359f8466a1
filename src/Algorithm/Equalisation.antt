-- ===== src/Algorithm/Equalisation.antt =====
-- `identity_equalisation_histogram_mapping` and `get_equalisation_parameters`.
pub mod Loop
pub mod Lists
pub mod Matching
pub mod Rounds
pub mod Ordered
use exposure.Base.{
  ℕ, zero, suc, ◌+◌, ◌-◌, ◌*◌, ◌≤◌, ◌≡◌, Bool, true, false, ◌&&◌, Option, none, some, List, [], ◌∷◌,
  length, get_elem?, set, replicate, ltb, ◌==◌, if◌then◌else◌,
}
use exposure.Base.Outcome.{Outcome, ok, err, ◌>>=◌, uncaught, out_of_bounds, out_of_fuel}
use exposure.Config.{histogram_segments}
use exposure.Protocol.Schema.{Float32}
use exposure.Algorithm.Arithmetic.{Arithmetic}

module _ (a : Arithmetic) where
  open a use {
    Double, zero_double, of_float, add, lt, eq, times_quantum_range, divided_by, to_float,
    to_double, narrow,
  }

  -- `bin * QuantumRange / size`
  abbrev pub level : ℕ → ℕ → Float32
  level bin size = to_float (divided_by (times_quantum_range bin) size)

  -- `bin * QuantumRange`
  abbrev pub full_level : ℕ → Float32
  full_level bin = to_float (times_quantum_range bin)

  unfoldable pub identity_from : ℕ → ℕ → List Float32
  identity_from zero i = []
  identity_from (suc rounds) i =
      narrow (to_double (divided_by (times_quantum_range i) histogram_segments))
      ∷ identity_from rounds (suc i)

  unfoldable pub identity_equalisation_histogram_mapping : List Float32
  unfolding identity_from
  identity_equalisation_histogram_mapping = identity_from histogram_segments 0

  -- The variables of the loop.
  pub record Walk : Type 0 where
    pub current_bin : ℕ
    pub previous_bin : ℕ
    pub cumulative_current : Double
    pub cumulative_previous : Double
    pub mapping : List Float32

  -- `cumulative += histogram[bin]; bin++`
  abbrev pub advance_current : List Float32 → Walk → Outcome Walk
  advance_current current w = elim (get_elem? current w.current_bin) [
    | none ↦ err out_of_bounds
    | some x ↦ ok (record w {
      cumulative_current = add w.cumulative_current (of_float x);
      current_bin = suc w.current_bin;
    })
  ]

  abbrev pub advance_previous : List Float32 → Walk → Outcome Walk
  advance_previous previous w = elim (get_elem? previous w.previous_bin) [
    | none ↦ err out_of_bounds
    | some x ↦ ok (record w {
      cumulative_previous = add w.cumulative_previous (of_float x);
      previous_bin = suc w.previous_bin;
    })
  ]

  -- The `if` chain of the body, over the values of its tests. If none of the three comparisons
  -- holds, it throws `logic_error`.
  abbrev pub chain :
      (less greater equal current_left previous_left : Bool)
      → List Float32
      → List Float32
      → Walk
      → Outcome Walk
  chain less greater equal current_left previous_left previous current w =
      if less
      then (if current_left then advance_current current w else advance_previous previous w)
      else if greater
      then (if previous_left then advance_previous previous w else advance_current current w)
      else if equal
      then ((if current_left then advance_current current w else ok w) >>= λ v.
          if previous_left then advance_previous previous v else ok v)
      else err uncaught

  unfoldable pub advance : List Float32 → List Float32 → Walk → Outcome Walk
  advance previous current w =
      chain (lt w.cumulative_current w.cumulative_previous)
        (lt w.cumulative_previous w.cumulative_current)
        (eq w.cumulative_current w.cumulative_previous) (ltb w.current_bin (length current - 1))
        (ltb w.previous_bin (length previous - 1)) previous current w

  -- The body: the write to the mapping, and the chain.
  unfoldable pub walk_step : List Float32 → List Float32 → Walk → Outcome Walk
  walk_step previous current w =
      if ltb w.current_bin (length w.mapping)
      then advance previous current (record w {
        mapping = set w.mapping w.current_bin (level w.previous_bin (length w.mapping));
      })
      else err out_of_bounds

  abbrev pub at_end : List Float32 → List Float32 → Walk → Bool
  at_end previous current w =
      w.current_bin == (length current - 1) && w.previous_bin == (length previous - 1)

  unfoldable pub walk : ℕ → List Float32 → List Float32 → Walk → Outcome Walk
  walk zero previous current w = err out_of_fuel
  walk (suc fuel) previous current w = elim (at_end previous current w) [
    | true ↦ ok w
    | false ↦ walk_step previous current w >>= walk fuel previous current
  ]

  abbrev pub start : ℕ → Walk
  start size = record {
    current_bin = 0;
    previous_bin = 0;
    cumulative_current = zero_double;
    cumulative_previous = zero_double;
    mapping = replicate size 0;
  }

  -- The mapping has as many entries as the histograms, which have a static size. Every round moves
  -- at least one of the two bins on, so the fuel is enough.
  unfoldable pub get_equalisation_parameters : List Float32 → List Float32 → Outcome (List Float32)
  get_equalisation_parameters previous current =
      let size = length current in
      walk (length previous + length current) previous current (start size) >>= λ w.
      ok (set w.mapping (size - 1) (full_level w.previous_bin))
