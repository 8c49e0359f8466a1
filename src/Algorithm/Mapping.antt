-- ===== src/Algorithm/Mapping.antt =====
-- `lerp` and `linear_map` of src/algorithm.cpp.
pub mod Climbing
use exposure.Base.{
  ℕ, ◌+◌, ◌-◌, ◌%◌, ◌^◌, ◌≡◌, Bool, ◌&&◌, Option, none, some, List, length, get_elem?, leb, ◌==◌,
  if◌then◌else◌,
}
use exposure.Base.Outcome.{Outcome, ok, err, ◌>>=◌, ◌>>◌, require, assertion, out_of_bounds}
use exposure.Protocol.Schema.{Float32}
use exposure.Algorithm.Arithmetic.{Arithmetic, PixelArithmetic}

unfoldable pub entry {ℓ} : {A : Type ℓ} → List A → ℕ → Outcome A
entry xs i = elim (get_elem? xs i) [ none ↦ err out_of_bounds | some x ↦ ok x ]

pub entry-some {ℓ} :
    {A : Type ℓ} (xs : List A) (i : ℕ) (x : A) → get_elem? xs i ≡ some x → entry xs i ≡ ok x
unfolding entry
entry-some xs i x e = rw (e, entry)

module _ (a : Arithmetic) (p : PixelArithmetic a) where
  open a use {Double, Quantum, zero_double, of_float, add, to_double}

  abbrev pub lerp : Double → Double → Double → Double
  lerp x y t = add x (p.mul (p.sub y x) t)

  -- The position of a value among the bins, and the bin next to it
  abbrev pub histogram_bin : Quantum → ℕ → Double
  histogram_bin value size =
      p.mul (p.div (to_double value) (to_double p.quantum_range)) (p.of_nat (size - 1))

  abbrev pub rounded_bin : Quantum → ℕ → ℕ
  rounded_bin value size = p.to_size (p.round (histogram_bin value size)) % 2 ^ 32

  -- The reads of the mapping, and the assertion on them
  unfoldable pub neighbours : ℕ → List Float32 → Outcome (Double × Double × Double)
  neighbours bin mapping = do
    base ← entry mapping bin
    below ← entry mapping (if bin == 0 then 0 else bin - 1)
    above ← entry mapping (if leb (length mapping - 1) bin then bin else (bin + 1) % 2 ^ 32)
    require (p.le (of_float below) (of_float base) && p.le (of_float base) (of_float above))
        assertion
    ok (of_float below, of_float base, of_float above)

  unfoldable pub linear_map : Quantum → List Float32 → Outcome Quantum
  unfolding neighbours
  linear_map value mapping =
      let bin = rounded_bin value (length mapping) in
      let error = p.sub (histogram_bin value (length mapping)) (p.of_nat bin) in
      neighbours bin mapping >>= λ n.
      let interpolate = if p.le zero_double error then n.2 else n.0 in
      ok (p.to_quantum (lerp n.1 interpolate (p.absolute error)))
