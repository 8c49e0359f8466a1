-- ===== src/Algorithm/Arithmetic.antt =====
-- What src/algorithm.cpp takes from the compiler and from ImageMagick: `float` and `double`, and
-- arithmetic with `QuantumRange`, whose type depends on how ImageMagick was built.
use exposure.Base.{ℕ, Bool}
use exposure.Protocol.Schema.{Float32}

pub record Arithmetic : Type 1 where
  pub Double : Type 0
  pub zero_double : Double
  pub of_float : Float32 → Double
  pub add : Double → Double → Double
  pub lt : Double → Double → Bool
  pub eq : Double → Double → Bool
  pub Quantum : Type 0
  -- `n * QuantumRange`, and the quotient by a size
  pub times_quantum_range : ℕ → Quantum
  pub divided_by : Quantum → ℕ → Quantum
  pub to_float : Quantum → Float32
  -- The same by way of a `double`
  pub to_double : Quantum → Double
  pub narrow : Double → Float32

-- What is used for single pixels.
pub record PixelArithmetic (a : Arithmetic) : Type 0 where
  pub quantum_range : a.Quantum
  pub of_nat : ℕ → a.Double
  pub sub : a.Double → a.Double → a.Double
  pub mul : a.Double → a.Double → a.Double
  pub div : a.Double → a.Double → a.Double
  pub le : a.Double → a.Double → Bool
  -- `round`, `abs`, and the casts to `size_t` and to `Quantum`
  pub round : a.Double → a.Double
  pub absolute : a.Double → a.Double
  pub to_size : a.Double → ℕ
  pub to_quantum : a.Double → a.Quantum
  -- `pixel / QuantumRange` as a `float`, `std::round(x * n)`, and the cast to `uint32_t`
  pub ratio : a.Quantum → Float32
  pub scaled : Float32 → ℕ → Float32
  pub to_uint32 : Float32 → ℕ
