-- ===== src/Algorithm/Equalisation/Lists.antt =====
-- Lists that rise, and lists that are written from the front on.
use exposure.Base.{
  ℕ, zero, suc, ◌≤◌, ◌<◌, ◌≡◌, refl, ap, some, List, [], ◌∷◌, ◌++◌, length, get_elem?, set, take,
  arith,
}
use exposure.Protocol.Schema.{Float32}

-- The numbers rise from `lo` at least to `hi` at most.
abbrev pub Ascends : ℕ → List ℕ → ℕ → Type 0
Ascends lo [] hi = lo ≤ hi
Ascends lo (x ∷ xs) hi = (lo ≤ x) × Ascends x xs hi

pub Ascends-le : (lo : ℕ) (xs : List ℕ) (hi : ℕ) → Ascends lo xs hi → lo ≤ hi
Ascends-le lo [] hi s = s
Ascends-le lo (x ∷ xs) hi s = omega (arith, s.0, Ascends-le x xs hi s.1)

pub Ascends-append :
    (lo : ℕ) (xs : List ℕ) (hi top : ℕ)
    → hi ≤ top
    → Ascends lo xs hi
    → Ascends lo (xs ++ hi ∷ []) top
Ascends-append lo [] hi top h s = (s, h)
Ascends-append lo (x ∷ xs) hi top h s = (s.0, Ascends-append x xs hi top h s.1)

pub Ascends-weaken :
    (lo : ℕ) (xs : List ℕ) (hi top : ℕ) → hi ≤ top → Ascends lo xs hi → Ascends lo xs top
Ascends-weaken lo [] hi top h s = omega arith
Ascends-weaken lo (x ∷ xs) hi top h s = (s.0, Ascends-weaken x xs hi top h s.1)

pub take-set : (xs : List Float32) (i : ℕ) (v : Float32) → take i (set xs i v) ≡ take i xs
take-set [] zero v = refl
take-set [] (suc i) v = refl
take-set (x ∷ xs) zero v = refl
take-set (x ∷ xs) (suc i) v = ap (◌∷◌ x) (take-set xs i v)

pub take-suc-set :
    (xs : List Float32) (i : ℕ) (v : Float32)
    → i < length xs
    → take (suc i) (set xs i v) ≡ take i xs ++ v ∷ []
take-suc-set [] i v h = elim h [ ]
take-suc-set (x ∷ []) zero v h = refl
take-suc-set (x ∷ y ∷ xs) zero v h = refl
take-suc-set (x ∷ xs) (suc i) v h = ap (◌∷◌ x) (take-suc-set xs i v (omega arith))

pub set_last :
    (n : ℕ) (xs : List Float32) (v : Float32) → length xs ≡ suc n → set xs n v ≡ take n xs ++ v ∷ []
set_last n [] v h = absurd (omega arith)
set_last zero (x ∷ []) v h = refl
set_last zero (x ∷ y ∷ xs) v h = absurd (omega arith)
set_last (suc n) (x ∷ xs) v h = ap (◌∷◌ x) (set_last n xs v (omega arith))

pub get_elem?_in :
    (xs : List Float32) (i : ℕ) → i < length xs → (x : Float32) × (get_elem? xs i ≡ some x)
get_elem?_in [] i h = elim h [ ]
get_elem?_in (x ∷ xs) zero h = (x, refl)
get_elem?_in (x ∷ xs) (suc i) h = get_elem?_in xs i (omega arith)
