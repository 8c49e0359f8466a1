-- ===== src/Base/Map.antt =====
-- `std::map<std::string, V>`: entries in the order of their keys, which is the order of iteration.
use Prim.Native.Nat.{suc, ◌≤◌}
use mathlib.Core.Path.{◌≡◌, refl}
use mathlib.Core.Bool.{Bool, true, false}
use mathlib.Core.Option.{Option, none, some}
use mathlib.Core.List.{List, [], ◌∷◌, map}
use native.Mathlib.Omega.{arith}
use exposure.Base.Tests.{if◌then◌else◌}
use exposure.Base.Lists.{length, count}
use exposure.Base.Text.{Text, text_eq, text_lt, text_eq_iff, text_eq_comm}

abbrev pub Map {ℓ} : Type ℓ → Type ℓ
Map V = List (Text × V)

module _ {ℓ} {V : Type ℓ} where
  -- `find` and `at`
  unfoldable pub find : Text → Map V → Option V
  find k [] = none
  find k ((j, v) ∷ m) = if text_eq j k then some v else find k m

  -- A write through an iterator or through the reference that `at` returns.
  unfoldable pub assign : Text → V → Map V → Map V
  assign k v [] = []
  assign k v ((j, w) ∷ m) = if text_eq j k then (j, v) ∷ m else (j, w) ∷ assign k v m

  unfoldable pub erase : Text → Map V → Map V
  erase k [] = []
  erase k ((j, w) ∷ m) = if text_eq j k then m else (j, w) ∷ erase k m

  unfoldable pub place : Text → V → Map V → Map V
  place k v [] = (k, v) ∷ []
  place k v ((j, w) ∷ m) = if text_lt k j then (k, v) ∷ (j, w) ∷ m else (j, w) ∷ place k v m

  -- `insert` leaves an entry that is there as it is.
  unfoldable pub insert : Text → V → Map V → Map V
  unfolding place
  insert k v m = elim (find k m) [ none ↦ place k v m | some w ↦ m ]

  abbrev pub keys : Map V → List Text
  keys = map λ e. e.0

module _ {ℓ} {V : Type ℓ} where
  find-place :
      (k j : Text) (v : V) (m : Map V)
      → find k m ≡ none
      → find j (place k v m) ≡ (if text_eq k j then some v else find j m)
  unfolding find place
  find-place k j v [] h = refl
  find-place k j v ((i, w) ∷ m) h =
      ground (arith, find-place k j v m, text_eq_iff i k, text_eq_iff k j, text_eq_iff i j)

  pub find-insert :
      (k j : Text) (v : V) (m : Map V)
      → find k m ≡ none
      → find j (insert k v m) ≡ (if text_eq k j then some v else find j m)
  unfolding insert
  find-insert k j v m h = rw (h, insert) (find-place k j v m h)

  pub insert_present : (k : Text) (v w : V) (m : Map V) → find k m ≡ some w → insert k v m ≡ m
  unfolding insert
  insert_present k v w m h = rw (h, insert)

  pub find-assign_ne :
      (k j : Text) (v : V) (m : Map V) → text_eq k j ≡ false → find j (assign k v m) ≡ find j m
  unfolding find assign
  find-assign_ne k j v [] h = refl
  find-assign_ne k j v ((i, w) ∷ m) h =
      ground (arith, find-assign_ne k j v m, text_eq_iff i k, text_eq_iff k j, text_eq_iff i j)

  pub find-assign_self :
      (k : Text) (v w : V) (m : Map V) → find k m ≡ some w → find k (assign k v m) ≡ some v
  unfolding find assign
  find-assign_self k v w [] h = cc
  find-assign_self k v w ((i, u) ∷ m) h = ground (arith, find-assign_self k v w m)

  pub keys-assign : (k : Text) (v : V) (m : Map V) → keys (assign k v m) ≡ keys m
  unfolding assign
  keys-assign k v [] = refl
  keys-assign k v ((i, u) ∷ m) = ground (arith, keys-assign k v m)

  pub length-place : (k : Text) (v : V) (m : Map V) → length (place k v m) ≡ suc (length m)
  unfolding place
  length-place k v [] = refl
  length-place k v ((i, u) ∷ m) = ground (arith, length-place k v m)

  pub count-keys-place :
      (p : Text → Bool) (k : Text) (v : V) (m : Map V)
      → count p (keys (place k v m)) ≡ (if p k then suc (count p (keys m)) else count p (keys m))
  unfolding place
  count-keys-place p k v [] = refl
  count-keys-place p k v ((i, u) ∷ m) = ground (arith, count-keys-place p k v m)

  pub insert_absent : (k : Text) (v : V) (m : Map V) → find k m ≡ none → insert k v m ≡ place k v m
  unfolding insert
  insert_absent k v m h = rw (h, insert)

  pub insert_first :
      (k : Text) (v : V) (e : Text × V) (m : Map V)
      → find k (e ∷ m) ≡ none
      → text_lt k e.0 ≡ true
      → insert k v (e ∷ m) ≡ (k, v) ∷ e ∷ m
  unfolding place
  insert_first k v (j, w) m h first = rw (insert_absent k v ((j, w) ∷ m) h, first)

  pub count-keys_found :
      (k : Text) (v : V) (m : Map V) → find k m ≡ some v → 1 ≤ count (text_eq k) (keys m)
  unfolding find
  count-keys_found k v [] h = cc
  count-keys_found k v ((i, u) ∷ m) h = ground (arith, count-keys_found k v m, text_eq_comm i k)
