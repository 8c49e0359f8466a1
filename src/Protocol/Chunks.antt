-- ===== src/Protocol/Chunks.antt =====
-- The image bytes of an equalisation result as chunks: `split_equalisation_tiff`, the count of
-- chunks, and the copy back in `WorkerEqualisationResultCommand::from_data`.
pub mod RoundTrip
use exposure.Base.{
  ℕ, zero, suc, ◌+◌, ◌-◌, ◌*◌, ◌/◌, ◌%◌, ◌^◌, min, List, [], ◌∷◌, ◌++◌, length, take, drop,
  replicate, ltb, ◌==◌, if◌then◌else◌,
}
use exposure.Base.Outcome.{Outcome, ok, err, out_of_bounds}

-- A difference of two `size_t`.
unfoldable pub sub_size : ℕ → ℕ → ℕ
sub_size a b = (a + 2 ^ 64 - b) % 2 ^ 64

-- The loop of `split_equalisation_tiff` from round `i`, with `rounds` to go, for chunks of `size`.
unfoldable pub split_from : ℕ → ℕ → ℕ → List ℕ → List (List ℕ)
unfolding sub_size
split_from size zero i raw = []
split_from size (suc rounds) i raw =
    take (min (sub_size (length raw) (i * size)) size) (drop (i * size) raw)
    ∷ split_from size rounds (i + 1) raw

-- As many chunks as there are full ones, and one for the rest.
abbrev pub whole_count : ℕ → ℕ → ℕ
whole_count size n = n / size + (if n % size == 0 then 0 else 1)

-- `initTiffResult` takes an `unsigned int`. `lldiv` is signed, but a vector has at most 2 ^ 63 - 1
-- bytes.
unfoldable pub chunk_count : ℕ → ℕ → ℕ
chunk_count size n = whole_count size n % 2 ^ 32

unfoldable pub split_tiff : ℕ → List ℕ → List (List ℕ)
unfolding split_from chunk_count
split_tiff size raw = split_from size (chunk_count size (length raw)) 0 raw

unfoldable pub total_size : List (List ℕ) → ℕ
total_size [] = 0
total_size (c ∷ cs) = length c + total_size cs

-- `memcpy` into the buffer at an offset.
unfoldable pub copy_at : ℕ → List ℕ → List ℕ → Outcome (List ℕ)
copy_at offset chunk buffer =
    if ltb (length buffer) (offset + length chunk)
    then err out_of_bounds
    else ok (take offset buffer ++ (chunk ++ drop (offset + length chunk) buffer))

abbrev continue : Outcome (List ℕ) → (List ℕ → Outcome (List ℕ)) → Outcome (List ℕ)
continue (ok b) k = k b
continue (err e) k = err e

unfoldable pub copy_chunks : List (List ℕ) → ℕ → List ℕ → Outcome (List ℕ)
unfolding copy_at
copy_chunks [] cumulative buffer = ok buffer
copy_chunks (c ∷ cs) cumulative buffer =
    continue (copy_at cumulative c buffer) (λ b. copy_chunks cs (cumulative + length c) b)

unfoldable pub join_tiff : List (List ℕ) → Outcome (List ℕ)
unfolding total_size copy_chunks
join_tiff chunks = copy_chunks chunks 0 (replicate (total_size chunks) 0)
