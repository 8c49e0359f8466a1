-- ===== src/Protocol/Chunks/RoundTrip.antt =====
-- The bytes of an image against its chunks, in src/protocol.cpp.
use exposure.Base.{
  ℕ, zero, suc, ◌+◌, ◌-◌, ◌%◌, ◌*◌, ◌^◌, ◌≤◌, ◌<◌, min, ◌≡◌, refl, sym, ap, List, [], ◌∷◌, ◌++◌,
  length, take, drop, replicate, arith, length-append, length-take, length-drop, length-replicate,
}
use Prim.Native.Nat.add
use Prim.Native.Nat.mul
use mathlib.Core.List.{append_assoc}
use exposure.Base.Outcome.{ok}
use exposure.Config.{max_chunk_size}
use exposure.Protocol.Chunks.{
  sub_size, split_from, whole_count, chunk_count, split_tiff, total_size, copy_at, copy_chunks,
  join_tiff,
}

abbrev pub joined : List (List ℕ) → List ℕ
joined [] = []
joined (c ∷ cs) = c ++ joined cs

length-joined : (cs : List (List ℕ)) → length (joined cs) ≡ total_size cs
unfolding total_size
length-joined [] = refl
length-joined (c ∷ cs) = omega (arith, length-joined cs, length-append c (joined cs))

pub take-length-append : (xs ys : List ℕ) → take (length xs) (xs ++ ys) ≡ xs
take-length-append [] ys = refl
take-length-append (x ∷ xs) ys = ap (◌∷◌ x) (take-length-append xs ys)

drop-append : (xs ys : List ℕ) (n : ℕ) → drop (length xs + n) (xs ++ ys) ≡ drop n ys
drop-append [] ys n = rw (add.zero n)
drop-append (x ∷ xs) ys n = rw (add.suc (length xs) n) (drop-append xs ys n)

pub drop-length-append : (xs ys : List ℕ) → drop (length xs) (xs ++ ys) ≡ ys
drop-length-append [] ys = refl
drop-length-append (x ∷ xs) ys = drop-length-append xs ys

copy_at_lem :
    (written c rest : List ℕ)
    → length c ≤ length rest
    → copy_at (length written) c (written ++ rest) ≡ ok (written ++ (c ++ drop (length c) rest))
unfolding copy_at
copy_at_lem written c rest h =
    rw (take-length-append written rest, drop-append written rest (length c))
      (ground (arith, length-append written rest))

copy_chunks_lem :
    (cs : List (List ℕ)) (written rest : List ℕ) (at : ℕ)
    → at ≡ length written
    → length rest ≡ total_size cs
    → copy_chunks cs at (written ++ rest) ≡ ok (written ++ joined cs)
unfolding total_size copy_chunks
copy_chunks_lem [] written [] at e h = refl
copy_chunks_lem [] written (x ∷ rest) at e h = absurd (omega arith)
copy_chunks_lem (c ∷ cs) written rest at e h =
    rw (e, copy_at_lem written c rest (omega arith), ← append_assoc, ← append_assoc)
      (copy_chunks_lem cs (written ++ c) (drop (length c) rest) (length written + length c)
        (sym (length-append written c)) (omega (arith, length-drop (length c) rest)))

-- The chunks are copied back to back: the buffer is never overrun, and holds them in order.
pub join_tiff-eq-joined : (cs : List (List ℕ)) → join_tiff cs ≡ ok (joined cs)
unfolding join_tiff
join_tiff-eq-joined cs =
    copy_chunks_lem cs [] (replicate (total_size cs) 0) 0 refl (length-replicate (total_size cs) 0)

take_nil : (n : ℕ) → take {A = ℕ} n [] ≡ []
take_nil zero = refl
take_nil (suc n) = refl

take-add : (a b : ℕ) (xs : List ℕ) → take (a + b) xs ≡ take a xs ++ take b (drop a xs)
take-add zero b xs = rw (add.zero b)
take-add (suc a) b [] = rw (add.suc a b, take_nil b)
take-add (suc a) b (x ∷ xs) = rw (add.suc a b) (ap (◌∷◌ x) (take-add a b xs))

drop-add : (a b : ℕ) (xs : List ℕ) → drop b (drop a xs) ≡ drop (a + b) xs
drop-add zero b xs = rw (add.zero b)
drop-add (suc a) zero [] = rw (add.suc a zero)
drop-add (suc a) (suc b) [] = rw (add.suc a (suc b))
drop-add (suc a) b (x ∷ xs) = rw (add.suc a b) (drop-add a b xs)

take_all : (n : ℕ) (xs : List ℕ) → length xs ≤ n → take n xs ≡ xs
take_all zero [] h = refl
take_all zero (x ∷ xs) h = absurd (omega arith)
take_all (suc n) [] h = refl
take_all (suc n) (x ∷ xs) h = ap (◌∷◌ x) (take_all n xs (omega arith))

take_cut : (k n : ℕ) (xs : List ℕ) → k ≡ min (length xs) n → take k xs ≡ take n xs
take_cut zero zero xs h = refl
take_cut zero (suc n) [] h = refl
take_cut zero (suc n) (x ∷ xs) h = absurd (omega arith)
take_cut (suc k) zero xs h = absurd (omega arith)
take_cut (suc k) (suc n) [] h = absurd (omega arith)
take_cut (suc k) (suc n) (x ∷ xs) h = ap (◌∷◌ x) (take_cut k n xs (omega arith))

-- What the rounds from `i` write: the bytes from `i * size` on, `rounds` chunks of them.
joined-split_from :
    (size rounds i : ℕ) (raw : List ℕ)
    → length raw < 2 ^ 64
    → (i + rounds) * size < length raw + size
    → joined (split_from size rounds i raw) ≡ take (rounds * size) (drop (i * size) raw)
unfolding split_from sub_size
joined-split_from size zero i raw small fits = rw (mul.zero size)
joined-split_from size (suc rounds) i raw small fits =
    let whole : suc rounds * size ≡ size + rounds * size = omega arith in
    let next : (i + 1) * size ≡ i * size + size = omega arith in
    let cut : take (min (sub_size (length raw) (i * size)) size) (drop (i * size) raw)
        ≡ take size (drop (i * size) raw) =
      take_cut _ size (drop (i * size) raw) (omega (arith, length-drop (i * size) raw)) in
    rw (
      whole,
      take-add size (rounds * size) (drop (i * size) raw),
      drop-add (i * size) size raw,
      ← next,
      cut,
      joined-split_from size rounds (i + 1) raw small (omega arith),
    )

whole_count_bound : (size n : ℕ) → 0 < size → whole_count size n * size < n + size
whole_count_bound size n h = grind arith

cut_bound : (c n size : ℕ) → (c % 2 ^ 32) * size ≤ c * size
cut_bound c n size = grind arith

-- None of the chunks is beyond the image.
chunk_count_bound : (size n : ℕ) → 0 < size → chunk_count size n * size < n + size
unfolding chunk_count
chunk_count_bound size n h =
    omega (arith, whole_count_bound size n h, cut_bound (whole_count size n) n size)

-- Up to as many bytes as 2 ^ 32 - 1 chunks hold, the chunks are enough for the image.
pub chunk_count_enough :
    (n : ℕ) → n ≤ (2 ^ 32 - 1) * max_chunk_size → n ≤ chunk_count max_chunk_size n * max_chunk_size
unfolding chunk_count
chunk_count_enough n h = ground arith

-- Each of the chunks holds a byte at least, and `size` bytes at most.
abbrev pub AreChunks : ℕ → List (List ℕ) → Type 0
AreChunks size [] = Unit {0}
AreChunks size (c ∷ cs) = (1 ≤ length c) × (length c ≤ size) × AreChunks size cs

split_from-AreChunks :
    (size rounds i : ℕ) (raw : List ℕ)
    → 0 < size
    → length raw < 2 ^ 64
    → (i + rounds) * size < length raw + size
    → AreChunks size (split_from size rounds i raw)
unfolding split_from sub_size
split_from-AreChunks size zero i raw h small fits = tt
split_from-AreChunks size (suc rounds) i raw h small fits =
    let cut = length-take (min (sub_size (length raw) (i * size)) size) (drop (i * size) raw) in
    let rest = length-drop (i * size) raw in
    (
      omega (arith, cut, rest),
      omega (arith, cut, rest),
      split_from-AreChunks size rounds (i + 1) raw h small (omega arith),
    )

-- Each chunk that an image shorter than 2^64 bytes is split into has at least one byte, and at most
-- as many as the chunk size, which is not 0.
pub split_tiff-AreChunks :
    (size : ℕ) (raw : List ℕ)
    → 0 < size
    → length raw < 2 ^ 64
    → AreChunks size (split_tiff size raw)
unfolding split_tiff
split_tiff-AreChunks size raw h small =
    let within = chunk_count_bound size (length raw) h in
    split_from-AreChunks size (chunk_count size (length raw)) 0 raw h small (omega arith)

-- The chunks of an image, if there are enough of them, are put together to the image again, without a
-- write outside the buffer.
pub join_tiff-split_tiff :
    (size : ℕ) (raw : List ℕ)
    → 0 < size
    → length raw < 2 ^ 64
    → length raw ≤ chunk_count size (length raw) * size
    → join_tiff (split_tiff size raw) ≡ ok raw
unfolding split_tiff
join_tiff-split_tiff size raw h small enough =
    let within = chunk_count_bound size (length raw) h in
    rw (
      join_tiff-eq-joined,
      joined-split_from size (chunk_count size (length raw)) 0 raw small (omega arith),
      mul.zero size,
      take_all _ raw enough,
    )
