-- ===== src/Protocol/Encode/RoundTrip.antt =====
-- Commands against the messages that are made of them, in src/protocol.cpp.
use exposure.Base.{
  ℕ, suc, ◌-◌, ◌*◌, ◌/◌, ◌^◌, ◌≤◌, ◌≡◌, refl, ap, some, List, [], ◌∷◌, ◌++◌, length, get_elem?, set,
  replicate, arith, length-replicate, sym, length-append, ltb, leb, true, lt→ltb,
}
use mathlib.Core.List.{append_assoc}
use exposure.Base.Text.{text_eq}
use exposure.Base.Outcome.{ok}
use exposure.Config.{histogram_segments, max_chunk_size, max_message_size}
use exposure.Protocol.Schema.{Float32, Capnp}
use exposure.Protocol.Command.{
  Job, histogram_job, equalisation_job, Result, histogram_result, equalisation_result, Command,
  helo, ehlo, job, result, heartbeat, bye,
}
use exposure.Protocol.Chunks.RoundTrip.{chunk_count_enough, join_tiff-split_tiff}
use exposure.Protocol.Encode.{
  write_floats, copy_floats, read_floats, build, to_message, command_from, from_serialised_string,
}

-- Writing the entries one by one over an array of the same length.
set-append :
    (done : List Float32) (y x : Float32) (rest : List Float32)
    → set (done ++ y ∷ rest) (length done) x ≡ done ++ x ∷ rest
set-append [] y x rest = refl
set-append (d ∷ done) y x rest = ap (◌∷◌ d) (set-append done y x rest)

get_elem?-append :
    (done : List Float32) (x : Float32) (rest : List Float32)
    → get_elem? (done ++ x ∷ rest) (length done) ≡ some x
get_elem?-append [] x rest = refl
get_elem?-append (d ∷ done) x rest = get_elem?-append done x rest

regroup :
    (done : List Float32) (x : Float32) (rest : List Float32)
    → done ++ x ∷ rest ≡ (done ++ x ∷ []) ++ rest
regroup done x rest = sym (append_assoc done (x ∷ []) rest)

write_floats_step :
    (rounds i : ℕ) (from out : List Float32) (x : Float32)
    → get_elem? from i ≡ some x
    → write_floats (suc rounds) i from out ≡ write_floats rounds (suc i) from (set out i x)
unfolding write_floats
write_floats_step rounds i from out x e = rw e

read_floats_step :
    (rounds i : ℕ) (from into : List Float32) (x : Float32)
    → get_elem? from i ≡ some x
    → ltb i (length into) ≡ true
    → read_floats (suc rounds) i from into ≡ read_floats rounds (suc i) from (set into i x)
unfolding read_floats
read_floats_step rounds i from into x e room = rw (e, room)

write_floats_lem :
    (done from out : List Float32) (i : ℕ)
    → i ≡ length done
    → length out ≡ length from
    → write_floats (length from) i (done ++ from) (done ++ out) ≡ done ++ from
write_floats_lem done [] [] i e h = unfold write_floats in refl
write_floats_lem done [] (y ∷ out) i e h = absurd (omega arith)
write_floats_lem done (x ∷ from) [] i e h = absurd (omega arith)
write_floats_lem done (x ∷ from) (y ∷ out) i e h =
    rw (e, write_floats_step (length from) _ _ (done ++ y ∷ out) x (get_elem?-append done x from))
      (rw (set-append done y x out, regroup done x from, regroup done x out)
        (write_floats_lem (done ++ x ∷ []) from out (suc (length done))
          (omega (arith, length-append done (x ∷ []))) (omega arith)))

pub copy_floats-eq : (from : List Float32) → copy_floats from ≡ from
unfolding copy_floats
copy_floats-eq from =
    write_floats_lem [] from (replicate (length from) 0) 0 refl (length-replicate (length from) 0)

read_floats_lem :
    (done from into : List Float32) (i : ℕ)
    → i ≡ length done
    → length into ≡ length from
    → read_floats (length from) i (done ++ from) (done ++ into) ≡ ok (done ++ from)
read_floats_lem done [] [] i e h = unfold read_floats in refl
read_floats_lem done [] (y ∷ into) i e h = absurd (omega arith)
read_floats_lem done (x ∷ from) [] i e h = absurd (omega arith)
read_floats_lem done (x ∷ from) (y ∷ into) i e h =
    let room : ltb (length done) (length (done ++ y ∷ into)) ≡ true =
      lt→ltb _ _ (omega (arith, length-append done (y ∷ into))) in
    rw
      (
        e,
        read_floats_step (length from) _ _ (done ++ y ∷ into) x (get_elem?-append done x from) room,
      )
      (rw (set-append done y x into, regroup done x from, regroup done x into)
        (read_floats_lem (done ++ x ∷ []) from into (suc (length done))
          (omega (arith, length-append done (x ∷ []))) (omega arith)))

-- An array of the right length is read whole.
read_floats-eq :
    (n : ℕ) (from : List Float32) → length from ≡ n → read_floats n 0 from (replicate n 0) ≡ ok from
read_floats-eq n from e =
    rw (← e) (
      read_floats_lem [] from (replicate (length from) 0) 0 refl (length-replicate (length from) 0))

-- What the constructors of the classes take for granted: the arrays have their static length, and
-- an image has no more bytes than 2^32 - 1 chunks hold.
abbrev pub IsJob : Job → Type 0
IsJob (histogram_job f) = Unit {0}
IsJob (equalisation_job f m) = length m ≡ histogram_segments

abbrev pub IsResult : Result → Type 0
IsResult (histogram_result f h) = length h ≡ histogram_segments
IsResult (equalisation_result f t) = length t ≤ (2 ^ 32 - 1) * max_chunk_size

abbrev pub IsCommand : Command → Type 0
IsCommand (job j) = IsJob j
IsCommand (result r) = IsResult r
IsCommand c = Unit {0}

pub command_from-build :
    (c : Command) → IsCommand c → command_from (build c).command (build c).content ≡ ok (some c)
unfolding build command_from text_eq
command_from-build (helo n) v = refl
command_from-build ehlo v = refl
command_from-build (job (histogram_job f)) v = refl
command_from-build (job (equalisation_job f m)) v =
    rw (copy_floats-eq m, read_floats-eq histogram_segments m v)
command_from-build (result (histogram_result f h)) v =
    rw (copy_floats-eq h, v, read_floats-eq histogram_segments h v)
command_from-build (result (equalisation_result f t)) v = rw (
    join_tiff-split_tiff max_chunk_size t (omega arith) (omega (arith, v))
      (chunk_count_enough (length t) v))
command_from-build (heartbeat t) v = refl
command_from-build bye v = refl

-- A command is read back from its message, if its histogram or mapping, where it has one, has the
-- static length, its image has no more bytes than 2^32 - 1 chunks hold, above which the count of
-- chunks wraps, and the message, which is visited at most twice, is within the limit of the reader.
pub from_serialised_string-to_message :
    (capnp : Capnp) (c : Command)
    → IsCommand c
    → 2 * length (to_message capnp c) ≤ 8 * max_message_size
    → from_serialised_string capnp (to_message capnp c) ≡ ok (some c)
unfolding to_message from_serialised_string
from_serialised_string-to_message capnp c v fits =
    let m = to_message capnp c in
    let whole : leb (length m) (length m / 8 * 8) ≡ true =
      ground (arith, capnp.whole_words (build c)) in
    rw (whole, capnp.read_back max_message_size (build c) fits) (command_from-build c v)
