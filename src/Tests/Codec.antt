-- ===== src/Tests/Codec.antt =====
-- A codec in the place of Cap'n Proto, to show that what is assumed of it can be met: lists with
-- their lengths in front, unions with a tag, padded to whole words.
use exposure.Base.{
  ℕ, zero, suc, ◌*◌, ◌%◌, ◌≤◌, ◌≡◌, refl, ap, Option, none, some, List, [], ◌∷◌, ◌++◌, length, take,
  drop, arith,
}
use exposure.Base.Text.{Text}
use exposure.Base.Outcome.{Outcome, ok, err, uncaught}
use exposure.Protocol.Schema.{
  ProtocolCommand, JobData, ResultData, CommandData, HeartbeatType, Capnp,
}
use exposure.Protocol.Chunks.RoundTrip.{take-length-append, drop-length-append}

abbrev Parsed : Type 0 → Type 0
Parsed A = Option (A × Text)

infixl 5 ◌>>=◌
abbrev ◌>>=◌ : {A B : Type 0} → Parsed A → (A × Text → Parsed B) → Parsed B
none >>= f = none
some p >>= f = f p

put_text : Text → Text → Text
put_text xs rest = length xs ∷ (xs ++ rest)

get_text : Text → Parsed Text
get_text [] = none
get_text (n ∷ ys) = some (take n ys, drop n ys)

get-put_text : (xs rest : Text) → get_text (put_text xs rest) ≡ some (xs, rest)
unfolding get_text put_text
get-put_text xs rest = rw (take-length-append xs rest, drop-length-append xs rest)

put_each : List Text → Text → Text
put_each [] rest = rest
put_each (c ∷ cs) rest = put_text c (put_each cs rest)

get_each : ℕ → Text → Parsed (List Text)
get_each zero ys = some ([], ys)
get_each (suc n) ys = get_text ys >>= λ p. (get_each n p.1 >>= λ q. some (p.0 ∷ q.0, q.1))

get-put_each :
    (cs : List Text) (rest : Text) → get_each (length cs) (put_each cs rest) ≡ some (cs, rest)
unfolding get_each put_each
get-put_each [] rest = refl
get-put_each (c ∷ cs) rest = rw (get-put_text c (put_each cs rest), get-put_each cs rest)

put_job : JobData → Text → Text
put_job (JobData.histogram r) rest = 0 ∷ put_text r.filename rest
put_job (JobData.equalisation r) rest = 1 ∷ put_text r.filename (put_text r.histogram_mapping rest)
put_job (JobData.unrecognised n) rest = 2 ∷ n ∷ rest

get_job : Text → Parsed JobData
get_job (zero ∷ ys) = get_text ys >>= λ p. some (JobData.histogram (record { filename = p.0 }), p.1)
get_job (suc zero ∷ ys) = get_text ys >>= λ p.
    (get_text p.1 >>= λ q.
    some (JobData.equalisation (record { filename = p.0; histogram_mapping = q.0 }), q.1))
get_job (suc (suc zero) ∷ n ∷ ys) = some (JobData.unrecognised n, ys)
get_job _ = none

get-put_job : (d : JobData) (rest : Text) → get_job (put_job d rest) ≡ some (d, rest)
unfolding get_job put_job
get-put_job (JobData.histogram r) rest = rw (get-put_text r.filename rest)
get-put_job (JobData.equalisation r) rest = rw (
  get-put_text r.filename (put_text r.histogram_mapping rest),
  get-put_text r.histogram_mapping rest,
)
get-put_job (JobData.unrecognised n) rest = refl

put_result : ResultData → Text → Text
put_result (ResultData.histogram r) rest = 0 ∷ put_text r.filename (put_text r.histogram rest)
put_result (ResultData.equalisation r) rest =
    1 ∷ put_text r.filename (length r.tiff_result ∷ put_each r.tiff_result rest)
put_result (ResultData.unrecognised n) rest = 2 ∷ n ∷ rest

counted_each : Text → Parsed (List Text)
counted_each [] = none
counted_each (n ∷ ys) = get_each n ys

get_result : Text → Parsed ResultData
get_result (zero ∷ ys) = get_text ys >>= λ p.
    (get_text p.1 >>= λ q.
    some (ResultData.histogram (record { filename = p.0; histogram = q.0 }), q.1))
get_result (suc zero ∷ ys) = get_text ys >>= λ p.
    (counted_each p.1 >>= λ q.
    some (ResultData.equalisation (record { filename = p.0; tiff_result = q.0 }), q.1))
get_result (suc (suc zero) ∷ n ∷ ys) = some (ResultData.unrecognised n, ys)
get_result _ = none

get-put_result : (d : ResultData) (rest : Text) → get_result (put_result d rest) ≡ some (d, rest)
unfolding get_result put_result counted_each
get-put_result (ResultData.histogram r) rest =
    rw (get-put_text r.filename (put_text r.histogram rest), get-put_text r.histogram rest)
get-put_result (ResultData.equalisation r) rest = rw (
  get-put_text r.filename (length r.tiff_result ∷ put_each r.tiff_result rest),
  get-put_each r.tiff_result rest,
)
get-put_result (ResultData.unrecognised n) rest = refl

put_command : CommandData → Text → Text
put_command (CommandData.helo n) rest = 0 ∷ n ∷ rest
put_command CommandData.ehlo rest = 1 ∷ rest
put_command (CommandData.heartbeat HeartbeatType.request) rest = 2 ∷ rest
put_command (CommandData.heartbeat HeartbeatType.reply) rest = 3 ∷ rest
put_command (CommandData.heartbeat (HeartbeatType.unrecognised n)) rest = 4 ∷ n ∷ rest
put_command (CommandData.job r) rest = 5 ∷ put_text r.type (put_job r.content rest)
put_command (CommandData.result r) rest = 6 ∷ put_text r.type (put_result r.content rest)
put_command CommandData.bye rest = 7 ∷ rest
put_command (CommandData.unrecognised n) rest = 8 ∷ n ∷ rest

pattern abbrev above_three : ℕ → ℕ
above_three n = suc (suc (suc (suc n)))

get_command : Text → Parsed CommandData
get_command (zero ∷ n ∷ ys) = some (CommandData.helo n, ys)
get_command (suc zero ∷ ys) = some (CommandData.ehlo, ys)
get_command (suc (suc zero) ∷ ys) = some (CommandData.heartbeat HeartbeatType.request, ys)
get_command (suc (suc (suc zero)) ∷ ys) = some (CommandData.heartbeat HeartbeatType.reply, ys)
get_command (above_three zero ∷ n ∷ ys) =
    some (CommandData.heartbeat (HeartbeatType.unrecognised n), ys)
get_command (above_three (suc zero) ∷ ys) = get_text ys >>= λ p.
    (get_job p.1 >>= λ q. some (CommandData.job (record { type = p.0; content = q.0 }), q.1))
get_command (above_three (suc (suc zero)) ∷ ys) = get_text ys >>= λ p.
    (get_result p.1 >>= λ q. some (CommandData.result (record { type = p.0; content = q.0 }), q.1))
get_command (above_three (suc (suc (suc zero))) ∷ ys) = some (CommandData.bye, ys)
get_command (above_three (above_three zero) ∷ n ∷ ys) = some (CommandData.unrecognised n, ys)
get_command _ = none

get-put_command :
    (d : CommandData) (rest : Text) → get_command (put_command d rest) ≡ some (d, rest)
unfolding get_command put_command
get-put_command (CommandData.helo n) rest = refl
get-put_command CommandData.ehlo rest = refl
get-put_command (CommandData.heartbeat HeartbeatType.request) rest = refl
get-put_command (CommandData.heartbeat HeartbeatType.reply) rest = refl
get-put_command (CommandData.heartbeat (HeartbeatType.unrecognised n)) rest = refl
get-put_command (CommandData.job r) rest =
    rw (get-put_text r.type (put_job r.content rest), get-put_job r.content rest)
get-put_command (CommandData.result r) rest =
    rw (get-put_text r.type (put_result r.content rest), get-put_result r.content rest)
get-put_command CommandData.bye rest = refl
get-put_command (CommandData.unrecognised n) rest = refl

-- One number to a word.
spread : Text → Text
spread [] = []
spread (x ∷ xs) = x ∷ 0 ∷ 0 ∷ 0 ∷ 0 ∷ 0 ∷ 0 ∷ 0 ∷ spread xs

gather : Text → Text
gather (x ∷ _ ∷ _ ∷ _ ∷ _ ∷ _ ∷ _ ∷ _ ∷ xs) = x ∷ gather xs
gather _ = []

gather-spread : (xs : Text) → gather (spread xs) ≡ xs
unfolding gather spread
gather-spread [] = refl
gather-spread (x ∷ xs) = ap (◌∷◌ x) (gather-spread xs)

length-spread : (xs : Text) → length (spread xs) ≡ 8 * length xs
unfolding spread
length-spread [] = refl
length-spread (x ∷ xs) = omega (arith, length-spread xs)

abbrev whole : Parsed CommandData → Text → Outcome ProtocolCommand
whole none name = err uncaught
whole (some p) name = ok (record { command = name; content = p.0 })

decode : Parsed Text → Outcome ProtocolCommand
decode none = err uncaught
decode (some p) = whole (get_command p.1) p.0

pub write : ProtocolCommand → Text
write c = spread (put_text c.command (put_command c.content []))

pub read : ℕ → Text → Outcome ProtocolCommand
unfolding decode
read limit s = decode (get_text (gather s))

pub write_whole_words : (c : ProtocolCommand) → length (write c) % 8 ≡ 0
unfolding write
write_whole_words c = omega (arith, length-spread (put_text c.command (put_command c.content [])))

pub read_back_lem :
    (limit : ℕ) (c : ProtocolCommand)
    → 2 * length (write c) ≤ 8 * limit
    → read limit (write c) ≡ ok c
unfolding write read
read_back_lem limit c h = rw (
  gather-spread (put_text c.command (put_command c.content [])),
  get-put_text c.command (put_command c.content []),
  get-put_command c.content [],
)

unfoldable pub codec : Capnp
unfolding write read spread gather put_text put_command put_job put_result put_each get_text
    get_command get_job get_result get_each counted_each
codec = record {
  to_flat_array = write;
  read = read;
  whole_words = write_whole_words;
  read_back = read_back_lem;
}
