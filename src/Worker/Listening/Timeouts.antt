-- ===== src/Worker/Listening/Timeouts.antt =====
-- `run_communication` of src/worker.cpp, whose `receive` can time out, against `run_work`.
use exposure.Base.{
  ℕ, ◌≡◌, refl, sym, true, false, inl, inr, Option, none, some, List, [], ◌∷◌, Bool-cases,
}
use exposure.Base.Text.{Text}
use exposure.Base.Outcome.{Outcome, ok, err, ◌>>=◌}
use exposure.Protocol.Schema.{Capnp}
use exposure.Server.Phases.{receive}
use exposure.Worker.Connection.{Connection, visit_communicating}
use exposure.Worker.Listening.{run_work, run_communication, is_dying}
use exposure.Worker.Listening.Heard.{nothing_left}

-- The messages of the rounds that did not time out.
abbrev pub arrived : List (Option Text) → List Text
arrived [] = []
arrived (none ∷ rs) = arrived rs
arrived (some m ∷ rs) = m ∷ arrived rs

abbrev pub left_over : Outcome (Connection × List (Option Text)) → Outcome (Connection × List Text)
left_over (ok (c, rs)) = ok (c, arrived rs)
left_over (err e) = err e

module _ (capnp : Capnp) (thread_count : ℕ) where
  stopped :
      (ms : List Text) (c : Connection)
      → is_dying c.state ≡ true
      → run_work capnp thread_count ms c ≡ ok (c, ms)
  unfolding run_work
  stopped [] c d = refl
  stopped (m ∷ ms) c d = rw d

  goes_on :
      (m : Text) (ms : List Text) (c : Connection)
      → is_dying c.state ≡ false
      → run_work capnp thread_count (m ∷ ms) c
        ≡ (receive capnp (visit_communicating thread_count) m c >>= run_work capnp thread_count ms)
  unfolding run_work
  goes_on m ms c d = rw d

  -- Both loops do the same with the messages that they hear, whatever the state, the bytes and the
  -- timeouts of the communication loop between them, faults included.
  pub run_communication-eq-run_work :
      (rs : List (Option Text)) (c : Connection)
      → left_over (run_communication capnp thread_count rs c)
        ≡ run_work capnp thread_count (arrived rs) c
  unfolding run_communication
  run_communication-eq-run_work [] c = sym (nothing_left capnp thread_count c)
  run_communication-eq-run_work (none ∷ rs) c = elim (Bool-cases (is_dying c.state)) [
    | inl d ↦ rw d (sym (stopped (arrived rs) c d))
    | inr d ↦ rw d (run_communication-eq-run_work rs c)
  ]
  run_communication-eq-run_work (some m ∷ rs) c = elim (Bool-cases (is_dying c.state)) [
    | inl d ↦ rw d (sym (stopped (m ∷ arrived rs) c d))
    | inr d ↦
        rw (d, goes_on m (arrived rs) c d)
          (after (receive capnp (visit_communicating thread_count) m c)
            (run_communication-eq-run_work rs))
  ]
    where
      after :
          (o : Outcome Connection)
          → ((v : Connection)
              → left_over (run_communication capnp thread_count rs v)
                ≡ run_work capnp thread_count (arrived rs) v)
          → left_over (o >>= run_communication capnp thread_count rs)
            ≡ (o >>= run_work capnp thread_count (arrived rs))
      after (ok v) rest = rest v
      after (err e) rest = refl
