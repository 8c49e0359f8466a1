-- ===== src/Worker/Connecting.antt =====
-- `connect` of `ServerConnection` in src/worker.cpp, by the answer to its HELO.
use exposure.Base.{ℕ, suc, ◌≡◌, Bool, true, false, [], ◌∷◌, ◌++◌, if◌then◌else◌}
use exposure.Base.Outcome.{ok, err, assertion}
use exposure.Protocol.Command.{Command, helo, ehlo, job, result, heartbeat, bye}
use exposure.Semaphore
use exposure.Worker.Connection.{
  unconnected, connected, Connection, transition, transition_state, visit_connecting, connect,
}

abbrev pub is_ehlo : Command → Bool
is_ehlo ehlo = true
is_ehlo (helo n) = false
is_ehlo (job j) = false
is_ehlo (result r) = false
is_ehlo (heartbeat t) = false
is_ehlo bye = false

-- A connection that has never been connected says HELO with the number of its threads. An EHLO makes
-- it connected, and releases the semaphore of its jobs once; any other answer fails the assertion, a
-- bye too, which the visitor handles before.
pub connect_by_answer :
    (thread_count : ℕ) (answer : Command) (c : Connection)
    → c.state ≡ unconnected
    → c.sockets ≡ false
    → connect thread_count answer c ≡ (
        if is_ehlo answer
        then ok (record c {
          state = connected;
          sockets = true;
          communication_sent = c.communication_sent ++ helo thread_count ∷ [];
          jobs_semaphore = suc c.jobs_semaphore;
        })
        else err assertion)
unfolding connect visit_connecting transition_state transition Semaphore.release
connect_by_answer n ehlo c fresh closed = rw (fresh, closed)
connect_by_answer n bye c fresh closed = rw (fresh, closed)
connect_by_answer n (helo k) c fresh closed = rw (fresh, closed)
connect_by_answer n (job j) c fresh closed = rw (fresh, closed)
connect_by_answer n (result r) c fresh closed = rw (fresh, closed)
connect_by_answer n (heartbeat t) c fresh closed = rw (fresh, closed)
