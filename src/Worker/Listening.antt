-- ===== src/Worker/Listening.antt =====
-- `run_work` and `run_communication` of `ServerConnection`: what a worker hears from its server.
--
-- Each loop is taken by itself: the messages that it gets are a list, and it stops at the list's end
-- or when it finds the connection dying. What is left of the list is returned with the connection.
pub mod Heard
pub mod Timeouts
use exposure.Base.{ℕ, Bool, true, false, Option, none, some, List, [], ◌∷◌, if◌then◌else◌}
use exposure.Base.Text.{Text}
use exposure.Base.Outcome.{Outcome, ok, err, ◌>>=◌}
use exposure.Protocol.Schema.{Capnp}
use exposure.Server.Phases.{receive}
use exposure.Worker.Connection.{
  State, unconnected, connected, dying, Connection, visit_communicating,
}

abbrev pub is_dying : State → Bool
is_dying unconnected = false
is_dying connected = false
is_dying dying = true

module _ (capnp : Capnp) (thread_count : ℕ) where
  unfoldable pub run_work : List Text → Connection → Outcome (Connection × List Text)
  run_work [] c = ok (c, [])
  run_work (m ∷ ms) c =
      let next = receive capnp (visit_communicating thread_count) m c >>= run_work ms in
      if is_dying c.state then ok (c, m ∷ ms) else next

  -- `none` is a `receive` that times out.
  abbrev hear : Option Text → Connection → Outcome Connection
  hear none c = ok c
  hear (some m) c = receive capnp (visit_communicating thread_count) m c

  unfoldable pub run_communication :
      List (Option Text) → Connection → Outcome (Connection × List (Option Text))
  run_communication [] c = ok (c, [])
  run_communication (r ∷ rs) c =
      let next = hear r c >>= run_communication rs in
      if is_dying c.state then ok (c, r ∷ rs) else next
