-- ===== src/Server/Receive.antt =====
-- `receive`: what a message that is handled was, and what becomes of one that was sent.
use exposure.Base.{◌*◌, ◌≤◌, ◌≡◌, Option, none, some, length}
use exposure.Base.Text.{Text}
use exposure.Base.Outcome.{Outcome, ok, >>=-eq-ok}
use exposure.Protocol.Schema.{Capnp}
use exposure.Protocol.Command.{Command}
use exposure.Protocol.Encode.{from_serialised_string, to_message}
use exposure.Protocol.Encode.RoundTrip.{IsCommand, from_serialised_string-to_message}
use exposure.Config.{max_message_size}
use exposure.Server.Dispatch.{visit}
use exposure.Server.Phases.{receive}

module _ (capnp : Capnp) where
  -- A message that is handled was decoded, and its command was visited.
  pub receive-eq-ok {ℓ} :
      {S : Type ℓ} (visitor : Command → S → Outcome S) (m : Text) (s s' : S)
      → receive capnp visitor m s ≡ ok s'
      → (c : Command) × (visitor c s ≡ ok s')
  unfolding receive
  receive-eq-ok visitor m s s' e =
      let (o, decoded, visited) = >>=-eq-ok (from_serialised_string capnp m) _ e in
      visit-eq-ok o visited
    where
      visit-eq-ok :
          (o : Option Command) → visit visitor o s ≡ ok s' → (c : Command) × (visitor c s ≡ ok s')
      visit-eq-ok none v = cc
      visit-eq-ok (some c) v = (c, v)

  -- A message that its sender made of a command is handled as that command.
  pub receive-to_message {ℓ} :
      {S : Type ℓ} (visitor : Command → S → Outcome S) (c : Command) (s : S)
      → IsCommand c
      → 2 * length (to_message capnp c) ≤ 8 * max_message_size
      → receive capnp visitor (to_message capnp c) s ≡ visitor c s
  unfolding receive
  receive-to_message visitor c s v fits = rw (from_serialised_string-to_message capnp c v fits)
