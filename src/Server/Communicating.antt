-- ===== src/Server/Communicating.antt =====
-- A round of `run_communication_service` of src/server.cpp: what it keeps.
use exposure.Base.{ℕ, ◌≡◌, refl, ap, ◌∙◌, Bool, true, false, ◌⊎◌, inl, inr, if◌then◌else◌}
use exposure.Base.Text.{Text}
use exposure.Base.Outcome.{
  Outcome, ok, err, Fault, assertion, uncaught, bad_cast, null_dereference, past_the_end,
  out_of_bounds, use_after_free, out_of_fuel,
}
use exposure.Protocol.Schema.{Capnp}
use exposure.Protocol.Command.{Job, Command}
use exposure.Server.State.{Server}
use exposure.Server.Dispatch.{visit_communication}
use exposure.Server.Phases.{receive, fails_thread, ends_thread, communicate}
use exposure.Server.Answered.{pending-visit_communication}
use exposure.Server.Pending.{pending}
use exposure.Server.Receive.{receive-eq-ok}

-- A command was visited, or nothing was done, but perhaps the thread ended.
abbrev pub Communicated : ℕ → Text → Server → Server → Type 0
Communicated now worker s s' =
    ((c : Command) × (visit_communication now worker c s ≡ ok s'))
    ⊎ ((lost : Bool) × (record s { communication_lost = lost } ≡ s'))

fails_thread-eq-ok :
    (fault : Fault) (s s' : Server)
    → fails_thread s fault ≡ ok s'
    → record s { communication_lost = true } ≡ s'
fails_thread-eq-ok uncaught s s' e = cc
fails_thread-eq-ok assertion s s' e = cc
fails_thread-eq-ok bad_cast s s' e = cc
fails_thread-eq-ok null_dereference s s' e = cc
fails_thread-eq-ok past_the_end s s' e = cc
fails_thread-eq-ok out_of_bounds s s' e = cc
fails_thread-eq-ok use_after_free s s' e = cc
fails_thread-eq-ok out_of_fuel s s' e = cc

module _ (capnp : Capnp) (now : ℕ) (worker m : Text) where
  ends_thread-eq-ok :
      (o : Outcome Server) (s s' : Server)
      → receive capnp (visit_communication now worker) m s ≡ o
      → ends_thread s o ≡ ok s'
      → Communicated now worker s s'
  ends_thread-eq-ok (ok u) s s' received e =
      let same : u ≡ s' = cc in
      inl (receive-eq-ok capnp (visit_communication now worker) m s s' (received ∙ ap ok same))
  ends_thread-eq-ok (err fault) s s' received e = inr (true, fails_thread-eq-ok fault s s' e)

  unless_lost :
      (lost : Bool) (s s' : Server)
      → record s { communication_lost = lost } ≡ s
      → (if lost then ok s else ends_thread s (receive capnp (visit_communication now worker) m s))
        ≡ ok s'
      → Communicated now worker s s'
  unless_lost true s s' is_lost e = let same : s ≡ s' = cc in inr (true, is_lost ∙ same)
  unless_lost false s s' is_lost e = ends_thread-eq-ok _ s s' refl e

  pub communicate-eq-ok :
      (s s' : Server) → communicate capnp now worker m s ≡ ok s' → Communicated now worker s s'
  unfolding communicate
  communicate-eq-ok s s' e = unless_lost s.communication_lost s s' refl e

  -- No message on the communication socket changes what is pending.
  pub pending-communicate :
      (p : Job → Bool) (s s' : Server)
      → communicate capnp now worker m s ≡ ok s'
      → pending p s' ≡ pending p s
  pending-communicate p s s' e = elim (communicate-eq-ok s s' e) [
    | inl (c, visited) ↦ pending-visit_communication p now worker c s s' visited
    | inr (lost, same) ↦ rw (← same) refl
  ]
