-- ===== src/Worker/Working/Rounds.antt =====
-- A thread that runs the jobs of a connection until it finds none: how many rounds it takes, and in
-- which order.
use exposure.Base.{ℕ, ◌≡◌, true, some, List, [], ◌∷◌}
use exposure.Base.Text.{Text}
use exposure.Base.Outcome.{ok}
use exposure.Protocol.Schema.{Float32}
use exposure.Protocol.Command.{Job, Result, Command}
use exposure.Protocol.Equality.{answers}
use exposure.Worker.Connection.{Connection, ImageFiles}

-- Every image can be read, and equalised with every mapping.
pub record Succeed (files : ImageFiles) : Type 0 where
  pub read : (f : Text) → (h : List Float32) × (files.image_get_histogram f ≡ ok (some h))
  pub equalised : (f : Text) (m : List Float32) → (t : List ℕ) × (files.image_equalise f m ≡ ok t)

-- A result for each job, in the same order
abbrev pub AnswerAll : List Result → List Job → Type 0
AnswerAll [] [] = Unit {0}
AnswerAll [] (j ∷ js) = ⊥
AnswerAll (r ∷ rs) [] = ⊥
AnswerAll (r ∷ rs) (j ∷ js) = (answers r j ≡ true) × AnswerAll rs js

-- A connection with sockets, jobs, and what it sent on the work socket
abbrev pub with_jobs : List Job → List Command → Connection → Connection
with_jobs jobs sent c = record c { sockets = true; jobs = jobs; work_sent = sent }
