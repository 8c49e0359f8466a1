-- ===== src/Server/Contract.antt =====
-- What the first phase of src/server.cpp promises, without queues, workers and messages.
pub mod Refines
use exposure.Base.{ℕ, suc, ◌≡◌, none, List, [], count, if◌then◌else◌, ◌+◌}
use exposure.Base.Text.{Text, text_eq}
use exposure.Base.Map
use exposure.Base.Map.{Map}
use exposure.Protocol.Schema.{Float32}

-- How many answers are open for each name, and the histograms that were answered.
pub record Contract : Type 0 where
  pub open_answers : Text → ℕ
  pub answered : Map (List Float32)

-- At first one is open for each file.
abbrev pub agreed : List Text → Contract
agreed names = record { open_answers = λ f. count (text_eq f) names; answered = [] }

-- A step answers for one name, for which one answer is open and none was given.
pub data Answer : Contract → Contract → Type 0 where
  answer :
      {before after : Contract}
      → (f : Text) (h : List Float32) → before.open_answers f ≡ 1
      → after.open_answers f ≡ 0
      → ((g : Text) → before.open_answers g ≡ (if text_eq g f then 1 else 0) + after.open_answers g)
      → Map.find f before.answered ≡ none
      → after.answered ≡ Map.insert f h before.answered
      → Answer before after

-- As many answers, one after the other
pub data Answers : ℕ → Contract → Contract → Type 0 where
  no_more :
      {before after : Contract}
      → ((g : Text) → before.open_answers g ≡ after.open_answers g)
      → before.answered ≡ after.answered
      → Answers 0 before after
  one_more :
      {n : ℕ} {before between after : Contract}
      → Answer before between
      → Answers n between after
      → Answers (suc n) before after
