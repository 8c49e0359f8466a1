-- ===== src/Server/Balance.antt =====
-- The balance of files, jobs and results in the first phase, and how each message keeps it.
use exposure.Base.{
  ℕ, ◌+◌, ◌≤◌, ◌≡◌, sym, ap, ◌∙◌, Bool, true, false, inl, inr, none, some, List, [], ◌∷◌, length,
  count, arith, Option-cases, ltb,
}
use exposure.Base.Text.{Text, text_eq, text_eq_refl, text_eq_sound}
use exposure.Base.Map
use exposure.Base.Map.{Map}
use exposure.Base.Outcome.{ok, ◌>>=◌, >>=-eq-ok}
use exposure.Protocol.Schema.{Float32}
use exposure.Protocol.Command.{
  Job, histogram_job, equalisation_job, histogram_result, equalisation_result, Command, helo, ehlo,
  job, result, heartbeat, bye, job_filename,
}
use exposure.Protocol.Equality.{answers}
use exposure.Server.State.{WorkerData, Server}
use exposure.Server.Dispatch.{
  Histograms, visit_histograms, visit_histogram_result, complete, visit_work_bye,
}
use exposure.Server.Answered.{complete-eq-ok}
use exposure.Server.Pending.{pending, held, pending-visit_work_bye}

pub not_ltb : (a b : ℕ) → ltb a b ≡ false → b ≤ a
not_ltb a b h = ground arith

abbrev pub is_for : Text → Job → Bool
is_for f j = text_eq f (job_filename j)

abbrev pub is_equalisation : Job → Bool
is_equalisation (histogram_job f) = false
is_equalisation (equalisation_job f m) = true

abbrev pub any_job : Job → Bool
any_job j = true

abbrev pub AreDistinct : List Text → Type 0
AreDistinct names = (f : Text) → count (text_eq f) names ≤ 1

-- Every name is that of one pending job or of one histogram, and all pending jobs are for histograms.
pub record IsBalanced (names : List Text) (p : Histograms) : Type 0 where
  pub kinds : pending is_equalisation p.server ≡ 0
  pub each :
      (f : Text)
      → pending (is_for f) p.server + count (text_eq f) (Map.keys p.results)
        ≡ count (text_eq f) names
  pub total : pending any_job p.server + length p.results ≡ length names

count-le-any : (t : Job → Bool) (js : List Job) → count t js ≤ count any_job js
count-le-any t [] = omega arith
count-le-any t (j ∷ js) = ground (arith, count-le-any t js)

held-le-any : (t : Job → Bool) (m : Map WorkerData) → held t m ≤ held any_job m
held-le-any t [] = omega arith
held-le-any t ((k, w) ∷ m) = omega (arith, count-le-any t w.work, held-le-any t m)

pub pending-le-any : (t : Job → Bool) (s : Server) → pending t s ≤ pending any_job s
pending-le-any t s = omega (arith, count-le-any t s.enqueued_work, held-le-any t s.worker_queues)

-- Only what is pending and what is recorded counts.
pub IsBalanced-same :
    (names : List Text) (p : Histograms) (s : Server)
    → ((t : Job → Bool) → pending t s ≡ pending t p.server)
    → IsBalanced names p
    → IsBalanced names (record p { server = s })
IsBalanced-same names p s same b = record {
  kinds = same is_equalisation ∙ b.kinds;
  each = λ f. omega (arith, same (is_for f), b.each f);
  total = omega (arith, same any_job, b.total);
}

pub answered_is_for :
    (f : Text) (h : List Float32) (j : Job)
    → answers (histogram_result f h) j ≡ true
    → j ≡ histogram_job f
answered_is_for f h (histogram_job g) e = ap histogram_job (text_eq_sound g f e)
answered_is_for f h (equalisation_job g m) e = cc

-- If one job for `f` leaves the pending ones, `f` has no histogram yet, since the name stands for one
-- job only.
pub unrecorded :
    (names : List Text) (p : Histograms) (s : Server) (f : Text)
    → AreDistinct names
    → ((t : Job → Bool) → pending t p.server ≡ count t (histogram_job f ∷ []) + pending t s)
    → IsBalanced names p
    → Map.find f p.results ≡ none
unrecorded names p s f distinct counts b = elim (Option-cases (Map.find f p.results)) [
  | inl absent ↦ absent
  | inr (v, there) ↦ absurd (
      ground (
        arith,
        counts (is_for f),
        text_eq_refl f,
        Map.count-keys_found f v p.results there,
        b.each f,
        distinct f,
      ))
]

-- Then the histogram of `f` is recorded.
recorded-IsBalanced :
    (names : List Text) (p : Histograms) (s : Server) (f : Text) (h : List Float32)
    → AreDistinct names
    → ((t : Job → Bool) → pending t p.server ≡ count t (histogram_job f ∷ []) + pending t s)
    → IsBalanced names p
    → IsBalanced names (record { server = s; results = Map.insert f h p.results })
recorded-IsBalanced names p s f h distinct counts b =
    let absent = unrecorded names p s f distinct counts b in
    rw (Map.insert_absent f h p.results absent) (record {
      kinds = ground (arith, counts is_equalisation, b.kinds);
      each = λ g.
          ground
            (arith, counts (is_for g), Map.count-keys-place (text_eq g) f h p.results, b.each g);
      total = ground (arith, counts any_job, Map.length-place f h p.results, b.total);
    })

module _ (worker f : Text) (h : List Float32) (p : Histograms) where
  pub visit_histogram_result_unknown :
      Map.find worker p.server.worker_queues ≡ none → visit_histogram_result worker f h p ≡ ok p
  unfolding visit_histogram_result
  visit_histogram_result_unknown e = rw (e, visit_histogram_result)

  pub visit_histogram_result_known :
      (w : WorkerData)
      → Map.find worker p.server.worker_queues ≡ some w
      → visit_histogram_result worker f h p ≡ (
          complete worker (histogram_result f h) w p.server >>= λ s.
          ok (record { server = s; results = Map.insert f h p.results }))
  unfolding visit_histogram_result
  visit_histogram_result_known w e = rw (e, visit_histogram_result)

pub visit_histogram_result-IsBalanced :
    (names : List Text) (worker f : Text) (h : List Float32) (p q : Histograms)
    → AreDistinct names
    → visit_histogram_result worker f h p ≡ ok q
    → IsBalanced names p
    → IsBalanced names q
visit_histogram_result-IsBalanced names worker f h p q distinct e b =
    elim (Option-cases (Map.find worker p.server.worker_queues)) [
      | inl absent ↦
          let same : p ≡ q = cc (visit_histogram_result_unknown worker f h p absent) in rw same at b
      | inr (w, found) ↦
          let (s, done, e') =
            >>=-eq-ok (complete worker (histogram_result f h) w p.server) _
              (sym (visit_histogram_result_known worker f h p w found) ∙ e) in
          let (j, hit, counts) =
            complete-eq-ok worker (histogram_result f h) w p.server s found done in
          let same : record { server = s; results = Map.insert f h p.results } ≡ q = cc in
          rw same at (
            recorded-IsBalanced names p s f h distinct (rw (answered_is_for f h j hit) at counts) b)
    ]

pub visit_histograms-IsBalanced :
    (names : List Text) (worker : Text) (c : Command) (p q : Histograms)
    → AreDistinct names
    → visit_histograms worker c p ≡ ok q
    → IsBalanced names p
    → IsBalanced names q
unfolding visit_histograms
visit_histograms-IsBalanced names worker (helo n) p q d e b = let same : p ≡ q = cc in rw same at b
visit_histograms-IsBalanced names worker ehlo p q d e b = let same : p ≡ q = cc in rw same at b
visit_histograms-IsBalanced names worker (job j) p q d e b = let same : p ≡ q = cc in rw same at b
visit_histograms-IsBalanced names worker (result (histogram_result f h)) p q d e b =
    visit_histogram_result-IsBalanced names worker f h p q d e b
visit_histograms-IsBalanced names worker (result (equalisation_result f t)) p q d e b =
    let same : p ≡ q = cc in rw same at b
visit_histograms-IsBalanced names worker (heartbeat t) p q d e b =
    let same : p ≡ q = cc in rw same at b
visit_histograms-IsBalanced names worker bye p q d e b =
    let (s, done, e') = >>=-eq-ok (visit_work_bye worker p.server) _ e in
    let same : record p { server = s } ≡ q = cc in
    rw same at (IsBalanced-same names p s (λ t. pending-visit_work_bye t worker p.server s done) b)
