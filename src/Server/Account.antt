-- ===== src/Server/Account.antt =====
-- The account of jobs, results and images in the second phase, and how each message keeps it.
use exposure.Base.{
  ℕ, suc, ◌+◌, ◌≤◌, ◌≡◌, sym, ap, ◌∙◌, Bool, true, inl, inr, some, none, List, [], ◌∷◌, ◌++◌, count,
  arith, if◌then◌else◌, Option-cases, count-append,
}
use mathlib.Core.List.{map-append}
use exposure.Base.Text.{Text, text_eq, text_eq_sound}
use exposure.Base.Map
use exposure.Base.Outcome.{ok, ◌>>=◌, >>=-eq-ok}
use exposure.Protocol.Command.{
  Job, histogram_job, equalisation_job, histogram_result, equalisation_result, Command, helo, ehlo,
  job, result, heartbeat, bye, job_filename,
}
use exposure.Protocol.Equality.{answers}
use exposure.Server.State.{WorkerData, Server, Readings, send_heartbeats}
use exposure.Server.Dispatch.{
  Images, visit_images, visit_equalisation_result, visit_work_bye, complete,
}
use exposure.Server.Answered.{complete-eq-ok}
use exposure.Server.Pending.{pending, pending-visit_work_bye, pending-send_heartbeats}
use exposure.Server.Balance.{is_for, any_job}

-- Against the server `s` at the start of the phase: as many results were counted as jobs are no
-- longer pending, and for each of these there is an image of its file.
pub record IsAccounted (s : Server) (p : Images) : Type 0 where
  pub counted : pending any_job p.server + p.equalised_count ≡ pending any_job s
  pub images :
      (f : Text)
      → pending (is_for f) s ≤ pending (is_for f) p.server + count (text_eq f) (Map.keys p.written)

pub IsAccounted-same :
    (s : Server) (p : Images) (t : Server)
    → ((c : Job → Bool) → pending c t ≡ pending c p.server)
    → IsAccounted s p
    → IsAccounted s (record p { server = t })
IsAccounted-same s p t same a = record {
  counted = omega (arith, same any_job, a.counted);
  images = λ f. omega (arith, same (is_for f), a.images f);
}

count-written :
    (f g : Text) (t : List ℕ) (written : List (Text × List ℕ))
    → count (text_eq g) (Map.keys (written ++ (f, t) ∷ []))
      ≡ count (text_eq g) (Map.keys written) + (if text_eq g f then 1 else 0)
count-written f g t written =
    ap (count (text_eq g)) (map-append (λ (e : Text × List ℕ). e.0) written ((f, t) ∷ []))
    ∙ count-append (text_eq g) (Map.keys written) (f ∷ [])

answered_name :
    (f : Text) (t : List ℕ) (j : Job)
    → answers (equalisation_result f t) j ≡ true
    → job_filename j ≡ f
answered_name f t (histogram_job g) e = cc
answered_name f t (equalisation_job g m) e = text_eq_sound g f e

-- The image of a worker that is not registered is written, and not counted.
more_images :
    (s : Server) (p : Images) (f : Text) (t : List ℕ)
    → IsAccounted s p
    → IsAccounted s (record p { written = p.written ++ (f, t) ∷ [] })
more_images s p f t a = record {
  counted = a.counted;
  images = λ g. omega (arith, count-written f g t p.written, a.images g);
}

finished-IsAccounted :
    (s u : Server) (p : Images) (f : Text) (t : List ℕ) (j : Job)
    → job_filename j ≡ f
    → ((c : Job → Bool) → pending c p.server ≡ count c (j ∷ []) + pending c u)
    → IsAccounted s p
    → IsAccounted s (record {
      server = u;
      equalised_count = suc p.equalised_count;
      written = p.written ++ (f, t) ∷ [];
    })
finished-IsAccounted s u p f t j named counts a = record {
  counted = omega (arith, counts any_job, a.counted);
  images = λ g.
      let same : (if text_eq g f then 1 else 0) ≡ count (is_for g) (j ∷ []) = rw named in
      omega (arith, same, count-written f g t p.written, counts (is_for g), a.images g);
}

module _ (worker f : Text) (t : List ℕ) (p : Images) where
  pub visit_equalisation_result_unknown :
      Map.find worker p.server.worker_queues ≡ none
      → visit_equalisation_result worker f t p
        ≡ ok (record p { written = p.written ++ (f, t) ∷ [] })
  unfolding visit_equalisation_result
  visit_equalisation_result_unknown e = rw (e, visit_equalisation_result)

  pub visit_equalisation_result_known :
      (w : WorkerData)
      → Map.find worker p.server.worker_queues ≡ some w
      → visit_equalisation_result worker f t p ≡ (
          complete worker (equalisation_result f t) w p.server >>= λ s. ok (record {
            server = s;
            equalised_count = suc p.equalised_count;
            written = p.written ++ (f, t) ∷ [];
          }))
  unfolding visit_equalisation_result
  visit_equalisation_result_known w e = rw (e, visit_equalisation_result)

visit_equalisation_result-IsAccounted :
    (s : Server) (worker f : Text) (t : List ℕ) (p q : Images)
    → visit_equalisation_result worker f t p ≡ ok q
    → IsAccounted s p
    → IsAccounted s q
visit_equalisation_result-IsAccounted s worker f t p q e a =
    elim (Option-cases (Map.find worker p.server.worker_queues)) [
      | inl absent ↦
          let same : record p { written = p.written ++ (f, t) ∷ [] } ≡ q =
            cc (visit_equalisation_result_unknown worker f t p absent) in
          rw same at (more_images s p f t a)
      | inr (w, found) ↦
          let (u, done, e') =
            >>=-eq-ok (complete worker (equalisation_result f t) w p.server) _
              (sym (visit_equalisation_result_known worker f t p w found) ∙ e) in
          let (j, hit, counts) =
            complete-eq-ok worker (equalisation_result f t) w p.server u found done in
          let same : record {
            server = u;
            equalised_count = suc p.equalised_count;
            written = p.written ++ (f, t) ∷ [];
          }
              ≡ q =
            cc in
          rw same at (finished-IsAccounted s u p f t j (answered_name f t j hit) counts a)
    ]

pub visit_images-IsAccounted :
    (s : Server) (worker : Text) (c : Command) (p q : Images)
    → visit_images worker c p ≡ ok q
    → IsAccounted s p
    → IsAccounted s q
unfolding visit_images
visit_images-IsAccounted s worker (result (equalisation_result f t)) p q e a =
    visit_equalisation_result-IsAccounted s worker f t p q e a
visit_images-IsAccounted s worker bye p q e a =
    let (u, done, e') = >>=-eq-ok (visit_work_bye worker p.server) _ e in
    let same : record p { server = u } ≡ q = cc in
    rw same at (IsAccounted-same s p u (λ c. pending-visit_work_bye c worker p.server u done) a)
visit_images-IsAccounted s worker (result (histogram_result f h)) p q e a =
    let same : p ≡ q = cc in rw same at a
visit_images-IsAccounted s worker (helo n) p q e a = let same : p ≡ q = cc in rw same at a
visit_images-IsAccounted s worker ehlo p q e a = let same : p ≡ q = cc in rw same at a
visit_images-IsAccounted s worker (job j) p q e a = let same : p ≡ q = cc in rw same at a
visit_images-IsAccounted s worker (heartbeat t) p q e a = let same : p ≡ q = cc in rw same at a

pub beat-IsAccounted :
    (s : Server) (clock : Text → Readings) (p : Images)
    → IsAccounted s p
    → IsAccounted s (record p { server = send_heartbeats clock p.server })
beat-IsAccounted s clock p = IsAccounted-same s p _ (λ c. pending-send_heartbeats c clock p.server)
