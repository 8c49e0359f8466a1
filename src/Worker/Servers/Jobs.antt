-- ===== src/Worker/Servers/Jobs.antt =====
-- The loop `run_jobs` of src/worker.cpp, with and without persist.
use exposure.Base.{
  ℕ, zero, suc, ◌≡◌, refl, ap, ◌∙◌, Bool, true, false, not, ◌&&◌, Option, none, some, List, [], ◌∷◌,
  ◌++◌, map, length, is_empty, arith, if◌then◌else◌,
}
use exposure.Base.Outcome.{Outcome, ok, err, ◌>>=◌}
use exposure.Semaphore
use exposure.Base.Text.{Text, text_eq_refl}
use exposure.Base.Map
use exposure.Base.Map.{Map}
use exposure.Worker.Servers.Growing.{add_server-Grows}
use exposure.Worker.Servers.{
  ServerDetails, Worker, init, add_server, next_connection, pop_connection, Runner, RunnerEvent,
  found, turn, runner_event, run_events, run_jobs, is_serving,
}
use exposure.Worker.Servers.Turns.{IsCounted, served}

abbrev unended : Runner → Outcome (Option Runner)
unended q = ok none

-- The step, and then the same, is the bind of the whole.
then_same :
    (first : Outcome Runner) (rest : Runner → Outcome (Option Runner))
    (all : Runner → Outcome Runner)
    → ((q : Runner) → rest q ≡ (all q >>= unended))
    → (first >>= rest) ≡ (first >>= all >>= unended)
then_same (ok q) rest all h = h q
then_same (err e) rest all h = refl

goes_on :
    (test : Bool) (stop rest other : Outcome (Option Runner))
    → rest ≡ other
    → (if test && not true then stop else rest) ≡ other
goes_on true stop rest other h = h
goes_on false stop rest other h = h

-- With persist, run_jobs never returns, and does what the turns do one after the other.
pub run_jobs_persists :
    (es : List RunnerEvent) (r : Runner) → run_jobs true es r ≡ (run_events es r >>= λ q. ok none)
unfolding run_jobs run_events
run_jobs_persists [] r = refl
run_jobs_persists (found d ∷ es) r =
    then_same (runner_event (found d) r) (run_jobs true es) (run_events es) (run_jobs_persists es)
run_jobs_persists (turn ∷ es) r =
    then_same (runner_event turn r) _ (run_events es)
      (λ q. goes_on (is_serving r.serving) _ _ _ (run_jobs_persists es q))

abbrev pub AreNamed : List ServerDetails → Type 0
AreNamed [] = Unit {0}
AreNamed (d ∷ ds) = (is_empty d.name ≡ false) × AreNamed ds

-- A run that goes on from a state that is counted, with a server listed
record Reaches (es : List RunnerEvent) (k : Text) (e : ServerDetails) (r : Runner)
    (result : Outcome (Option Runner)) : Type 0 where
  worker : Worker
  same : result ≡ run_jobs false es (record { worker = worker; serving = r.serving })
  counted : IsCounted (record { worker = worker; serving = r.serving })
  listed : Map.find k worker.server_details ≡ some e

founds_run :
    (ds : List ServerDetails) (es : List RunnerEvent) (r : Runner) (k : Text) (e : ServerDetails)
    → AreNamed ds
    → IsCounted r
    → Map.find k r.worker.server_details ≡ some e
    → Reaches es k e r (run_jobs false (map found ds ++ es) r)
unfolding run_jobs runner_event
founds_run [] es r k e h c there = record {
  worker = r.worker;
  same = refl;
  counted = c;
  listed = there;
}
founds_run (d ∷ ds) es r k e h c there =
    let (v, added, grows) = add_server-Grows d r.worker h.0 in
    let next : Runner = record r { worker = v } in
    let released = grows.released in
    let counted : IsCounted next = omega arith in
    let run = founds_run ds es next k e h.1 counted (grows.kept k e there) in
    record {
      worker = run.worker;
      same = rw added run.same;
      counted = run.counted;
      listed = run.listed;
    }

abbrev runner : Map ServerDetails → ℕ → Option ServerDetails → Runner
runner m n serving = record {
  worker = record { server_details = m; connection_semaphore = n };
  serving = serving;
}

-- A turn of an idle worker that has a server begins to serve one.
begins :
    (m : Map ServerDetails) (n : ℕ) (k : Text) (e : ServerDetails)
    → IsCounted (runner m n none)
    → Map.find k m ≡ some e
    → (i : ℕ) × (f : ServerDetails) × (runner_event turn (runner m n none)
        ≡ ok (runner m i (some f)))
      × IsCounted (runner m i (some f))
unfolding Map.find runner_event next_connection Semaphore.acquire
begins [] n k e c h = cc
begins (f ∷ m) zero k e c h = absurd (omega arith)
begins (f ∷ m) (suc n) k e c h = (n, f.1, refl, omega arith)

-- A turn of a worker that serves one ends that.
ends :
    (m : Map ServerDetails) (n : ℕ) (k : Text) (e f : ServerDetails)
    → IsCounted (runner m n (some f))
    → Map.find k m ≡ some e
    → (q : Runner) × (runner_event turn (runner m n (some f)) ≡ ok q)
      × IsCounted q
      × (q.serving ≡ none)
unfolding Map.find runner_event pop_connection
ends [] n k e f c h = cc
ends (g ∷ m) n k e f c h = (runner m n none, refl, omega arith, refl)

add_first :
    (d : ServerDetails)
    → is_empty d.name ≡ false
    → add_server d init
      ≡ ok (record { server_details = (d.name, d) ∷ []; connection_semaphore = 1 })
unfolding add_server Map.find Map.insert Map.place Semaphore.release
add_first d h = rw h refl

find_only : (d : ServerDetails) → Map.find d.name ((d.name, d) ∷ []) ≡ some d
unfolding Map.find
find_only d = rw (text_eq_refl d.name) refl

begin_turn :
    (w : Worker) (es : List RunnerEvent) (p : Runner)
    → runner_event turn (record { worker = w; serving = none }) ≡ ok p
    → run_jobs false (turn ∷ es) (record { worker = w; serving = none }) ≡ run_jobs false es p
unfolding run_jobs
begin_turn w es p h = ap (λ o. o >>= run_jobs false es) h

end_turn :
    (w : Worker) (es : List RunnerEvent) (f : ServerDetails) (p : Runner)
    → runner_event turn (record { worker = w; serving = some f }) ≡ ok p
    → run_jobs false (turn ∷ es) (record { worker = w; serving = some f }) ≡ ok (some p)
unfolding run_jobs
end_turn w es f p h = ap (λ o. o >>= λ q. ok (some q)) h

add_turn :
    (d : ServerDetails) (es : List RunnerEvent)
    → is_empty d.name ≡ false
    → run_jobs false (found d ∷ es) (record { worker = init; serving = none })
      ≡ run_jobs false es (runner ((d.name, d) ∷ []) 1 none)
unfolding run_jobs runner_event
add_turn d es h = rw (add_first d h)

unserved :
    (q : Runner)
    → IsCounted q
    → q.serving ≡ none
    → length q.worker.server_details ≡ q.worker.connection_semaphore
unserved q c none_served = let plain : served q.serving ≡ 0 = ap served none_served in omega arith

-- Without persist, run_jobs returns once one connection was served, however many servers with names
-- were found before it and during it; the semaphore then counts the servers that are left.
pub run_jobs_once :
    (d : ServerDetails) (ds later : List ServerDetails) (rest : List RunnerEvent)
    → AreNamed (d ∷ ds)
    → AreNamed later
    → (q : Runner) × (run_jobs false
          (map found (d ∷ ds) ++ (turn ∷ (map found later ++ (turn ∷ rest))))
          (record { worker = init; serving = none })
        ≡ ok (some q))
      × (q.serving ≡ none)
      × (length q.worker.server_details ≡ q.worker.connection_semaphore)
run_jobs_once d ds later rest h k =
    let last = turn ∷ rest in
    let one = runner ((d.name, d) ∷ []) 1 none in
    let before =
      founds_run ds (turn ∷ (map found later ++ last)) one d.name d h.1 refl (find_only d) in
    let w = before.worker in
    let (i, f, begun, c) =
      begins w.server_details w.connection_semaphore d.name d before.counted before.listed in
    let during =
      founds_run later last (runner w.server_details i (some f)) d.name d k c before.listed in
    let v = during.worker in
    let (q, ended, c', over) =
      ends v.server_details v.connection_semaphore d.name d f during.counted during.listed in
    (
      q,
      add_turn d _ h.0
          ∙ before.same
          ∙ begin_turn w _ _ begun
          ∙ during.same
          ∙ end_turn v rest f q ended,
      over,
      unserved q c' over,
    )
