-- ===== src/Worker/Threads/Live.antt =====
-- The semaphore of a connection against its jobs, its threads and the bye, in src/worker.cpp.
use exposure.Base.{
  ℕ, zero, suc, ◌+◌, ◌-◌, ◌≤◌, ◌≡◌, ◌≢◌, refl, ap, Bool, inl, inr, ◌⊎◌, List, [], ◌∷◌, count,
  count-append, count-le-length, arith, if◌then◌else◌, replicate,
}
use exposure.Worker.Connection.{State, unconnected, connected, dying, transition}
use exposure.Worker.Threads.{
  Point, testing, popping, running, waiting, returned, not_yet, done, Threads, started, at, Step,
  stays, leaves, takes, finds_none, finishes, wakes, schedules, hears_bye, notifies, Reach, here,
  next, is_awake, may_wait,
}

-- While the connection lives, a job that is queued has a thread that is awake or a release of the
-- semaphore for one that is not. Once a bye has been notified, there is a release for every thread
-- that may still wait.
pub record IsLive (t : Threads) : Type 0 where
  pub seen : (t.state ≡ dying) ⊎ ((t.jobs ≡ []) ⊎ (1 ≤ t.semaphore + count is_awake t.points))
  pub woken : t.bye ≡ done → count may_wait t.points ≤ t.semaphore
  pub ends : (t.bye ≡ not_yet) ⊎ (t.state ≡ dying)

count_at :
    (p : Point → Bool) (before after : List Point) (x : Point)
    → count p (at before x after) ≡ count p before + ((if p x then 1 else 0) + count p after)
count_at p before after x = ground (arith, count-append p before (x ∷ after))

transition-dying : (s : State) → transition s dying ≡ dying
unfolding transition
transition-dying unconnected = refl
transition-dying connected = refl
transition-dying dying = refl

-- A thread that moves on without touching anything else.
module _ (t : Threads) (before after : List Point) (x y : Point)
    (e : t.points ≡ at before x after) where
  awake_move :
      count is_awake t.points + (if is_awake y then 1 else 0)
      ≡ count is_awake (at before y after) + (if is_awake x then 1 else 0)
  awake_move = omega (
    arith,
    ap (count is_awake) e,
    count_at is_awake before after x,
    count_at is_awake before after y,
  )

  may_wait_move :
      count may_wait t.points + (if may_wait y then 1 else 0)
      ≡ count may_wait (at before y after) + (if may_wait x then 1 else 0)
  may_wait_move = omega (
    arith,
    ap (count may_wait) e,
    count_at may_wait before after x,
    count_at may_wait before after y,
  )

Step-IsLive : {t u : Threads} → Step t u → IsLive t → IsLive u
Step-IsLive {t} (stays before after e s q) l =
    let a = awake_move t before after testing popping e in
    let m = may_wait_move t before after testing popping e in
    rw q (record {
      seen = ground (arith, a, l.seen);
      woken = λ d. absurd (ground (arith, l.ends));
      ends = l.ends;
    })
Step-IsLive {t} (leaves before after e s q) l =
    let m = may_wait_move t before after testing returned e in
    rw q (record { seen = inl s; woken = λ d. omega (arith, m, l.woken d); ends = l.ends })
Step-IsLive {t} (takes before after j rest e pop q) l =
    let c = count_at is_awake before after (running j) in
    let m = may_wait_move t before after popping (running j) e in
    rw q (record {
      seen = inr (inr (omega (arith, c)));
      woken = λ d. omega (arith, m, l.woken d);
      ends = l.ends;
    })
Step-IsLive {t} (finds_none before after e empty q) l =
    let m = may_wait_move t before after popping waiting e in
    rw q
      (record { seen = inr (inl empty); woken = λ d. omega (arith, m, l.woken d); ends = l.ends })
Step-IsLive {t} (finishes before after j e q) l =
    let c = count_at is_awake before after popping in
    let m = may_wait_move t before after (running j) popping e in
    rw q (record {
      seen = inr (inr (omega (arith, c)));
      woken = λ d. omega (arith, m, l.woken d);
      ends = l.ends;
    })
Step-IsLive {t} (wakes before after n e sem q) l =
    let c = count_at is_awake before after testing in
    let m = may_wait_move t before after waiting testing e in
    rw q (record {
      seen = inr (inr (omega (arith, c)));
      woken = λ d. omega (arith, m, l.woken d, sem);
      ends = l.ends;
    })
Step-IsLive {t} (schedules j q) l = rw q (record {
  seen = inr (inr (omega arith));
  woken = λ d. omega (arith, l.woken d);
  ends = l.ends;
})
Step-IsLive {t} (hears_bye b q) l = rw q (record {
  seen = inl (transition-dying t.state);
  woken = λ d. cc d;
  ends = inr (transition-dying t.state);
})
Step-IsLive {t} (notifies b q) l =
    let d : t.state ≡ dying = ground (arith, l.ends) in
    rw q (record {
      seen = inl d;
      woken = λ _. omega (arith, count-le-length may_wait t.points);
      ends = inr d;
    })

Reach-IsLive : {s t : Threads} → IsLive s → Reach s t → IsLive t
Reach-IsLive l here = l
Reach-IsLive l (next r st) = Step-IsLive st (Reach-IsLive l r)

count_testing : (n : ℕ) → count may_wait (replicate n testing) ≡ 0
count_testing zero = refl
count_testing (suc n) = count_testing n

IsLive-started : (n : ℕ) → IsLive (started n)
IsLive-started n = record {
  seen = inr (inl refl);
  woken = λ d. omega (arith, count_testing n);
  ends = inl refl;
}

-- In every state that the threads reach, a thread that waits at the semaphore can go on, if the bye
-- has been notified, or if the connection lives, a job is queued, and no thread is awake to see it.
pub waiting_thread_wakes :
    (n : ℕ) (t : Threads) (before after : List Point)
    → Reach (started n) t
    → t.points ≡ at before waiting after
    → (t.bye ≡ done) ⊎ ((t.state ≢ dying) × (t.jobs ≢ []) × (count is_awake t.points ≡ 0))
    → (u : Threads) × Step t u × (u.points ≡ at before testing after)
waiting_thread_wakes n t before after r e why =
    let l = Reach-IsLive (IsLive-started n) r in
    let m = may_wait_move t before after waiting testing e in
    let released : t.semaphore ≡ suc (t.semaphore - 1) = elim why [
      | inl d ↦ omega (arith, l.woken d, m)
      | inr w ↦ ground (arith, l.seen, w.0, w.1, w.2)
    ] in
    (
      record t { points = at before testing after; semaphore = t.semaphore - 1 },
      wakes before after (t.semaphore - 1) e released refl,
      refl,
    )
