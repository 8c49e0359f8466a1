-- ===== src/Worker/Servers/Growing.antt =====
-- How `add_server` changes the servers of a worker.
use exposure.Base.{
  ℕ, ◌+◌, ◌≤◌, ◌≡◌, refl, ◌∙◌, false, inl, inr, some, is_empty, length, arith, Option-cases,
}
use exposure.Base.Text.{Text, text_eq_iff}
use exposure.Base.Map
use exposure.Base.Outcome.{ok}
use exposure.Semaphore
use exposure.Semaphore.{release-eq-add}
use exposure.Worker.Servers.{ServerDetails, Worker, add_server}

-- From one worker to another, at most so many servers are added, each with a release of the
-- semaphore, and those that were there stay as they were.
pub record Grows (most : ℕ) (w v : Worker) : Type 0 where
  pub released :
      length v.server_details + w.connection_semaphore
      ≡ length w.server_details + v.connection_semaphore
  pub kept :
      (k : Text) (d : ServerDetails)
      → Map.find k w.server_details ≡ some d
      → Map.find k v.server_details ≡ some d
  pub at_most : length v.server_details ≤ length w.server_details + most

pub Grows-same : (most : ℕ) (w : Worker) → Grows most w w
Grows-same most w = record { released = refl; kept = λ k d h. h; at_most = omega arith }

pub Grows-trans :
    (m n most : ℕ) (u w v : Worker) → m + n ≤ most → Grows m u w → Grows n w v → Grows most u v
Grows-trans m n most u w v h g k = record {
  released = omega (arith, g.released, k.released);
  kept = λ j d there. k.kept j d (g.kept j d there);
  at_most = omega (arith, g.at_most, k.at_most);
}

pub add_server-Grows :
    (d : ServerDetails) (w : Worker)
    → is_empty d.name ≡ false
    → (v : Worker) × (add_server d w ≡ ok v) × Grows 1 w v
unfolding add_server
add_server-Grows d w h = elim (Option-cases (Map.find d.name w.server_details)) [
  | inl new ↦ (
    record {
      server_details = Map.insert d.name d w.server_details;
      connection_semaphore = Semaphore.release 1 w.connection_semaphore;
    },
    rw (h, new),
    record {
      released = rw (Map.insert_absent d.name d w.server_details new) (
          omega (
            arith,
            Map.length-place d.name d w.server_details,
            release-eq-add 1 w.connection_semaphore,
          ));
      kept = λ k e there.
          Map.find-insert d.name k d w.server_details new
          ∙ ground (arith, new, there, text_eq_iff d.name k);
      at_most =
          rw (Map.insert_absent d.name d w.server_details new)
            (omega (arith, Map.length-place d.name d w.server_details));
    },
  )
  | inr (known, there) ↦ (w, rw (h, there), Grows-same 1 w)
]
