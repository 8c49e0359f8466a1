-- ===== src/Worker/Identity.antt =====
-- `generate_random_id` and the endpoints of `ServerConnection` in src/worker.cpp.
pub mod Distinct
use exposure.Base.{ℕ, zero, suc, List, [], ◌∷◌, ◌++◌}
use exposure.Base.Text.{Text, bytes}
use exposure.Base.Decimal.{to_string}
use exposure.Config.{worker_id_letter_count}
use exposure.Worker.Servers.{ServerDetails}

-- The loop, with the letters that the distribution draws.
unfoldable pub draw_letters : (rounds i : ℕ) → (ℕ → ℕ) → Text → Text
draw_letters zero i draw id = id
draw_letters (suc rounds) i draw id = draw_letters rounds (suc i) draw (id ++ draw i ∷ [])

unfoldable pub generate_random_id : (ℕ → ℕ) → Text
unfolding draw_letters
generate_random_id draw = draw_letters worker_id_letter_count 0 draw []

unfoldable pub work_endpoint : ServerDetails → Text
work_endpoint d = bytes "tcp://" ++ d.address ++ bytes ":" ++ to_string d.work_port

unfoldable pub communication_endpoint : ServerDetails → Text
communication_endpoint d =
    bytes "tcp://" ++ d.address ++ bytes ":" ++ to_string d.communication_port
