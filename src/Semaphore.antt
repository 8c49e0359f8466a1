-- ===== src/Semaphore.antt =====
-- src/semaphore.hpp and src/semaphore.cpp: `POSIXSemaphore`, as the value that POSIX keeps for it.
--
-- `sem_post` fails at SEM_VALUE_MAX, 2 ^ 31 - 1, and `release` does not look at its result; the value
-- is a number without a bound here, which is the same below that limit.
use exposure.Base.{ℕ, zero, suc, ◌+◌, ◌≡◌, Option, none, some, arith}

-- `sem_wait`: `none` while the caller is blocked.
unfoldable pub acquire : ℕ → Option ℕ
acquire zero = none
acquire (suc n) = some n

-- The loop of `release`: one `sem_post` for each round.
unfoldable pub release : ℕ → ℕ → ℕ
release zero n = n
release (suc diff) n = release diff (suc n)

pub release-eq-add : (diff n : ℕ) → release diff n ≡ n + diff
unfolding release
release-eq-add zero n = omega arith
release-eq-add (suc diff) n = omega (arith, release-eq-add diff (suc n))
