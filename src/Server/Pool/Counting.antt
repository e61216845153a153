-- ===== src/Server/Pool/Counting.antt =====
-- How many threads of the pool of A3/server.c have been woken and have not dequeued yet.
use operating_systems_fa.Common.{ap, arith, refl, suc, zero, ℕ, ◌+◌, ◌<◌, ◌≡◌, ◌≤◌}
use operating_systems_fa.Common.Family.{change, total, total-change, total-eq-zero}
use operating_systems_fa.Server.Pool.{Worker, ready, asleep, woken, garbage, handling}

abbrev pub is_woken : Worker → ℕ
is_woken woken = 1
is_woken _ = 0

unfoldable pub woken_count : ℕ → (ℕ → Worker) → ℕ
woken_count n worker = total is_woken n worker

pub woken_count-change :
    (n : ℕ) (worker : ℕ → Worker) (i : ℕ) (w : Worker) {before : Worker}
    → i < n
    → worker i ≡ before
    → woken_count n (change worker i w) + is_woken before ≡ woken_count n worker + is_woken w
unfolding woken_count
woken_count-change n worker i w lt at =
    omega (arith, total-change is_woken n worker i w lt, ap is_woken at)

is_woken-le : (w : Worker) → is_woken w ≤ 1
is_woken-le woken = omega arith
is_woken-le ready = omega arith
is_woken-le asleep = omega arith
is_woken-le garbage = omega arith
is_woken-le (handling t) = omega arith

pub woken_count-le : (n : ℕ) (worker : ℕ → Worker) → woken_count n worker ≤ n
unfolding woken_count total
woken_count-le zero worker = omega arith
woken_count-le (suc n) worker = omega (arith, is_woken-le (worker n), woken_count-le n worker)

pub no_woken : (n : ℕ) → woken_count n (λ _. ready) ≡ 0
unfolding woken_count
no_woken n = total-eq-zero is_woken n (λ _. ready) (λ i lt. refl)
