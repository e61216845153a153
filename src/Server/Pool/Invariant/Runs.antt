-- ===== src/Server/Pool/Invariant/Runs.antt =====
-- The invariant of A3/server.c is true when the main loop begins, and kept by every step.
use operating_systems_fa.Common.{Bool, List, [], ap, arith, length, refl, sym, ℕ, ◌<◌, ◌≡◌}
use operating_systems_fa.Fifo
use operating_systems_fa.Fifo.{Fifo}
use operating_systems_fa.Fifo.Holds.{init-Holds}
use operating_systems_fa.Fifo.Transactions.{Transaction, fifo_init}
use operating_systems_fa.Server.{set_up}
use operating_systems_fa.Server.Table.{set_up-Table}
use operating_systems_fa.Server.Pool.{
  asleep, woken, selecting, finished, System, begin, Step, receives, accepts, stores,
  signals_nobody, signals, times_out, waits, wakes, takes, finds_nothing, handles, Reach, here,
  later,
}
use operating_systems_fa.Server.Pool.Counting.{no_woken}
use operating_systems_fa.Server.Pool.Invariant.{
  pending, Inv, receives-Inv, accepts-Inv, worker-Inv, main-Inv, signals-Inv, handles-Inv,
}
use operating_systems_fa.Server.Pool.Invariant.Queue.{stores-Inv, dequeues-Inv}

-- Every step keeps the invariant, for a queue that the step determines.
pub Step-Inv :
    {spurious : Bool} {n : ℕ} {s t : System} {q : List Transaction}
    → n < 100
    → Step spurious n s t
    → Inv spurious n s q
    → (r : List Transaction) × Inv spurious n t r
Step-Inv {q} few (receives i now bytes at _ _ _ e) inv = (q, receives-Inv inv i now bytes at e)
Step-Inv {q} few (accepts fd at e) inv = (q, accepts-Inv inv fd e)
Step-Inv few (stores t at e) inv = stores-Inv t inv few at e
Step-Inv {q} few (signals_nobody at _) inv =
    (q, main-Inv inv selecting (sym (ap pending at)) (omega arith))
Step-Inv {q} few (signals i lt due at) inv = (q, signals-Inv inv i lt due at)
Step-Inv {q} few (times_out at) inv = (q, main-Inv inv finished (sym (ap pending at)) (omega arith))
Step-Inv {q} few (waits i lt at) inv = (q, worker-Inv inv i asleep lt at (λ calm. omega arith))
Step-Inv {q} few (wakes i lt allowed at) inv =
    (q, worker-Inv inv i woken lt at (λ calm. absurd (cc)))
Step-Inv {q} few (takes i unset lt at e) inv = dequeues-Inv q i unset inv lt at e
Step-Inv {q} few (finds_nothing i unset lt at e) inv = dequeues-Inv q i unset inv lt at e
Step-Inv {q} few (handles i now t lt at e) inv = (q, handles-Inv i now t inv lt at e)

-- At the beginning there is no client and no transaction.
begin-Inv :
    (spurious : Bool) (n : ℕ) (storage : List Transaction) (server_fd : ℕ)
    → length storage ≡ 100
    → Inv spurious n (begin storage server_fd) []
unfolding begin set_up fifo_init Fifo.fifo_init
begin-Inv spurious n storage server_fd e = record {
  table = set_up-Table storage server_fd;
  holds = init-Holds storage 100 (omega arith) e;
  size = refl;
  order = refl;
  conserved = omega arith;
  enough = λ calm. omega (arith, no_woken n);
}

pub Reach-Inv :
    {spurious : Bool} {n : ℕ} (storage : List Transaction) (server_fd : ℕ) {s : System}
    → n < 100
    → length storage ≡ 100
    → Reach spurious n (begin storage server_fd) s
    → (q : List Transaction) × Inv spurious n s q
Reach-Inv {spurious} {n} storage server_fd few e here =
    ([], begin-Inv spurious n storage server_fd e)
Reach-Inv storage server_fd few e (later r st) =
    let (q, inv) = Reach-Inv storage server_fd few e r in Step-Inv few st inv
