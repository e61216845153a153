-- ===== src/Fifo/Transactions.antt =====
-- A3/fifo.c: the queue of transactions of server.c. `dequeue` writes through `t` and says whether
-- there was an entry.
use operating_systems_fa.Common.{
  Bool, List, Option, [], arith, false, if◌then◌else◌, some, true, ℕ, ℤ, ◌>>=◌, ◌∷◌, ◌≡◌,
}
use operating_systems_fa.Fifo
use operating_systems_fa.Fifo.{Fifo, advance}
use operating_systems_fa.Fifo.Holds.{Holds, empty-test, advance-front, advanced}

-- `transaction`: its number, the file descriptor of the client, and the work value.
pub record Transaction : Type 0 where
  pub count : ℕ
  pub client_fd : ℕ
  pub work : ℤ

unfoldable pub fifo_init : (storage : List Transaction) → ℕ → Fifo Transaction
fifo_init storage size = Fifo.fifo_init storage size

unfoldable pub fifo_empty : Fifo Transaction → Bool
fifo_empty f = Fifo.fifo_empty f

unfoldable pub fifo_full : Fifo Transaction → Bool
fifo_full f = Fifo.fifo_full f

unfoldable pub enqueue : Transaction → Fifo Transaction → Option (Bool × Fifo Transaction)
enqueue entry f = Fifo.enqueue entry f

unfoldable pub dequeue :
    Transaction → Fifo Transaction → Option (Bool × Transaction × Fifo Transaction)
unfolding fifo_empty
dequeue t f =
    if fifo_empty f then some (false, t, f) else do (t', f') ← advance f; some (true, t', f')

pub dequeue-front :
    {f : Fifo Transaction} {x : Transaction} {xs : List Transaction} (t : Transaction)
    → Holds f (x ∷ xs)
    → dequeue t f ≡ some (true, x, advanced f)
unfolding dequeue
dequeue-front t v = ground (arith, empty-test v, advance-front v)

pub dequeue-empty :
    {f : Fifo Transaction} (t : Transaction) → Holds f [] → dequeue t f ≡ some (false, t, f)
unfolding dequeue
dequeue-empty t v = ground (arith, empty-test v)
