-- ===== src/Fifo/Replay.antt =====
-- Clients of fifo.c: a sequence of calls on the array replies as the bounded queue does.
use operating_systems_fa.Common.{
  ==→eq, Bool-cases, List, Option, [], arith, if◌then◌else◌, inl, inr, length, none, refl, some,
  ◌<◌, ◌==◌, ◌>>=◌, ◌∷◌, ◌≡◌,
}
use operating_systems_fa.Fifo.{Fifo, enqueue}
use operating_systems_fa.Fifo.Holds.{
  Holds, enqueue-full, enqueue-room, stored_in-Holds, advanced-Holds,
}
use operating_systems_fa.Fifo.Spec
use operating_systems_fa.Fifo.Spec.{Op, put, get, Reply, stored, taken}
use operating_systems_fa.Fifo.Transactions.{Transaction, dequeue, dequeue-front, dequeue-empty}

-- The calls on the server's queue, into a transaction variable that holds `t` before.
unfoldable pub replay :
    Transaction → Fifo Transaction → List (Op Transaction) → Option (List (Reply Transaction))
replay t f [] = some []
replay t f (put x ∷ ops) = do
  (b, f') ← enqueue x f
  replies ← replay t f' ops
  some (stored b ∷ replies)
replay t f (get ∷ ops) = do
  (b, x, f') ← dequeue t f
  replies ← replay x f' ops
  some (taken (if b then some x else none) ∷ replies)

-- From an array that holds a queue no call faults, and the replies are the queue's.
pub replay-run :
    (t : Transaction) {f : Fifo Transaction} {xs : List Transaction} (ops : List (Op Transaction))
    → Holds f xs
    → replay t f ops ≡ some (Spec.run f.size xs ops)
unfolding replay Spec.run Spec.push Spec.pop
replay-run t [] v = refl
replay-run t {f} {xs} (put x ∷ ops) v = elim (Bool-cases (length xs == f.size)) [
  | inl full ↦ rw (full, enqueue-full v x (==→eq _ _ full), replay-run t ops v)
  | inr room ↦
      let free : length xs < f.size = ground (arith, v.fits) in
      rw (room, enqueue-room v x free, replay-run t ops (stored_in-Holds v x free))
]
replay-run t {xs = []} (get ∷ ops) v = rw (dequeue-empty t v, replay-run t ops v)
replay-run t {xs = x ∷ xs} (get ∷ ops) v =
    rw (dequeue-front t v, replay-run x ops (advanced-Holds v))
