-- ===== src/Fifo/Works.antt =====
-- A2/fifo.c: the queue of `int` work values of prodcon.c.
use operating_systems_fa.Common.{List, Option, [], arith, if◌then◌else◌, int_min, some, ℤ, ◌∷◌, ◌≡◌}
use operating_systems_fa.Fifo.{Fifo, fifo_empty, advance}
use operating_systems_fa.Fifo.Holds.{Holds, empty-test, advance-front, advanced}

-- INT_MIN stands for an empty queue.
abbrev pub fifo_empty_code : ℤ
fifo_empty_code = int_min

unfoldable pub dequeue : Fifo ℤ → Option (ℤ × Fifo ℤ)
unfolding fifo_empty advance
dequeue f = if fifo_empty f then some (fifo_empty_code, f) else advance f

pub dequeue-front :
    {f : Fifo ℤ} {x : ℤ} {xs : List ℤ} → Holds f (x ∷ xs) → dequeue f ≡ some (x, advanced f)
unfolding dequeue
dequeue-front v = ground (arith, empty-test v, advance-front v)

pub dequeue-empty : {f : Fifo ℤ} → Holds f [] → dequeue f ≡ some (fifo_empty_code, f)
unfolding dequeue
dequeue-empty v = ground (arith, empty-test v)
