-- ===== src/Fifo/Examples.antt =====
-- Tests of the queue, and its theorems at concrete arrays.
use operating_systems_fa.Common.{List, [], arith, false, none, pos, refl, some, true, ℕ, ◌∷◌, ◌≡◌}
use operating_systems_fa.Fifo.{Fifo, enqueue, fifo_empty, advance}
use operating_systems_fa.Fifo.Holds.{Holds}
use operating_systems_fa.Fifo.Transactions.{dequeue}
use operating_systems_fa.Fifo.Spec
use operating_systems_fa.Fifo.Spec.{Op, put, get, stored, taken}
use operating_systems_fa.Fifo.Transactions.{Transaction}
use operating_systems_fa.Fifo.Replay.{replay, replay-run}

abbrev tran : ℕ → Transaction
tran n = record { count = n; client_fd = 4; work = pos n }

-- Two entries that go round the end of an array of three.
abbrev wrapped : Fifo Transaction
wrapped = record {
  entries = tran 2 ∷ tran 9 ∷ tran 1 ∷ [];
  head = 2;
  tail = 1;
  count = 2;
  size = 3;
}

wrapped-Holds : Holds wrapped (tran 1 ∷ tran 2 ∷ [])
wrapped-Holds = record {
  storage = refl;
  head_in = omega arith;
  fits = omega arith;
  counted = refl;
  tail_at = refl;
  window = (refl, (refl, tt));
}

abbrev script : List (Op Transaction)
script = put (tran 3) ∷ put (tran 4) ∷ get ∷ get ∷ get ∷ get ∷ []

replay-wrapped :
    replay (tran 0) wrapped script
    ≡ some (
        stored true
        ∷ stored false
        ∷ taken (some (tran 1))
        ∷ taken (some (tran 2))
        ∷ taken (some (tran 3))
        ∷ taken none
        ∷ [])
unfolding replay enqueue dequeue fifo_empty advance
replay-wrapped = refl

replay-run_example :
    replay (tran 0) wrapped script ≡ some (Spec.run 3 (tran 1 ∷ tran 2 ∷ []) script)
replay-run_example = replay-run (tran 0) script wrapped-Holds
