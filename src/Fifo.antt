-- ===== src/Fifo.antt =====
-- A2/fifo.c and A3/fifo.c: a bounded queue in a circular array. The two files differ in the type of
-- an entry (`int`, `transaction`), the parameter `A` here, and in how `dequeue` hands out its
-- result: `Fifo/Works.antt` and `Fifo/Transactions.antt` have the two versions.
-- `head`, `tail`, `count` and `size` are `int`s that never fall below 0 and stay within `size`,
-- so they are natural numbers. `none` is a fault: an access outside `entries`, or `% 0`.
pub mod Spec
pub mod Holds
pub mod Works
pub mod Transactions
pub mod Order
pub mod Replay
mod Examples
use operating_systems_fa.Common.{
  Bool, List, Option, false, get_elem?, if◌then◌else◌, mod_checked, some, true, write_at, ℕ, ◌+◌,
  ◌-◌, ◌==◌, ◌>>=◌,
}

pub record Fifo {ℓ} (A : Type ℓ) : Type ℓ where
  pub entries : List A
  pub head : ℕ
  pub tail : ℕ
  pub count : ℕ
  pub size : ℕ

module _ {ℓ} {A : Type ℓ} where
  -- `storage` is what `malloc` returns: `size` entries of no known content.
  unfoldable pub fifo_init : (storage : List A) → ℕ → Fifo A
  fifo_init storage size = record { entries = storage; head = 0; tail = 0; count = 0; size = size }

  unfoldable pub fifo_empty : Fifo A → Bool
  fifo_empty f = f.count == 0

  unfoldable pub fifo_full : Fifo A → Bool
  fifo_full f = f.count == f.size

  unfoldable pub enqueue : A → Fifo A → Option (Bool × Fifo A)
  unfolding fifo_full
  enqueue entry f = if fifo_full f then some (false, f) else do
    entries ← write_at f.entries f.tail entry
    tail ← mod_checked (f.tail + 1) f.size
    some (true, record f { entries = entries; count = f.count + 1; tail = tail })

  -- The part of `dequeue` behind its test for an empty queue, the same in both files.
  unfoldable pub advance : Fifo A → Option (A × Fifo A)
  advance f = do
    res ← get_elem? f.entries f.head
    head ← mod_checked (f.head + 1) f.size
    some (res, record f { head = head; count = f.count - 1 })
