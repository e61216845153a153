-- ===== src/Prodcon/System/Termination.antt =====
-- A2/prodcon.c cannot run for ever on a finite input: what is left of a run, in steps, where every
-- wakeup is paid for by the signal that causes it.
pub mod Bounded
use operating_systems_fa.Common.{
  ==→eq, Bool, Bool-cases, ap, arith, false, inl, inr, length, refl, true, ℕ, ◌*◌, ◌+◌, ◌==◌, ◌≡◌,
  ◌≢◌, ◌≤◌,
}
use operating_systems_fa.Common.Family.{change, total, total-replace, total-le}
use operating_systems_fa.Fifo.{Fifo, fifo_full, enqueue}
use operating_systems_fa.Fifo.Holds.{Holds}
use operating_systems_fa.Prodcon.Threads.{
  Shared, Producer, Consumer, Produce, Consume, Signal, nobody, one,
}
use operating_systems_fa.Prodcon.System.Facts.{ConsumerFact}
use operating_systems_fa.Prodcon.System.Moves.{dequeue-inv}
use operating_systems_fa.Prodcon.System.{System}

-- What a consumer has left, the steps until its next wait or its exit. One that waits and has been
-- woken has 4 more than one that sleeps.
abbrev pub consumer_left : Bool × Consumer → ℕ
consumer_left (asleep, Consumer.asking) = 10
consumer_left (asleep, Consumer.locking) = 9
consumer_left (asleep, Consumer.testing) = 8
consumer_left (asleep, Consumer.found_empty) = 7
consumer_left (asleep, Consumer.going_to_wait) = 6
consumer_left (true, Consumer.waiting) = 5
consumer_left (false, Consumer.waiting) = 9
consumer_left (asleep, Consumer.taking) = 7
consumer_left (asleep, Consumer.notifying w) = 15
consumer_left (asleep, Consumer.unlocking w) = 12
consumer_left (asleep, Consumer.working w) = 11
consumer_left (asleep, Consumer.leaving) = 6
consumer_left (asleep, Consumer.signalling) = 5
consumer_left (asleep, Consumer.exited) = 0

-- The same for the producer, among `n` consumers, all of which it may wake.
abbrev pub producer_left : ℕ → Bool → Producer → ℕ
producer_left n asleep Producer.reading = 8
producer_left n asleep (Producer.locking k) = 22 + n * 4
producer_left n asleep (Producer.testing k) = 21 + n * 4
producer_left n true (Producer.waiting k) = 20 + n * 4
producer_left n false (Producer.waiting k) = 22 + n * 4
producer_left n asleep (Producer.storing k) = 20 + n * 4
producer_left n asleep Producer.notifying = 10 + n * 4
producer_left n asleep Producer.unlocking = 9
producer_left n asleep Producer.ending = 7
producer_left n asleep Producer.signalling = 6
producer_left n asleep Producer.joining = 1
producer_left n asleep Producer.finished = 0

abbrev pub states : (ℕ → Bool) → (ℕ → Consumer) → ℕ → Bool × Consumer
states asleep consumer i = (asleep i, consumer i)

-- What the threads do besides the consumers: a line of the input, and an entry of the queue, which
-- has still to be taken and worked on.
abbrev pub shared_left : ℕ → Shared → Producer → ℕ
shared_left n m p =
    length m.input * (15 + n * 4) + 9 * m.queue.count + producer_left n m.asleep_producer p

abbrev pub left_to_do : ℕ → System → ℕ
left_to_do n s =
    shared_left n s.shared s.producer + total consumer_left n (states s.shared.asleep s.consumer)

-- A wakeup costs at most 4.
woken-le : (asleep : Bool) (c : Consumer) → consumer_left (false, c) ≤ consumer_left (asleep, c) + 4
woken-le false c = omega arith
woken-le true Consumer.waiting = omega arith
woken-le true _ = omega arith

pub producer_woken-le :
    (n : ℕ) (asleep : Bool) (p : Producer) → producer_left n false p ≤ producer_left n asleep p + 2
producer_woken-le n false p = omega arith
producer_woken-le n true (Producer.waiting k) = omega arith
producer_woken-le n true _ = omega arith

pub change-ne : {A : Type 0} (f : ℕ → A) (i : ℕ) (a : A) (j : ℕ) → j ≢ i → change f i a j ≡ f j
change-ne f i a j ne = elim (Bool-cases (j == i)) [
  | inl e ↦ absurd (ne (==→eq j i e))
  | inr e ↦ rw e refl
]

pub change_self : {A : Type 0} (f : ℕ → A) (i : ℕ) (a : A) → change f i a i ≡ a
change_self f i a = ground arith

-- A signal wakes one at most, a broadcast all.
pub Signal-le :
    {n : ℕ} {asleep asleep' : ℕ → Bool} (consumer : ℕ → Consumer)
    → Signal n asleep asleep'
    → total consumer_left n (states asleep' consumer)
      ≤ total consumer_left n (states asleep consumer) + 4
Signal-le consumer (nobody none_waits) = omega arith
Signal-le {n} {asleep} consumer (one i lt at) =
    let replaced =
      total-replace consumer_left n (states asleep consumer)
        (states (change asleep i false) consumer) i lt
        (λ j ne. ap (λ b. consumer_left (b, consumer j)) (change-ne asleep i false j ne)) in
    let here : consumer_left (change asleep i false i, consumer i)
        ≡ consumer_left (false, consumer i) =
      ap (λ b. consumer_left (b, consumer i)) (change_self asleep i false) in
    omega (arith, replaced, here, woken-le (asleep i) (consumer i))

pub broadcast-le :
    (n : ℕ) (asleep : ℕ → Bool) (consumer : ℕ → Consumer)
    → total consumer_left n (states (λ _. false) consumer)
      ≤ total consumer_left n (states asleep consumer) + n * 4
broadcast-le n asleep consumer =
    total-le consumer_left n 4 (states asleep consumer) (states (λ _. false) consumer)
      (λ i. woken-le (asleep i) (consumer i))
