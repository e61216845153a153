-- ===== src/Prodcon/System/Termination/Bounded.antt =====
-- Every step of A2/prodcon.c but a wakeup without a signal takes from what is left to do.
use operating_systems_fa.Common.{
  Bool, List, [], ap, arith, false, length, refl, some, suc, true, zero, ℕ, ℤ, ◌*◌, ◌+◌, ◌<◌, ◌∷◌,
  ◌≡◌, ◌≢◌, ◌≤◌,
}
use operating_systems_fa.Common.Family.{change, total, total-replace}
use operating_systems_fa.Fifo.{Fifo, fifo_init}
use operating_systems_fa.Fifo.Holds.{Holds}
use operating_systems_fa.Fifo.Works.{dequeue}
use operating_systems_fa.Prodcon.Threads.{Shared, Producer, Consumer, Produce, Consume}
use operating_systems_fa.Prodcon.System.{
  System, start, Step, producer_moves, consumer_moves, joined, spurious, spurious_producer, Reach,
  here, later,
}
use operating_systems_fa.Prodcon.System.Deadlock.{IsSpurious}
use operating_systems_fa.Prodcon.System.Facts.{ConsumerFact, ProducerFact}
use operating_systems_fa.Prodcon.System.Invariant.{Inv, Reach-Inv}
use operating_systems_fa.Prodcon.System.Moves.{dequeue-inv, enqueue-inv}
use operating_systems_fa.Prodcon.System.Termination.{
  consumer_left, producer_left, states, shared_left, left_to_do, producer_woken-le, change-ne,
  change_self, Signal-le, broadcast-le,
}

-- A line of the input that has been read.
length-line :
    {A : Type 0} {input lines : List A} {line : A} (k : ℕ)
    → input ≡ line ∷ lines
    → length input * k ≡ length lines * k + k
length-line {lines} k e = rw e (omega arith)

module _ {n : ℕ} {q : List ℤ} (f : ℕ → Consumer) where
  Produce-le :
      {m m' : Shared} {p p' : Producer}
      → Produce n m p m' p'
      → ProducerFact m q p
      → Holds m.queue q
      → shared_left n m' p' + total consumer_left n (states m'.asleep f)
        < shared_left n m p + total consumer_left n (states m.asleep f)
  Produce-le {m} (Produce.read_sleep {lines} e c) o v =
      omega (arith, length-line {lines = lines} (15 + n * 4) e)
  Produce-le {m} (Produce.read_work {lines} e c) o v =
      omega (arith, length-line {lines = lines} (15 + n * 4) e)
  Produce-le (Produce.lock e) o v = omega arith
  Produce-le (Produce.wait e) o v = omega arith
  Produce-le (Produce.wake a e) o v = rw a (omega arith)
  Produce-le (Produce.room e) o v = omega arith
  Produce-le {m} (Produce.store {k} e) (over, own, room) v =
      omega (arith, ap (λ g. g.count) (enqueue-inv k v room e).1)
  Produce-le {m} Produce.broadcast o v = omega (arith, broadcast-le n m.asleep f)
  Produce-le Produce.unlock o v = omega arith
  Produce-le (Produce.end_of_file e) o v = omega arith
  Produce-le Produce.set_end o v = omega arith
  Produce-le (Produce.signal s) o v = omega (arith, Signal-le f s)

-- A consumer's move takes its own state out of the sum and puts the new one in.
module _ {n i : ℕ} (f : ℕ → Consumer) {d : Consumer} (lt : i < n) (at : f i ≡ d) where
  total-moved :
      (asleep asleep' : ℕ → Bool) (c : Consumer)
      → ((j : ℕ) → j ≢ i → asleep' j ≡ asleep j)
      → total consumer_left n (states asleep' (change f i c)) + consumer_left (asleep i, d)
        ≡ total consumer_left n (states asleep f) + consumer_left (asleep' i, c)
  total-moved asleep asleep' c same =
      let replaced =
        total-replace consumer_left n (states asleep f) (states asleep' (change f i c)) i lt
          (λ j ne. rw (same j ne, change-ne f i c j ne) refl) in
      let here : consumer_left (asleep' i, change f i c i) ≡ consumer_left (asleep' i, c) =
        ap (λ e. consumer_left (asleep' i, e)) (change_self f i c) in
      let there : consumer_left (asleep i, f i) ≡ consumer_left (asleep i, d) =
        ap (λ e. consumer_left (asleep i, e)) at in
      omega (arith, replaced, here, there)

  -- The same where nobody falls asleep or wakes.
  total-went :
      (asleep : ℕ → Bool) (c : Consumer)
      → total consumer_left n (states asleep (change f i c)) + consumer_left (asleep i, d)
        ≡ total consumer_left n (states asleep f) + consumer_left (asleep i, c)
  total-went asleep c = total-moved asleep asleep c (λ j ne. refl)

count-taken :
    {g g' : Fifo ℤ} {w : ℤ} (q : List ℤ)
    → Holds g q
    → 0 < length q
    → dequeue g ≡ some (w, g')
    → g'.count + 1 ≡ g.count
count-taken [] v left e = absurd (omega arith)
count-taken (x ∷ q) v left e = omega (arith, ap (λ h. h.count) (dequeue-inv v e).1, v.counted)

Consume-le :
    {n i : ℕ} (p : Producer) (f : ℕ → Consumer) {m m' : Shared} {d c : Consumer} (q : List ℤ)
    → i < n
    → f i ≡ d
    → Consume n i m d m' c
    → ConsumerFact m q (i + 1) d
    → Holds m.queue q
    → shared_left n m' p + total consumer_left n (states m'.asleep (change f i c))
      < shared_left n m p + total consumer_left n (states m.asleep f)
Consume-le {i} p f {m} q lt at Consume.ask o v =
    omega (arith, total-went f lt at m.asleep Consumer.locking)
Consume-le {i} p f {m} q lt at (Consume.lock free) o v =
    omega (arith, total-went f lt at m.asleep Consumer.testing)
Consume-le {i} p f {m} q lt at (Consume.nothing e) o v =
    omega (arith, total-went f lt at m.asleep Consumer.found_empty)
Consume-le {i} p f {m} q lt at (Consume.something e) o v =
    omega (arith, total-went f lt at m.asleep Consumer.taking)
Consume-le {i} p f {m} q lt at (Consume.over e) o v =
    omega (arith, total-went f lt at m.asleep Consumer.leaving)
Consume-le {i} p f {m} q lt at (Consume.not_over e) o v =
    omega (arith, total-went f lt at m.asleep Consumer.going_to_wait)
Consume-le {i} p f {m} q lt at Consume.wait o v =
    let asleep_now = change_self m.asleep i true in
    omega (
      arith,
      total-moved f lt at m.asleep (change m.asleep i true) Consumer.waiting
          (change-ne m.asleep i true),
      ap (λ b. consumer_left (b, Consumer.waiting)) asleep_now,
    )
Consume-le {i} p f {m} q lt at (Consume.wake awake free) o v = omega (
  arith,
  total-went f lt at m.asleep Consumer.testing,
  ap (λ b. consumer_left (b, Consumer.waiting)) awake,
)
Consume-le {i} p f {m} q lt at (Consume.take {w} e) (own, left) v =
    omega (arith, total-went f lt at m.asleep (Consumer.notifying w), count-taken q v left e)
Consume-le {n} p f {m} q lt at (Consume.notify {w}) o v = omega (
  arith,
  total-went f lt at m.asleep (Consumer.unlocking w),
  producer_woken-le n m.asleep_producer p,
)
Consume-le {i} p f {m} q lt at (Consume.unlock {w}) o v =
    omega (arith, total-went f lt at m.asleep (Consumer.working w))
Consume-le {i} p f {m} q lt at (Consume.complete can) o v =
    omega (arith, total-went f lt at m.asleep Consumer.asking)
Consume-le {i} p f {m} q lt at Consume.leave o v =
    omega (arith, total-went f lt at m.asleep Consumer.signalling)
Consume-le {i} p f {m} q lt at (Consume.signal s) o v =
    omega
      (arith, total-went f lt at m.asleep Consumer.exited, Signal-le (change f i Consumer.exited) s)

Step-le :
    {n : ℕ} {all : List ℤ} {s t : System} {q : List ℤ} (st : Step n s t)
    → ¬ IsSpurious st
    → Inv n all s q
    → left_to_do n t < left_to_do n s
Step-le {s} (producer_moves mv) awake inv = Produce-le s.consumer mv inv.producer_at inv.holds
Step-le {s} {q} (consumer_moves i lt mv) awake inv =
    Consume-le s.producer s.consumer q lt refl mv (inv.consumer_at i) inv.holds
Step-le {n} {s} (joined at exited) awake inv =
    omega (arith, ap (λ p. producer_left n s.shared.asleep_producer p) at)
Step-le (spurious i) awake inv = absurd (awake tt)
Step-le spurious_producer awake inv = absurd (awake tt)

-- `k` steps one after the other, none of them a wakeup without a signal.
pub data Run (n : ℕ) (s : System) : ℕ → System → Type 0 where
  stay : Run n s 0 s
  next :
      {k : ℕ} {t u : System} → Run n s k t → (st : Step n t u) → ¬ IsSpurious st → Run n s (suc k) u

Run-Reach : {n : ℕ} {s : System} {k : ℕ} {t : System} → Run n s k t → Reach n s t
Run-Reach stay = here
Run-Reach (next r st awake) = later (Run-Reach r) st

total-start : (n : ℕ) → total consumer_left n (states (λ _. false) (λ _. Consumer.asking)) ≡ n * 10
unfolding total
total-start zero = refl
total-start (suc n) = omega (arith, total-start n)

start-left :
    (n : ℕ) (storage : List ℤ) (input : List (List ℕ))
    → left_to_do n (start n storage input) ≡ length input * (15 + n * 4) + n * 10 + 8
unfolding start fifo_init
start-left n storage input = omega (arith, total-start n)

Run-le :
    {n : ℕ} (storage : List ℤ) (input : List (List ℕ)) {k : ℕ} {s : System}
    → 0 < n
    → length storage ≡ n * 2
    → Run n (start n storage input) k s
    → k + left_to_do n s ≤ length input * (15 + n * 4) + n * 10 + 8
Run-le {n} storage input pos_n e stay = omega (arith, start-left n storage input)
Run-le storage input pos_n e (next r st awake) =
    let (q, inv) = Reach-Inv storage input pos_n e (Run-Reach r) in
    omega (arith, Run-le storage input pos_n e r, Step-le st awake inv)

-- In whatever order the producer and the consumers move, a run from the start has at most
-- 15 + 4 * nthreads steps for each line of the input, 10 for each thread and 8, provided there is a
-- thread, the queue has its memory, and no wait ends without a signal.
pub Run-bounded :
    {n : ℕ} (storage : List ℤ) (input : List (List ℕ)) {k : ℕ} {s : System}
    → 0 < n
    → length storage ≡ n * 2
    → Run n (start n storage input) k s
    → k ≤ length input * (15 + n * 4) + n * 10 + 8
Run-bounded storage input pos_n e r = omega (arith, Run-le storage input pos_n e r)
