-- ===== src/Prodcon/System/Awake.antt =====
-- Who holds `count_mutex` in A2/prodcon.c, and what a thread that waits waits for.
pub mod Consumes
use operating_systems_fa.Common.{
  Bool, List, arith, false, inl, inr, none, refl, true, ℕ, ℤ, ◌+◌, ◌<◌, ◌∙◌, ◌≡◌, ◌⊎◌,
}
use mathlib.Core.Path.{subst}
use operating_systems_fa.Common.Family.{change}
use operating_systems_fa.Fifo.{Fifo, fifo_full}
use operating_systems_fa.Fifo.Holds.{Holds}
use operating_systems_fa.Prodcon.Message.{producer_id}
use operating_systems_fa.Prodcon.Threads.{
  Shared, Producer, Consumer, Produce, Consume, Signal, nobody, one,
}
use operating_systems_fa.Prodcon.System.Facts.{Owns, ProducerFact, ConsumerFact}
use operating_systems_fa.Prodcon.System.Safety.{producer_inside, consumer_inside}
use operating_systems_fa.Prodcon.System.Termination.{change-ne, change_self}

-- The mutex is free, or the thread that holds it is inside its critical section.
pub data Holder (n : ℕ) (m : Shared) (p : Producer) (f : ℕ → Consumer) : Type 0 where
  free : m.owner ≡ none → Holder n m p f
  by_producer : Owns m producer_id → producer_inside p ≡ true → Holder n m p f
  by_consumer : (i : ℕ) → i < n → Owns m (i + 1) → consumer_inside (f i) ≡ true → Holder n m p f

-- The queue is full, or a consumer is about to wake the producer.
abbrev pub NoRoom : ℕ → Fifo ℤ → (ℕ → Consumer) → Type 0
NoRoom n g f = (fifo_full g ≡ true) ⊎ ((i : ℕ) × (i < n) × (w : ℤ) × (f i ≡ Consumer.notifying w))

-- The queue is empty, or the producer is about to wake all.
abbrev pub NoWork : Shared → Producer → Type 0
NoWork m p = (m.queue.count ≡ 0) ⊎ (p ≡ Producer.notifying)

-- Those that sleep have a reason.
abbrev pub ProducerWaits : ℕ → Shared → Producer → (ℕ → Consumer) → Type 0
ProducerWaits n m p f =
    (k : ℤ) → p ≡ Producer.waiting k → m.asleep_producer ≡ true → NoRoom n m.queue f

abbrev pub ConsumerWaits : Shared → Producer → ℕ → Consumer → Type 0
ConsumerWaits m p j c = c ≡ Consumer.waiting → m.asleep j ≡ true → NoWork m p

pub Signal-sleeps :
    {n : ℕ} {asleep asleep' : ℕ → Bool} (j : ℕ)
    → Signal n asleep asleep'
    → asleep' j ≡ true
    → asleep j ≡ true
Signal-sleeps j (nobody none_waits) a = a
Signal-sleeps j (one i lt at) a = ground arith

pub same_owner-Holder :
    {n : ℕ} {f : ℕ → Consumer} {m m' : Shared} {p : Producer}
    → m'.owner ≡ m.owner
    → Holder n m p f
    → Holder n m' p f
same_owner-Holder same (free e) = free (same ∙ e)
same_owner-Holder same (by_producer own ins) = by_producer (same ∙ own) ins
same_owner-Holder same (by_consumer i lt own ins) = by_consumer i lt (same ∙ own) ins

-- The producer's moves.
pub outside-Holder :
    {n : ℕ} {f : ℕ → Consumer} {m m' : Shared} {p p' : Producer}
    → m'.owner ≡ m.owner
    → producer_inside p ≡ false
    → Holder n m p f
    → Holder n m' p' f
outside-Holder same out (free e) = free (same ∙ e)
outside-Holder same out (by_producer own ins) = absurd (cc)
outside-Holder same out (by_consumer i lt own ins) = by_consumer i lt (same ∙ own) ins

pub Produce-Holder :
    {n : ℕ} {f : ℕ → Consumer} (q : List ℤ) {m m' : Shared} {p p' : Producer}
    → Produce n m p m' p'
    → ProducerFact m q p
    → Holder n m p f
    → Holder n m' p' f
unfolding producer_inside
Produce-Holder q (Produce.lock e) o h = by_producer refl refl
Produce-Holder q (Produce.wake a e) o h = by_producer refl refl
Produce-Holder q (Produce.wait e) o h = free refl
Produce-Holder q Produce.unlock o h = free refl
Produce-Holder q (Produce.room e) (over, own) h = by_producer own refl
Produce-Holder q (Produce.store e) (over, own, room) h = by_producer own refl
Produce-Holder q Produce.broadcast (over, own) h = by_producer own refl
Produce-Holder q (Produce.read_sleep e c) o h = outside-Holder refl refl h
Produce-Holder q (Produce.read_work e c) o h = outside-Holder refl refl h
Produce-Holder q (Produce.end_of_file e) o h = outside-Holder refl refl h
Produce-Holder q Produce.set_end o h = outside-Holder refl refl h
Produce-Holder q (Produce.signal s) o h = outside-Holder refl refl h

pub Produce-ProducerWaits :
    {n : ℕ} (f : ℕ → Consumer) {m m' : Shared} {p p' : Producer}
    → Produce n m p m' p'
    → ProducerWaits n m' p' f
Produce-ProducerWaits f (Produce.wait e) = λ k at a. inl e
Produce-ProducerWaits f (Produce.lock e) = λ k at a. absurd (cc)
Produce-ProducerWaits f _ = λ k at a. absurd (cc)

pub Produce-NoWork :
    {n : ℕ} (j : ℕ) {m m' : Shared} {p p' : Producer}
    → Produce n m p m' p'
    → m'.asleep j ≡ true
    → (m.asleep j ≡ true → NoWork m p)
    → NoWork m' p'
Produce-NoWork j (Produce.store e) a reason = inr refl
Produce-NoWork j Produce.broadcast a reason = absurd (cc)
Produce-NoWork j (Produce.signal s) a reason = elim (reason (Signal-sleeps j s a)) [
  | inl z ↦ inl z
  | inr at ↦ absurd (cc)
]
Produce-NoWork j _ a reason = elim (reason a) [ inl z ↦ inl z | inr at ↦ absurd (cc) ]
