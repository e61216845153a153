-- ===== src/Prodcon/System/Progress/Steps.antt =====
-- The steps that the threads of A2/prodcon.c can make, each where it stands.
use operating_systems_fa.Common.{
  Bool, Bool-cases, List, [], arith, false, inl, inr, length, none, refl, sym, true, ℕ, ℤ, ◌+◌, ◌<◌,
  ◌∷◌, ◌≡◌, ◌⊎◌,
}
use mathlib.Core.Path.{subst}
use operating_systems_fa.Common.Family.{find_below}
use operating_systems_fa.Tands.{fits}
use operating_systems_fa.Fifo.{fifo_full, fifo_empty}
use operating_systems_fa.Fifo.Holds.{Holds, enqueue-room}
use operating_systems_fa.Fifo.Works.{dequeue-front}
use operating_systems_fa.Prodcon.Input.{Command, check_input, rejected, sleep, work}
use operating_systems_fa.Prodcon.Threads.{
  Shared, Producer, Consumer, Produce, Consume, Signal, nobody, one,
}
use operating_systems_fa.Prodcon.System.{System, Step, producer_moves, consumer_moves}
use operating_systems_fa.Prodcon.System.Facts.{ProducerFact, ConsumerFact}
use operating_systems_fa.Prodcon.System.Deadlock.{IsSpurious}
use operating_systems_fa.Prodcon.System.Safety.{producer_inside, consumer_inside}

-- A thread can make a step.
abbrev pub Moves : ℕ → System → Type 0
Moves n s = (t : System) × (st : Step n s t) × ¬ IsSpurious st

-- A consumer is about to call `Trans` with work that it cannot multiply by 100000.
abbrev pub Overflows : ℕ → System → Type 0
Overflows n s = (i : ℕ) × (i < n) × (w : ℤ) × (s.consumer i ≡ Consumer.working w) × (fits w ≡ false)

-- The consumer has exited or sleeps.
pub data Rests (s : System) (i : ℕ) : Type 0 where
  rests_exited : s.consumer i ≡ Consumer.exited → Rests s i
  rests_asleep : s.consumer i ≡ Consumer.waiting → s.shared.asleep i ≡ true → Rests s i

pub data ProducerRests (s : System) : Type 0 where
  ended : s.producer ≡ Producer.finished → ProducerRests s
  failed :
      {line : List ℕ} {lines : List (List ℕ)}
      → s.producer ≡ Producer.reading
      → s.shared.input ≡ line ∷ lines
      → check_input line ≡ rejected
      → ProducerRests s
  sleeping :
      (k : ℤ) → s.producer ≡ Producer.waiting k → s.shared.asleep_producer ≡ true → ProducerRests s
  joining : s.producer ≡ Producer.joining → ProducerRests s

some-Signal : (n : ℕ) (asleep : ℕ → Bool) → (asleep' : ℕ → Bool) × Signal n asleep asleep'
some-Signal n asleep =
    elim (find_below {P = λ i. asleep i ≡ true} {Q = λ i. asleep i ≡ false} n
      (λ i lt. Bool-cases (asleep i))) [
        | inl (i, lt, at) ↦ (_, one i lt at)
        | inr none_waits ↦ (_, nobody none_waits)
      ]

module _ {n : ℕ} {s : System} {q : List ℤ} (holds : Holds s.shared.queue q) where
  module _ {i : ℕ} (lt : i < n) where
    consume :
        {m : Shared} {d c : Consumer} → s.consumer i ≡ d → Consume n i s.shared d m c → Moves n s
    consume {m} {c} at mv = (
      _,
      consumer_moves i lt (subst (λ e. Consume n i s.shared e m c) (sym at) mv),
      λ spurious. spurious,
    )

    take :
        (r : List ℤ)
        → Holds s.shared.queue r
        → s.consumer i ≡ Consumer.taking
        → 0 < length r
        → Moves n s
    take [] v at left = absurd (omega arith)
    take (x ∷ r) v at left = consume at (Consume.take (dequeue-front v))

    pub consumer_inside-Moves :
        (c : Consumer)
        → s.consumer i ≡ c
        → consumer_inside c ≡ true
        → ConsumerFact s.shared q (i + 1) c
        → Moves n s
    unfolding consumer_inside
    consumer_inside-Moves Consumer.testing at ins o =
        elim (Bool-cases (fifo_empty s.shared.queue)) [
          | inl e ↦ consume at (Consume.nothing e)
          | inr e ↦ consume at (Consume.something e)
        ]
    consumer_inside-Moves Consumer.found_empty at ins o = elim (Bool-cases s.shared.end_of_input) [
      | inl e ↦ consume at (Consume.over e)
      | inr e ↦ consume at (Consume.not_over e)
    ]
    consumer_inside-Moves Consumer.going_to_wait at ins o = consume at Consume.wait
    consumer_inside-Moves Consumer.taking at ins (own, left) = take q holds at left
    consumer_inside-Moves (Consumer.notifying w) at ins o = consume at Consume.notify
    consumer_inside-Moves (Consumer.unlocking w) at ins o = consume at Consume.unlock
    consumer_inside-Moves Consumer.leaving at ins o = consume at Consume.leave
    consumer_inside-Moves _ at ins o = absurd (cc)

    pub consumer_step :
        (c : Consumer)
        → s.consumer i ≡ c
        → s.shared.owner ≡ none
        → ConsumerFact s.shared q (i + 1) c
        → (Moves n s ⊎ Overflows n s) ⊎ Rests s i
    unfolding consumer_inside
    consumer_step Consumer.asking at free o = inl (inl (consume at Consume.ask))
    consumer_step Consumer.locking at free o = inl (inl (consume at (Consume.lock free)))
    consumer_step Consumer.waiting at free o = elim (Bool-cases (s.shared.asleep i)) [
      | inl a ↦ inr (rests_asleep at a)
      | inr a ↦ inl (inl (consume at (Consume.wake a free)))
    ]
    consumer_step (Consumer.working w) at free o = elim (Bool-cases (fits w)) [
      | inl can ↦ inl (inl (consume at (Consume.complete can)))
      | inr cannot ↦ inl (inr (i, lt, w, at, cannot))
    ]
    consumer_step Consumer.signalling at free o =
        let (asleep, signal) = some-Signal n s.shared.asleep in
        inl (inl (consume at (Consume.signal signal)))
    consumer_step Consumer.exited at free o = inr (rests_exited at)
    consumer_step c at free o = inl (inl (consumer_inside-Moves c at refl o))

  produce : {m : Shared} {d p : Producer} → s.producer ≡ d → Produce n s.shared d m p → Moves n s
  produce {m} {p} at mv =
      (_, producer_moves (subst (λ e. Produce n s.shared e m p) (sym at) mv), λ spurious. spurious)

  pub producer_inside-Moves :
      (p : Producer)
      → s.producer ≡ p
      → producer_inside p ≡ true
      → ProducerFact s.shared q p
      → Moves n s
  unfolding producer_inside
  producer_inside-Moves (Producer.testing k) at ins o =
      elim (Bool-cases (fifo_full s.shared.queue)) [
        | inl e ↦ produce at (Produce.wait e)
        | inr e ↦ produce at (Produce.room e)
      ]
  producer_inside-Moves (Producer.storing k) at ins (over, own, room) =
      produce at (Produce.store (enqueue-room holds k room))
  producer_inside-Moves Producer.notifying at ins o = produce at Produce.broadcast
  producer_inside-Moves Producer.unlocking at ins o = produce at Produce.unlock
  producer_inside-Moves _ at ins o = absurd (cc)

  read :
      (input : List (List ℕ))
      → s.producer ≡ Producer.reading
      → s.shared.input ≡ input
      → Moves n s ⊎ ProducerRests s
  read [] at e = inl (produce at (Produce.end_of_file e))
  read (line ∷ lines) at e = carry_out (check_input line) refl
    where
      carry_out : (c : Command) → check_input line ≡ c → Moves n s ⊎ ProducerRests s
      carry_out rejected f = inr (failed at e f)
      carry_out (sleep k) f = inl (produce at (Produce.read_sleep e f))
      carry_out (work k) f = inl (produce at (Produce.read_work e f))

  pub producer_step :
      (p : Producer)
      → s.producer ≡ p
      → s.shared.owner ≡ none
      → ProducerFact s.shared q p
      → Moves n s ⊎ ProducerRests s
  unfolding producer_inside
  producer_step Producer.reading at free o = read s.shared.input at refl
  producer_step (Producer.locking k) at free o = inl (produce at (Produce.lock free))
  producer_step (Producer.waiting k) at free o = elim (Bool-cases s.shared.asleep_producer) [
    | inl a ↦ inr (sleeping k at a)
    | inr a ↦ inl (produce at (Produce.wake a free))
  ]
  producer_step Producer.ending at free o = inl (produce at Produce.set_end)
  producer_step Producer.signalling at free o =
      let (asleep, signal) = some-Signal n s.shared.asleep in
      inl (produce at (Produce.signal signal))
  producer_step Producer.joining at free o = inr (joining at)
  producer_step Producer.finished at free o = inr (ended at)
  producer_step p at free o = inl (producer_inside-Moves p at refl o)
