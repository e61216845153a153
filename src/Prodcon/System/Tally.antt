-- ===== src/Prodcon/System/Tally.antt =====
-- What an action does to the counters, to the record of the work, and to the plan.
use operating_systems_fa.Common.{
  List, [], ap, arith, length, length-append, refl, sym, ℕ, ℤ, ◌++◌, ◌+◌, ◌∙◌, ◌∷◌, ◌≡◌, ◌≢◌,
}
use operating_systems_fa.Fifo.Holds.{Holds}
use mathlib.Core.List.{append_assoc}
use operating_systems_fa.Prodcon.Input.{check_input, works, sleep, work}
use operating_systems_fa.Prodcon.Message.{Message, print_message}
use operating_systems_fa.Prodcon.Threads.{Shared, Producer, Consumer, Produce, Consume}
use operating_systems_fa.Prodcon.System.Facts.{ConsumerFact}
use operating_systems_fa.Prodcon.System.Moves.{
  queue_after_produce, queue_after_consume, dequeue-inv,
}

abbrev pub counter : Message → Shared → ℕ
counter k m = m.output.msg_stats k

-- Work that has left the queue and is not complete.
abbrev pub in_flight : Consumer → ℕ
in_flight (Consumer.notifying w) = 1
in_flight (Consumer.unlocking w) = 1
in_flight (Consumer.working w) = 1
in_flight _ = 0

-- Work that the producer has read and not stored.
abbrev pub pending : Producer → List ℤ
pending (Producer.locking k) = k ∷ []
pending (Producer.testing k) = k ∷ []
pending (Producer.waiting k) = k ∷ []
pending (Producer.storing k) = k ∷ []
pending _ = []

abbrev pub planned : Shared → Producer → List ℤ
planned m p = m.produced ++ (pending p ++ works m.input)

works-sleep :
    (line : List ℕ) (lines : List (List ℕ)) {k : ℤ}
    → check_input line ≡ sleep k
    → works (line ∷ lines) ≡ works lines
unfolding works
works-sleep line lines e = rw (e, works)

works-work :
    (line : List ℕ) (lines : List (List ℕ)) {k : ℤ}
    → check_input line ≡ work k
    → works (line ∷ lines) ≡ k ∷ works lines
unfolding works
works-work line lines e = rw (e, works)

module _ {n : ℕ} where
  pub Produce-planned :
      {m m' : Shared} {p p' : Producer} → Produce n m p m' p' → planned m' p' ≡ planned m p
  Produce-planned {m} (Produce.store {k} e) = append_assoc m.produced (k ∷ []) (works m.input)
  Produce-planned {m} (Produce.read_sleep {line} {lines} e c) =
      ap (λ l. m.produced ++ l) (sym (works-sleep line lines c) ∙ ap works (sym e))
  Produce-planned {m} (Produce.read_work {line} {lines} e c) =
      ap (λ l. m.produced ++ l) (sym (works-work line lines c) ∙ ap works (sym e))
  Produce-planned _ = refl

  pub Produce-order :
      {m m' : Shared} {p p' : Producer} (mv : Produce n m p m' p') (q : List ℤ)
      → m.produced ≡ m.received ++ q
      → m'.produced ≡ m'.received ++ queue_after_produce mv q
  unfolding queue_after_produce
  Produce-order {m} (Produce.store {k} e) q o =
      ap (λ l. l ++ k ∷ []) o ∙ append_assoc m.received q (k ∷ [])
  Produce-order _ q o = o

  -- Only stored work is counted as work.
  pub Produce-tally :
      {m m' : Shared} {p p' : Producer}
      → Produce n m p m' p'
      → (counter Message.work m' + length m.produced ≡ counter Message.work m + length m'.produced)
        × (counter Message.receive m' ≡ counter Message.receive m)
        × (counter Message.complete m' ≡ counter Message.complete m)
        × (m'.received ≡ m.received)
  unfolding print_message
  Produce-tally {m} (Produce.store {k} e) =
      (omega (arith, length-append m.produced (k ∷ [])), refl, refl, refl)
  Produce-tally _ = (refl, refl, refl, refl)

module _ {n i : ℕ} where
  pub Consume-order :
      {m m' : Shared} {c c' : Consumer} (q : List ℤ) (mv : Consume n i m c m' c')
      → ConsumerFact m q (i + 1) c
      → Holds m.queue q
      → m.produced ≡ m.received ++ q
      → m'.produced ≡ m'.received ++ queue_after_consume mv q
  unfolding queue_after_consume
  Consume-order [] (Consume.take e) (own, left) v o = absurd (omega arith)
  Consume-order {m} (x ∷ q) (Consume.take {w} e) f v o =
      rw ((dequeue-inv v e).0) (o ∙ sym (append_assoc m.received (x ∷ []) q))
  Consume-order q _ f v o = o

  -- Received work is in flight until it is counted as complete.
  pub Consume-tally :
      {m m' : Shared} {c c' : Consumer}
      → Consume n i m c m' c'
      → (counter Message.work m' ≡ counter Message.work m)
        × (counter Message.receive m' + length m.received
            ≡ counter Message.receive m + length m'.received)
        × (counter Message.complete m' + in_flight c' + length m.received
            ≡ counter Message.complete m + in_flight c + length m'.received)
  unfolding print_message
  Consume-tally {m} (Consume.take {w} e) = (
    refl,
    omega (arith, length-append m.received (w ∷ [])),
    omega (arith, length-append m.received (w ∷ [])),
  )
  Consume-tally (Consume.complete can) = (refl, refl, omega arith)
  Consume-tally _ = (refl, refl, refl)

  pub Consume-ne-exited :
      {m m' : Shared} {c c' : Consumer} → Consume n i m c m' c' → c ≢ Consumer.exited
  Consume-ne-exited Consume.ask e = cc
  Consume-ne-exited _ e = cc

pub Produce-ne-finished :
    {n : ℕ} {m m' : Shared} {p p' : Producer} → Produce n m p m' p' → p' ≢ Producer.finished
Produce-ne-finished Produce.broadcast e = cc
Produce-ne-finished _ e = cc
