-- ===== src/Prodcon/System/Safety.antt =====
-- What A2/prodcon.c guarantees under every interleaving.
use operating_systems_fa.Common.{
  Bool, Bool-cases, List, [], ap, ap₂, arith, false, inl, inr, length, some, sym, true, ℕ, ℤ, ◌*◌,
  ◌++◌, ◌+◌, ◌<◌, ◌∙◌, ◌∷◌, ◌≡◌,
}
use operating_systems_fa.Fifo.{Fifo, enqueue}
use operating_systems_fa.Fifo.Holds.{Holds, enqueue-room, stored_in, advanced}
use operating_systems_fa.Fifo.Works.{dequeue, dequeue-front}
use operating_systems_fa.Prodcon.Input.{works}
use operating_systems_fa.Prodcon.Message
use operating_systems_fa.Prodcon.Message.{producer_id}
use operating_systems_fa.Common.Family.{total-eq-zero}
use operating_systems_fa.Prodcon.Threads.{Shared, Producer, Consumer}
use operating_systems_fa.Prodcon.System.{System, start, Reach}
use operating_systems_fa.Prodcon.System.Facts.{ProducerFact, ConsumerFact, Owns, owner-eq}
use operating_systems_fa.Prodcon.System.Tally.{pending, counter, in_flight}
use operating_systems_fa.Prodcon.System.Invariant.{Reach-Inv}
use mathlib.Core.List.{append-nil, append_assoc}
use mathlib.Core.Path.{subst}

-- Between its lock and its unlock of `count_mutex`, or its wait.
unfoldable pub producer_inside : Producer → Bool
producer_inside (Producer.testing k) = true
producer_inside (Producer.storing k) = true
producer_inside Producer.notifying = true
producer_inside Producer.unlocking = true
producer_inside _ = false

unfoldable pub consumer_inside : Consumer → Bool
consumer_inside Consumer.asking = false
consumer_inside Consumer.locking = false
consumer_inside Consumer.waiting = false
consumer_inside (Consumer.working w) = false
consumer_inside Consumer.signalling = false
consumer_inside Consumer.exited = false
consumer_inside _ = true

consumer_inside-Owns :
    (m : Shared) (q : List ℤ) (id : ℕ) (c : Consumer)
    → ConsumerFact m q id c
    → consumer_inside c ≡ true
    → Owns m id
unfolding consumer_inside
consumer_inside-Owns m q id Consumer.testing f e = f
consumer_inside-Owns m q id Consumer.found_empty (o, z) e = o
consumer_inside-Owns m q id Consumer.going_to_wait (o, z) e = o
consumer_inside-Owns m q id Consumer.taking (o, z) e = o
consumer_inside-Owns m q id (Consumer.notifying w) f e = f
consumer_inside-Owns m q id (Consumer.unlocking w) f e = f
consumer_inside-Owns m q id Consumer.leaving (o, z, over) e = o
consumer_inside-Owns m q id _ f e = cc

producer_inside-Owns :
    (m : Shared) (q : List ℤ) (p : Producer)
    → ProducerFact m q p
    → producer_inside p ≡ true
    → Owns m producer_id
unfolding producer_inside
producer_inside-Owns m q (Producer.testing k) (f, o) e = o
producer_inside-Owns m q (Producer.storing k) (f, o, room) e = o
producer_inside-Owns m q Producer.notifying (f, o) e = o
producer_inside-Owns m q Producer.unlocking (f, o) e = o
producer_inside-Owns m q _ f e = cc

module _ {n : ℕ} (storage : List ℤ) (input : List (List ℕ)) {s : System} (pos_n : 0 < n)
    (two_each : length storage ≡ n * 2) (r : Reach n (start n storage input) s) where
  -- Two consumers are never inside their critical sections together, nor is a consumer together
  -- with the producer.
  pub mutual_exclusion :
      ((i j : ℕ)
        → consumer_inside (s.consumer i) ≡ true
        → consumer_inside (s.consumer j) ≡ true
        → i ≡ j)
      × ((i : ℕ) → consumer_inside (s.consumer i) ≡ true → producer_inside s.producer ≡ false)
  mutual_exclusion =
      let (q, inv) = Reach-Inv storage input pos_n two_each r in
      let owns = λ (i : ℕ) (e : consumer_inside (s.consumer i) ≡ true).
        consumer_inside-Owns s.shared q (i + 1) (s.consumer i) (inv.consumer_at i) e in
      (
        λ i j in_i in_j.
            omega (arith, owner-eq s.shared (i + 1) (j + 1) (owns i in_i) (owns j in_j)),
        λ i in_i. elim (Bool-cases (producer_inside s.producer)) [
          | inl inside ↦ absurd (
              omega (
                arith,
                owner-eq s.shared (i + 1) producer_id (owns i in_i)
                    (producer_inside-Owns s.shared q s.producer inv.producer_at inside),
              ))
          | inr outside ↦ outside
        ],
      )

  -- No work is lost, made up or overtaken: what the consumers have received, followed by what the
  -- queue holds and by the rest, is the work of the input in its order.
  pub received_in_order :
      (q rest : List ℤ) × Holds s.shared.queue q × (s.shared.received ++ (q ++ rest) ≡ works input)
  received_in_order =
      let (q, inv) = Reach-Inv storage input pos_n two_each r in
      let rest = pending s.producer ++ works s.shared.input in
      (
        q,
        rest,
        inv.holds,
        sym (append_assoc s.shared.received q rest)
            ∙ ap (λ l. l ++ rest) (sym inv.order)
            ∙ inv.plan,
      )

  -- A producer that has seen room in the queue stores its work, and a consumer that has seen work
  -- gets it: neither the full nor the empty case of fifo.c occurs, and no access is out of range.
  pub store_and_take_succeed :
      ((k : ℤ)
        → s.producer ≡ Producer.storing k
        → (f : Fifo ℤ) × (enqueue k s.shared.queue ≡ some (true, f)))
      × ((i : ℕ)
          → s.consumer i ≡ Consumer.taking
          → (w : ℤ) × (rest : List ℤ) × (f : Fifo ℤ) × (dequeue s.shared.queue ≡ some (w, f))
            × Holds s.shared.queue (w ∷ rest))
  store_and_take_succeed =
      let (q, inv) = Reach-Inv storage input pos_n two_each r in
      (
        λ k at.
            let (f, o, room) = subst (ProducerFact s.shared q) at inv.producer_at in
            (stored_in s.shared.queue k, enqueue-room inv.holds k room),
        λ i at.
            let (o, left) = subst (ConsumerFact s.shared q (i + 1)) at (inv.consumer_at i) in
            taken q inv.holds left,
      )
    where
      taken :
          (q : List ℤ)
          → Holds s.shared.queue q
          → 0 < length q
          → (w : ℤ) × (rest : List ℤ) × (f : Fifo ℤ) × (dequeue s.shared.queue ≡ some (w, f))
            × Holds s.shared.queue (w ∷ rest)
      taken [] v left = absurd (omega arith)
      taken (w ∷ rest) v left = (w, rest, advanced s.shared.queue, dequeue-front v, v)

  -- At the end of `main` all work of the input has been received, in its order, and the counters
  -- for work handed out, received and completed all agree with it.
  pub all_work_done :
      s.producer ≡ Producer.finished
      → (s.shared.received ≡ works input)
        × (counter Message.work s.shared ≡ length (works input))
        × (counter Message.receive s.shared ≡ length (works input))
        × (counter Message.complete s.shared ≡ length (works input))
  unfolding works
  all_work_done done =
      let (q, inv) = Reach-Inv storage input pos_n two_each r in
      let exited = inv.all_joined done in
      let (none_left, _) = subst (ConsumerFact s.shared q 1) (exited 0 pos_n) (inv.consumer_at 0) in
      let (_, read) = subst (ProducerFact s.shared q) done inv.producer_at in
      let produced_all : s.shared.produced ≡ works input =
        sym (append-nil s.shared.produced)
        ∙ ap₂ (λ p l. s.shared.produced ++ (pending p ++ works l)) (sym done) (sym read)
        ∙ inv.plan in
      let received_all : s.shared.received ≡ works input =
        sym (append-nil s.shared.received)
        ∙ ap (λ l. s.shared.received ++ l) (sym none_left)
        ∙ sym inv.order
        ∙ produced_all in
      let idle = total-eq-zero in_flight n s.consumer (λ i below. ap in_flight (exited i below)) in
      (
        received_all,
        inv.works_counted ∙ ap length produced_all,
        inv.receives_counted ∙ ap length received_all,
        omega (arith, idle, inv.completes_counted, ap length received_all),
      )
