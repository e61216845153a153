-- ===== src/Prodcon/System/Invariant.antt =====
-- The invariant of A2/prodcon.c: true at the start and kept by every step.
use operating_systems_fa.Common.{
  ==→eq, Bool, Bool-cases, List, [], ap, ap₂, arith, false, inl, inr, length, refl, sym, ℕ, ℤ, ◌*◌,
  ◌++◌, ◌+◌, ◌<◌, ◌==◌, ◌∙◌, ◌≡◌, ◌≢◌,
}
use operating_systems_fa.Fifo.Holds.{Holds, init-Holds}
use operating_systems_fa.Prodcon.Input.{works}
use operating_systems_fa.Prodcon.Message
use operating_systems_fa.Prodcon.Message.{producer_id}
use operating_systems_fa.Common.Family.{change, total, total-change, total-eq-zero}
use operating_systems_fa.Prodcon.Threads.{Shared, Producer, Consumer, Produce, Consume}
use mathlib.Core.Path.{subst}
use operating_systems_fa.Prodcon.System.{
  System, start, Step, producer_moves, consumer_moves, joined, spurious, spurious_producer, Reach,
  here, later,
}
use operating_systems_fa.Prodcon.System.Facts.{
  ProducerFact, ConsumerFact, Spares, ConsumerFact-other, ProducerFact-other, leaves_mutex,
}
use operating_systems_fa.Prodcon.System.Moves.{
  queue_after_produce, queue_after_consume, Produce-Holds, Produce-ProducerFact, Produce-Spares,
  Consume-Holds, Consume-ConsumerFact, Consume-Spares, Consume-same,
}
use operating_systems_fa.Prodcon.System.Tally.{
  counter, in_flight, planned, Produce-planned, Produce-order, Produce-tally, Consume-order,
  Consume-tally, Consume-ne-exited, Produce-ne-finished, pending,
}

-- `q` is what the queue holds, `all` the work in the whole input.
pub record Inv (n : ℕ) (all : List ℤ) (s : System) (q : List ℤ) : Type 0 where
  pub holds : Holds s.shared.queue q
  pub order : s.shared.produced ≡ s.shared.received ++ q
  pub plan : planned s.shared s.producer ≡ all
  pub producer_at : ProducerFact s.shared q s.producer
  pub consumer_at : (i : ℕ) → ConsumerFact s.shared q (i + 1) (s.consumer i)
  pub works_counted : counter Message.work s.shared ≡ length s.shared.produced
  pub receives_counted : counter Message.receive s.shared ≡ length s.shared.received
  pub completes_counted :
      counter Message.complete s.shared + total in_flight n s.consumer ≡ length s.shared.received
  pub all_joined : s.producer ≡ Producer.finished → (i : ℕ) → i < n → s.consumer i ≡ Consumer.exited

-- At the start nothing has been produced.
start-Inv :
    (n : ℕ) (storage : List ℤ) (input : List (List ℕ))
    → 0 < n
    → length storage ≡ n * 2
    → Inv n (works input) (start n storage input) []
unfolding start
start-Inv n storage input pos_n e = record {
  holds = init-Holds storage (n * 2) (omega arith) e;
  order = refl;
  plan = refl;
  producer_at = refl;
  consumer_at = λ i. tt;
  works_counted = refl;
  receives_counted = refl;
  completes_counted =
      omega (arith, total-eq-zero in_flight n (λ _. Consumer.asking) (λ i below. refl));
  all_joined = λ e. cc;
}

module _ {n : ℕ} {all : List ℤ} {s : System} {q : List ℤ} (inv : Inv n all s q) where
  producer-Inv :
      {m : Shared} {p : Producer} (mv : Produce n s.shared s.producer m p)
      → Inv n all (record s { shared = m; producer = p }) (queue_after_produce mv q)
  producer-Inv mv =
      let (works_eq, receives_eq, completes_eq, received_eq) = Produce-tally mv in
      record {
        holds = Produce-Holds mv inv.producer_at inv.holds;
        order = Produce-order mv q inv.order;
        plan = Produce-planned mv ∙ inv.plan;
        producer_at = Produce-ProducerFact mv inv.producer_at inv.holds;
        consumer_at = λ i.
            ConsumerFact-other (Produce-Spares mv inv.producer_at) (i + 1) (s.consumer i)
              (omega arith) (inv.consumer_at i);
        works_counted = omega (arith, works_eq, inv.works_counted);
        receives_counted = receives_eq ∙ inv.receives_counted ∙ ap length (sym received_eq);
        completes_counted =
            omega (arith, completes_eq, inv.completes_counted, ap (λ l. length l) received_eq);
        all_joined = λ e. absurd (Produce-ne-finished mv e);
      }

  consumer_at-change :
      (i : ℕ) {m : Shared} {c : Consumer} (mv : Consume n i s.shared (s.consumer i) m c) (j : ℕ)
      → ConsumerFact m (queue_after_consume mv q) (j + 1) (change s.consumer i c j)
  consumer_at-change i mv j = elim (Bool-cases (j == i)) [
    | inl e ↦ rw e (rw (==→eq j i e) (Consume-ConsumerFact q mv (inv.consumer_at i) inv.holds))
    | inr e ↦
        let apart : j ≢ i = ground arith in
        rw e (
          ConsumerFact-other (Consume-Spares q mv (inv.consumer_at i)) (j + 1) (s.consumer j)
            (omega arith) (inv.consumer_at j))
  ]

  consumer-Inv :
      (i : ℕ) {m : Shared} {c : Consumer}
      → i < n
      → (mv : Consume n i s.shared (s.consumer i) m c)
      → Inv n all
          (record s { shared = m; consumer = change s.consumer i c })
          (queue_after_consume mv q)
  consumer-Inv i {m} {c} below mv =
      let (over_eq, input_eq, size_eq, produced_eq) =
        Consume-same q mv (inv.consumer_at i) inv.holds in
      let (works_eq, receives_eq, completes_eq) = Consume-tally mv in
      record {
        holds = Consume-Holds q mv (inv.consumer_at i) inv.holds;
        order = Consume-order q mv (inv.consumer_at i) inv.holds inv.order;
        plan = ap₂ (λ l k. l ++ (pending s.producer ++ works k)) produced_eq input_eq ∙ inv.plan;
        producer_at =
            ProducerFact-other (Consume-Spares q mv (inv.consumer_at i)) s.producer (omega arith)
              over_eq input_eq size_eq inv.producer_at;
        consumer_at = consumer_at-change i mv;
        works_counted = works_eq ∙ inv.works_counted ∙ ap length (sym produced_eq);
        receives_counted = omega (arith, receives_eq, inv.receives_counted);
        completes_counted = omega (
          arith,
          completes_eq,
          inv.completes_counted,
          total-change in_flight n s.consumer i c below,
        );
        all_joined = λ e. absurd (Consume-ne-exited mv (inv.all_joined e i below));
      }

  -- The steps that wake a sleeper, and the end of `main`, change nothing that `Inv` reads but the
  -- place of the producer.
  joined-Inv :
      s.producer ≡ Producer.joining
      → ((i : ℕ) → i < n → s.consumer i ≡ Consumer.exited)
      → Inv n all (record s { producer = Producer.finished }) q
  joined-Inv at exited = record {
    holds = inv.holds;
    order = inv.order;
    plan = ap (λ p. planned s.shared p) (sym at) ∙ inv.plan;
    producer_at = subst (ProducerFact s.shared q) at inv.producer_at;
    consumer_at = inv.consumer_at;
    works_counted = inv.works_counted;
    receives_counted = inv.receives_counted;
    completes_counted = inv.completes_counted;
    all_joined = λ e. exited;
  }

  -- Facts do not depend on who sleeps.
  asleep-Inv :
      (asleep : ℕ → Bool) (asleep_producer : Bool)
      → Inv n all
          (record s {
            shared = record s.shared { asleep = asleep; asleep_producer = asleep_producer };
          })
          q
  asleep-Inv asleep asleep_producer = record {
    holds = inv.holds;
    order = inv.order;
    plan = inv.plan;
    producer_at =
        ProducerFact-other (spares 1) s.producer (omega arith) refl refl refl inv.producer_at;
    consumer_at = λ i.
        ConsumerFact-other (spares producer_id) (i + 1) (s.consumer i) (omega arith)
          (inv.consumer_at i);
    works_counted = inv.works_counted;
    receives_counted = inv.receives_counted;
    completes_counted = inv.completes_counted;
    all_joined = inv.all_joined;
  }
    where
      after : Shared
      after = record s.shared { asleep = asleep; asleep_producer = asleep_producer }

      spares : (id : ℕ) → Spares id s.shared q after q
      spares id = leaves_mutex id {m = s.shared} {m' = after} q refl (λ over. over)

-- Every step keeps the invariant, for a queue that the step determines.
pub Step-Inv :
    {n : ℕ} {all : List ℤ} {s t : System} {q : List ℤ}
    → Step n s t
    → Inv n all s q
    → (r : List ℤ) × Inv n all t r
Step-Inv {q} (producer_moves mv) inv = (queue_after_produce mv q, producer-Inv inv mv)
Step-Inv {q} (consumer_moves i below mv) inv =
    (queue_after_consume mv q, consumer-Inv inv i below mv)
Step-Inv {q} (joined at exited) inv = (q, joined-Inv inv at exited)
Step-Inv {s} {q} (spurious i) inv =
    (q, asleep-Inv inv (change s.shared.asleep i false) s.shared.asleep_producer)
Step-Inv {s} {q} spurious_producer inv = (q, asleep-Inv inv s.shared.asleep false)

-- Every state that can be reached has the invariant, for the work of the whole input.
pub Reach-Inv :
    {n : ℕ} (storage : List ℤ) (input : List (List ℕ)) {s : System}
    → 0 < n
    → length storage ≡ n * 2
    → Reach n (start n storage input) s
    → (q : List ℤ) × Inv n (works input) s q
Reach-Inv {n} storage input pos_n e here = ([], start-Inv n storage input pos_n e)
Reach-Inv storage input pos_n e (later r st) =
    let (q, inv) = Reach-Inv storage input pos_n e r in Step-Inv st inv
