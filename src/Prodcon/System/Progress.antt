-- ===== src/Prodcon/System/Progress.antt =====
-- Where A2/prodcon.c can come to rest: in every other state some thread can make a step.
pub mod Steps
use operating_systems_fa.Common.{
  List, ap, arith, false, inl, inr, length, none, refl, true, ℕ, ℤ, ◌*◌, ◌<◌, ◌∷◌, ◌≡◌, ◌⊎◌,
}
use mathlib.Core.Path.{subst}
use operating_systems_fa.Common.Family.{change, find_below}
use operating_systems_fa.Tands.{fits}
use operating_systems_fa.Fifo.{fifo_full}
use operating_systems_fa.Fifo.Holds.{Holds, full-test}
use operating_systems_fa.Prodcon.Input.{check_input, rejected}
use operating_systems_fa.Prodcon.Threads.{Shared, Producer, Consumer}
use operating_systems_fa.Prodcon.System.{
  System, start, Step, producer_moves, consumer_moves, joined, spurious, spurious_producer, Reach,
  here, later,
}
use operating_systems_fa.Prodcon.System.Facts.{ProducerFact, ConsumerFact}
use operating_systems_fa.Prodcon.System.Deadlock.{IsSpurious}
use operating_systems_fa.Prodcon.System.Invariant.{Inv, Reach-Inv}
use operating_systems_fa.Prodcon.System.Safety.{producer_inside, consumer_inside}
use operating_systems_fa.Prodcon.System.Awake.{
  outside-Holder, same_owner-Holder, Holder, free, by_producer, by_consumer, ProducerWaits,
  ConsumerWaits, NoWork, Produce-Holder, Produce-ProducerWaits, Produce-NoWork,
}
use operating_systems_fa.Prodcon.System.Awake.Consumes.{
  Consume-Holder, Consume-ProducerWaits, Consume-ConsumerWaits,
}
use operating_systems_fa.Prodcon.System.Progress.Steps.{
  ProducerRests, Moves, Overflows, Rests, rests_exited, rests_asleep, consumer_inside-Moves,
  consumer_step, ProducerRests, ended, failed, sleeping, joining, producer_inside-Moves,
  producer_step,
}

record Awake (n : ℕ) (s : System) : Type 0 where
  holder : Holder n s.shared s.producer s.consumer
  producer_waits : ProducerWaits n s.shared s.producer s.consumer
  consumer_waits : (j : ℕ) → ConsumerWaits s.shared s.producer j (s.consumer j)

-- The program has ended, it ends with an error on a line, a consumer calls `Trans` with work for
-- which it is undefined, or the program has hung: `main` waits for its
-- threads, each of them has exited or sleeps, and one sleeps.
pub data Rest (n : ℕ) (s : System) : Type 0 where
  done : s.producer ≡ Producer.finished → Rest n s
  error :
      {line : List ℕ} {lines : List (List ℕ)}
      → s.producer ≡ Producer.reading
      → s.shared.input ≡ line ∷ lines
      → check_input line ≡ rejected
      → Rest n s
  overflows :
      (i : ℕ) → i < n → (w : ℤ) → s.consumer i ≡ Consumer.working w → fits w ≡ false → Rest n s
  hung :
      s.producer ≡ Producer.joining
      → ((i : ℕ) → i < n → Rests s i)
      → (i : ℕ) → i < n
      → s.consumer i ≡ Consumer.waiting
      → s.shared.asleep i ≡ true
      → Rest n s

module _ {n : ℕ} {all : List ℤ} {q : List ℤ} where
  Step-Awake : {s t : System} → Step n s t → Inv n all s q → Awake n s → Awake n t
  unfolding producer_inside
  Step-Awake {s} (producer_moves mv) inv aw = record {
    holder = Produce-Holder q mv inv.producer_at aw.holder;
    producer_waits = Produce-ProducerWaits s.consumer mv;
    consumer_waits = λ j here a. Produce-NoWork j mv a (aw.consumer_waits j here);
  }
  Step-Awake {s} (consumer_moves i lt mv) inv aw = record {
    holder = Consume-Holder s.consumer q lt refl mv (inv.consumer_at i) aw.holder;
    producer_waits = Consume-ProducerWaits s.consumer lt refl mv aw.producer_waits;
    consumer_waits =
        Consume-ConsumerWaits s.consumer q mv (inv.consumer_at i) inv.holds aw.consumer_waits;
  }
  Step-Awake (joined at gone) inv aw = record {
    holder = outside-Holder refl (ap producer_inside at) aw.holder;
    producer_waits = λ k here a. absurd (cc);
    consumer_waits = λ j here a. elim (aw.consumer_waits j here a) [
      | inl z ↦ inl z
      | inr notifying ↦ absurd (cc)
    ];
  }
  Step-Awake (spurious i) inv aw = record {
    holder = same_owner-Holder refl aw.holder;
    producer_waits = aw.producer_waits;
    consumer_waits = λ j here a. aw.consumer_waits j here (ground arith);
  }
  Step-Awake spurious_producer inv aw = record {
    holder = same_owner-Holder refl aw.holder;
    producer_waits = λ k here a. absurd (cc);
    consumer_waits = aw.consumer_waits;
  }

Reach-Awake :
    {n : ℕ} (storage : List ℤ) (input : List (List ℕ)) {s : System}
    → 0 < n
    → length storage ≡ n * 2
    → Reach n (start n storage input) s
    → Awake n s
unfolding start
Reach-Awake storage input pos_n e here = record {
  holder = free refl;
  producer_waits = λ k at a. absurd (cc);
  consumer_waits = λ j at a. absurd (cc);
}
Reach-Awake storage input pos_n e (later r st) =
    let (q, inv) = Reach-Inv storage input pos_n e r in
    Step-Awake st inv (Reach-Awake storage input pos_n e r)

-- With the mutex free and the producer at rest.
module _ {n : ℕ} {all : List ℤ} {q : List ℤ} {s : System} (inv : Inv n all s q) (aw : Awake n s)
    (pos_n : 0 < n) where
  all_rest : s.shared.owner ≡ none → (Moves n s ⊎ Overflows n s) ⊎ ((i : ℕ) → i < n → Rests s i)
  all_rest is_free =
      elim (find_below {P = λ i. Moves n s ⊎ Overflows n s} {Q = Rests s} n
        (λ i lt. consumer_step inv.holds lt (s.consumer i) refl is_free (inv.consumer_at i))) [
          | inl (i, lt, found) ↦ inl found
          | inr rest ↦ inr rest
        ]

  -- A producer that sleeps is woken: not all consumers rest.
  producer_woken :
      (k : ℤ)
      → s.producer ≡ Producer.waiting k
      → s.shared.asleep_producer ≡ true
      → ((i : ℕ) → i < n → Rests s i)
      → ⊥
  producer_woken k at a rest = elim (aw.producer_waits k at a) [
    | inl full ↦ elim (rest 0 pos_n) [
      | rests_exited e ↦
          let not_over = subst (ProducerFact s.shared q) at inv.producer_at in
          let (empty, over) = subst (ConsumerFact s.shared q 1) e (inv.consumer_at 0) in absurd (cc)
      | rests_asleep e sleeps ↦ elim (aw.consumer_waits 0 e sleeps) [
        | inl z ↦ ground (arith, full, z, full-test inv.holds, inv.holds.counted, inv.holds.head_in)
        | inr notifying ↦ absurd (cc)
      ]
    ]
    | inr (i, lt, w, notifies) ↦ elim (rest i lt) [
      | rests_exited e ↦ absurd (cc)
      | rests_asleep e sleeps ↦ absurd (cc)
    ]
  ]

  joins : s.producer ≡ Producer.joining → ((i : ℕ) → i < n → Rests s i) → Moves n s ⊎ Rest n s
  joins at rest =
      elim (find_below {P = λ i. (s.consumer i ≡ Consumer.waiting) × (s.shared.asleep i ≡ true)}
        {Q = λ i. s.consumer i ≡ Consumer.exited} n (λ i lt. asleep_or_exited i (rest i lt))) [
          | inl (i, lt, (waits, sleeps)) ↦ inr (hung at rest i lt waits sleeps)
          | inr gone ↦ inl (_, joined at gone, λ spurious. spurious)
        ]
    where
      asleep_or_exited :
          (i : ℕ)
          → Rests s i
          → ((s.consumer i ≡ Consumer.waiting) × (s.shared.asleep i ≡ true))
            ⊎ (s.consumer i ≡ Consumer.exited)
      asleep_or_exited i (rests_exited e) = inr e
      asleep_or_exited i (rests_asleep e sleeps) = inl (e, sleeps)

  producer-Rest : ((i : ℕ) → i < n → Rests s i) → ProducerRests s → Moves n s ⊎ Rest n s
  producer-Rest rest (ended e) = inr (done e)
  producer-Rest rest (failed at e f) = inr (error at e f)
  producer-Rest rest (sleeping k at a) = absurd (producer_woken k at a rest)
  producer-Rest rest (joining at) = joins at rest

  Rest-or_move : Moves n s ⊎ Rest n s
  Rest-or_move = elim aw.holder [
    | by_producer own inside ↦
        inl (producer_inside-Moves inv.holds s.producer refl inside inv.producer_at)
    | by_consumer i lt own inside ↦
        inl (consumer_inside-Moves inv.holds lt (s.consumer i) refl inside (inv.consumer_at i))
    | free is_free ↦ elim (all_rest is_free) [
      | inl (inl moves) ↦ inl moves
      | inl (inr (i, lt, w, at, cannot)) ↦ inr (overflows i lt w at cannot)
      | inr rest ↦ elim (producer_step inv.holds s.producer refl is_free inv.producer_at) [
        | inl moves ↦ inl moves
        | inr rests ↦ producer-Rest rest rests
      ]
    ]
  ]

-- In every reachable state a thread can make a step, or the program is at one of four ends: it has
-- ended, a line of the input ends it with an error, a consumer calls `Trans` with work whose
-- product with 100000 overflows, which is undefined, or `main` waits for threads of which one at
-- least sleeps in `pthread_cond_wait` and the others have exited or sleep, too. So a missed wakeup
-- at the end is the only way for it to hang.
pub progress :
    {n : ℕ} (storage : List ℤ) (input : List (List ℕ)) {s : System}
    → 0 < n
    → length storage ≡ n * 2
    → Reach n (start n storage input) s
    → Moves n s ⊎ Rest n s
progress storage input pos_n e r =
    let (q, inv) = Reach-Inv storage input pos_n e r in
    Rest-or_move inv (Reach-Awake storage input pos_n e r) pos_n
