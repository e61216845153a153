-- ===== src/Prodcon/System/Awake/Consumes.antt =====
-- The moves of a consumer of A2/prodcon.c, from the state `d` to `c`: the mutex is held by a thread
-- inside its critical section, and who sleeps has a reason.
use operating_systems_fa.Common.{
  List, ap, arith, false, inl, inr, length, refl, sym, true, ℕ, ℕ_discrete, ℤ, ◌+◌, ◌<◌, ◌∙◌, ◌≡◌,
  ◌≢◌,
}
use operating_systems_fa.Common.Family.{change}
use operating_systems_fa.Fifo.{Fifo}
use operating_systems_fa.Fifo.Holds.{Holds}
use operating_systems_fa.Prodcon.Threads.{Shared, Producer, Consumer, Consume}
use operating_systems_fa.Prodcon.System.Facts.{Owns, ConsumerFact}
use operating_systems_fa.Prodcon.System.Safety.{consumer_inside}
use operating_systems_fa.Prodcon.System.Termination.{change-ne, change_self}
use operating_systems_fa.Prodcon.System.Awake.{
  Holder, free, by_producer, by_consumer, NoRoom, NoWork, ProducerWaits, ConsumerWaits,
  Signal-sleeps,
}

module _ {n i : ℕ} (f : ℕ → Consumer) {d : Consumer} (lt : i < n) (at : f i ≡ d) where
  stays_inside :
      {m : Shared} {p : Producer} (c : Consumer)
      → Owns m (i + 1)
      → consumer_inside c ≡ true
      → Holder n m p (change f i c)
  stays_inside c own ins = by_consumer i lt own (ap consumer_inside (change_self f i c) ∙ ins)

  stays_outside :
      {m m' : Shared} {p : Producer} (c : Consumer)
      → m'.owner ≡ m.owner
      → consumer_inside d ≡ false
      → Holder n m p f
      → Holder n m' p (change f i c)
  stays_outside c same out (free e) = free (same ∙ e)
  stays_outside c same out (by_producer own ins) = by_producer (same ∙ own) ins
  stays_outside c same out (by_consumer j lt_j own ins) =
      by_consumer j lt_j (same ∙ own) (ap consumer_inside (change-ne f i c j apart) ∙ ins)
    where
      apart : j ≢ i
      apart e =
          let here : consumer_inside d ≡ true = ap consumer_inside (sym at ∙ ap f (sym e)) ∙ ins in
          cc

  still-NoRoom :
      (g : Fifo ℤ) (c : Consumer)
      → ((w : ℤ) → d ≢ Consumer.notifying w)
      → NoRoom n g f
      → NoRoom n g (change f i c)
  still-NoRoom g c other (inl full) = inl full
  still-NoRoom g c other (inr (j, lt_j, w, e)) =
      inr (j, lt_j, w, change-ne f i c j (λ here. other w (sym at ∙ ap f (sym here) ∙ e)) ∙ e)

pub Consume-Holder :
    {n i : ℕ} (f : ℕ → Consumer) (q : List ℤ) {m m' : Shared} {p : Producer} {d c : Consumer}
    → i < n
    → f i ≡ d
    → Consume n i m d m' c
    → ConsumerFact m q (i + 1) d
    → Holder n m p f
    → Holder n m' p (change f i c)
unfolding consumer_inside
Consume-Holder f q lt at Consume.ask o h = stays_outside f lt at _ refl refl h
Consume-Holder f q lt at (Consume.complete can) o h = stays_outside f lt at _ refl refl h
Consume-Holder f q lt at (Consume.signal s) o h = stays_outside f lt at _ refl refl h
Consume-Holder f q lt at Consume.wait o h = free refl
Consume-Holder f q lt at Consume.unlock o h = free refl
Consume-Holder f q lt at Consume.leave o h = free refl
Consume-Holder f q lt at (Consume.lock e) o h = stays_inside f lt at _ refl refl
Consume-Holder f q lt at (Consume.wake a e) o h = stays_inside f lt at _ refl refl
Consume-Holder f q lt at (Consume.nothing e) o h = stays_inside f lt at _ o refl
Consume-Holder f q lt at (Consume.something e) o h = stays_inside f lt at _ o refl
Consume-Holder f q lt at (Consume.over e) (o, z) h = stays_inside f lt at _ o refl
Consume-Holder f q lt at (Consume.not_over e) (o, z) h = stays_inside f lt at _ o refl
Consume-Holder f q lt at (Consume.take e) (o, left) h = stays_inside f lt at _ o refl
Consume-Holder f q lt at Consume.notify o h = stays_inside f lt at _ o refl

pub Consume-ProducerWaits :
    {n i : ℕ} (f : ℕ → Consumer) {m m' : Shared} {p : Producer} {d c : Consumer}
    → i < n
    → f i ≡ d
    → Consume n i m d m' c
    → ProducerWaits n m p f
    → ProducerWaits n m' p (change f i c)
Consume-ProducerWaits {i} f lt at (Consume.take {w} e) waits =
    λ k here a. inr (i, lt, w, change_self f i (Consumer.notifying w))
Consume-ProducerWaits f lt at Consume.notify waits = λ k here a. absurd (cc)
Consume-ProducerWaits f lt at Consume.ask waits =
    λ k here a. still-NoRoom f lt at _ _ (λ w e. cc) (waits k here a)
Consume-ProducerWaits f lt at _ waits =
    λ k here a. still-NoRoom f lt at _ _ (λ w e. cc) (waits k here a)

module _ {n i : ℕ} where
  own-NoWork :
      (q : List ℤ) {m m' : Shared} {p : Producer} {d c : Consumer}
      → Consume n i m d m' c
      → ConsumerFact m q (i + 1) d
      → Holds m.queue q
      → c ≡ Consumer.waiting
      → NoWork m' p
  own-NoWork q Consume.wait (o, z) v at = inl (v.counted ∙ ap length z)
  own-NoWork q Consume.ask o v at = absurd (cc)
  own-NoWork q _ o v at = absurd (cc)

  others_sleep :
      {m m' : Shared} {d c : Consumer} (j : ℕ)
      → j ≢ i
      → Consume n i m d m' c
      → m'.asleep j ≡ true
      → m.asleep j ≡ true
  others_sleep {m} j ne Consume.wait a = sym (change-ne m.asleep i true j ne) ∙ a
  others_sleep j ne (Consume.signal s) a = Signal-sleeps j s a
  others_sleep j ne Consume.ask a = a
  others_sleep j ne _ a = a

  others-NoWork :
      (q : List ℤ) {m m' : Shared} {p : Producer} {d c : Consumer}
      → Consume n i m d m' c
      → ConsumerFact m q (i + 1) d
      → Holds m.queue q
      → NoWork m p
      → NoWork m' p
  others-NoWork q (Consume.take e) o v (inr here) = inr here
  others-NoWork q (Consume.take e) (own, left) v (inl z) = absurd (omega (arith, v.counted))
  others-NoWork q Consume.ask o v reason = reason
  others-NoWork q _ o v reason = reason

pub Consume-ConsumerWaits :
    {n i : ℕ} (f : ℕ → Consumer) (q : List ℤ) {m m' : Shared} {p : Producer} {d c : Consumer}
    → Consume n i m d m' c
    → ConsumerFact m q (i + 1) d
    → Holds m.queue q
    → ((j : ℕ) → ConsumerWaits m p j (f j))
    → (j : ℕ) → ConsumerWaits m' p j (change f i c j)
Consume-ConsumerWaits {i} f q {c} mv o v waits j here a = elim (ℕ_discrete j i) [
  | yes same ↦ own-NoWork q mv o v (sym (change_self f i c) ∙ ap (change f i c) (sym same) ∙ here)
  | no apart ↦
      others-NoWork q mv o v
        (waits j (sym (change-ne f i c j apart) ∙ here) (others_sleep j apart mv a))
]
