-- ===== src/Prodcon/System/Facts.antt =====
-- What the place of a thread says of the shared memory, where the queue stands for the list `q`;
-- and what an action leaves true for the other threads.
use operating_systems_fa.Common.{
  List, [], false, length, none, refl, some, true, ℕ, ℤ, ◌<◌, ◌∙◌, ◌≡◌, ◌≢◌,
}
use operating_systems_fa.Prodcon.Threads.{Shared, Producer, Consumer}
use operating_systems_fa.Prodcon.Message.{producer_id}

-- The thread holds `count_mutex`.
abbrev pub Owns : Shared → ℕ → Type 0
Owns m id = m.owner ≡ some id

abbrev pub ProducerFact : Shared → List ℤ → Producer → Type 0
ProducerFact m q Producer.reading = m.end_of_input ≡ false
ProducerFact m q (Producer.locking k) = m.end_of_input ≡ false
ProducerFact m q (Producer.waiting k) = m.end_of_input ≡ false
ProducerFact m q (Producer.testing k) = (m.end_of_input ≡ false) × Owns m producer_id
ProducerFact m q (Producer.storing k) =
    (m.end_of_input ≡ false) × Owns m producer_id × (length q < m.queue.size)
ProducerFact m q Producer.notifying = (m.end_of_input ≡ false) × Owns m producer_id
ProducerFact m q Producer.unlocking = (m.end_of_input ≡ false) × Owns m producer_id
ProducerFact m q Producer.ending = (m.end_of_input ≡ false) × (m.input ≡ [])
ProducerFact m q Producer.signalling = (m.end_of_input ≡ true) × (m.input ≡ [])
ProducerFact m q Producer.joining = (m.end_of_input ≡ true) × (m.input ≡ [])
ProducerFact m q Producer.finished = (m.end_of_input ≡ true) × (m.input ≡ [])

abbrev pub ConsumerFact : Shared → List ℤ → ℕ → Consumer → Type 0
ConsumerFact m q id Consumer.asking = Unit
ConsumerFact m q id Consumer.locking = Unit
ConsumerFact m q id Consumer.testing = Owns m id
ConsumerFact m q id Consumer.found_empty = Owns m id × (q ≡ [])
ConsumerFact m q id Consumer.going_to_wait = Owns m id × (q ≡ [])
ConsumerFact m q id Consumer.waiting = Unit
ConsumerFact m q id Consumer.taking = Owns m id × (0 < length q)
ConsumerFact m q id (Consumer.notifying w) = Owns m id
ConsumerFact m q id (Consumer.unlocking w) = Owns m id
ConsumerFact m q id (Consumer.working w) = Unit
ConsumerFact m q id Consumer.leaving = Owns m id × (q ≡ []) × (m.end_of_input ≡ true)
ConsumerFact m q id Consumer.signalling = (q ≡ []) × (m.end_of_input ≡ true)
ConsumerFact m q id Consumer.exited = (q ≡ []) × (m.end_of_input ≡ true)

-- An action of the thread `id` spares what the others rely on.
pub record Spares (id : ℕ) (m : Shared) (q : List ℤ) (m' : Shared) (q' : List ℤ) : Type 0 where
  pub owner : (k : ℕ) → k ≢ id → Owns m k → Owns m' k
  pub queue : (k : ℕ) → k ≢ id → Owns m k → q' ≡ q
  pub empty : q ≡ [] → m.end_of_input ≡ true → q' ≡ []
  pub over : m.end_of_input ≡ true → m'.end_of_input ≡ true

module _ {id : ℕ} {m : Shared} {q : List ℤ} {m' : Shared} {q' : List ℤ}
    (sp : Spares id m q m' q') where
  pub ConsumerFact-other :
      (k : ℕ) (c : Consumer) → k ≢ id → ConsumerFact m q k c → ConsumerFact m' q' k c
  ConsumerFact-other k Consumer.asking ne f = tt
  ConsumerFact-other k Consumer.locking ne f = tt
  ConsumerFact-other k Consumer.testing ne f = sp.owner k ne f
  ConsumerFact-other k Consumer.found_empty ne (o, e) = (sp.owner k ne o, sp.queue k ne o ∙ e)
  ConsumerFact-other k Consumer.going_to_wait ne (o, e) = (sp.owner k ne o, sp.queue k ne o ∙ e)
  ConsumerFact-other k Consumer.waiting ne f = tt
  ConsumerFact-other k Consumer.taking ne (o, some_left) =
      (sp.owner k ne o, rw (sp.queue k ne o) some_left)
  ConsumerFact-other k (Consumer.notifying w) ne f = sp.owner k ne f
  ConsumerFact-other k (Consumer.unlocking w) ne f = sp.owner k ne f
  ConsumerFact-other k (Consumer.working w) ne f = tt
  ConsumerFact-other k Consumer.leaving ne (o, e, over) =
      (sp.owner k ne o, sp.empty e over, sp.over over)
  ConsumerFact-other k Consumer.signalling ne (e, over) = (sp.empty e over, sp.over over)
  ConsumerFact-other k Consumer.exited ne (e, over) = (sp.empty e over, sp.over over)

  -- An action of a consumer, which changes neither `end_of_input` nor the input.
  pub ProducerFact-other :
      (p : Producer)
      → producer_id ≢ id
      → m'.end_of_input ≡ m.end_of_input
      → m'.input ≡ m.input
      → m'.queue.size ≡ m.queue.size
      → ProducerFact m q p
      → ProducerFact m' q' p
  ProducerFact-other Producer.reading ne e i z f = e ∙ f
  ProducerFact-other (Producer.locking k) ne e i z f = e ∙ f
  ProducerFact-other (Producer.waiting k) ne e i z f = e ∙ f
  ProducerFact-other (Producer.testing k) ne e i z (f, o) = (e ∙ f, sp.owner 0 ne o)
  ProducerFact-other (Producer.storing k) ne e i z (f, o, room) =
      (e ∙ f, sp.owner 0 ne o, rw (sp.queue 0 ne o, z) room)
  ProducerFact-other Producer.notifying ne e i z (f, o) = (e ∙ f, sp.owner 0 ne o)
  ProducerFact-other Producer.unlocking ne e i z (f, o) = (e ∙ f, sp.owner 0 ne o)
  ProducerFact-other Producer.ending ne e i z (f, o) = (e ∙ f, i ∙ o)
  ProducerFact-other Producer.signalling ne e i z (f, o) = (e ∙ f, i ∙ o)
  ProducerFact-other Producer.joining ne e i z (f, o) = (e ∙ f, i ∙ o)
  ProducerFact-other Producer.finished ne e i z (f, o) = (e ∙ f, i ∙ o)

-- Two threads never hold the mutex at once.
pub owner-eq : (m : Shared) (a b : ℕ) → Owns m a → Owns m b → a ≡ b
owner-eq m a b p r = cc

-- The three ways in which an action spares the others: it leaves the mutex alone, it takes a mutex
-- that is free, or its thread has held the mutex all along.
module _ (id : ℕ) {m m' : Shared} where
  pub leaves_mutex :
      (q : List ℤ)
      → m'.owner ≡ m.owner
      → (m.end_of_input ≡ true → m'.end_of_input ≡ true)
      → Spares id m q m' q
  leaves_mutex q o over = record {
    owner = λ k ne w. o ∙ w;
    queue = λ k ne w. refl;
    empty = λ e f. e;
    over = over;
  }

  pub takes_mutex :
      (q : List ℤ)
      → m.owner ≡ none
      → (m.end_of_input ≡ true → m'.end_of_input ≡ true)
      → Spares id m q m' q
  takes_mutex q free over = record {
    owner = λ k ne w. cc;
    queue = λ k ne w. refl;
    empty = λ e f. e;
    over = over;
  }

  pub holds_mutex :
      {q q' : List ℤ}
      → Owns m id
      → (q ≡ [] → m.end_of_input ≡ true → q' ≡ [])
      → (m.end_of_input ≡ true → m'.end_of_input ≡ true)
      → Spares id m q m' q'
  holds_mutex own empty over = record {
    owner = λ k ne w. absurd (ne (owner-eq m k id w own));
    queue = λ k ne w. absurd (ne (owner-eq m k id w own));
    empty = empty;
    over = over;
  }
