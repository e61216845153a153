-- ===== src/Prodcon/System/Moves.antt =====
-- An action of a thread keeps what the queue stands for and what its new place says, and spares
-- the others.
use operating_systems_fa.Common.{
  Bool, List, [], ap, arith, length, refl, some, sym, true, ℕ, ℤ, ◌++◌, ◌+◌, ◌<◌, ◌==◌, ◌∙◌, ◌∷◌,
  ◌≡◌,
}
use operating_systems_fa.Fifo.{Fifo, enqueue}
use operating_systems_fa.Fifo.Holds.{
  Holds, full-test, empty-test, enqueue-room, stored_in, stored_in-Holds, advanced, advanced-Holds,
}
use operating_systems_fa.Fifo.Works.{dequeue, dequeue-front}
use operating_systems_fa.Prodcon.Threads.{Shared, Producer, Consumer, Produce, Consume}
use operating_systems_fa.Prodcon.Message.{producer_id}
use operating_systems_fa.Prodcon.System.Facts.{
  ProducerFact, ConsumerFact, Spares, leaves_mutex, takes_mutex, holds_mutex,
}

-- What the queue stands for after an action.
unfoldable pub queue_after_produce :
    {n : ℕ} {m m' : Shared} {p p' : Producer} → Produce n m p m' p' → List ℤ → List ℤ
queue_after_produce (Produce.store {k} e) q = q ++ k ∷ []
queue_after_produce _ q = q

abbrev tail_of : List ℤ → List ℤ
tail_of [] = []
tail_of (x ∷ q) = q

unfoldable pub queue_after_consume :
    {n i : ℕ} {m m' : Shared} {c c' : Consumer} → Consume n i m c m' c' → List ℤ → List ℤ
queue_after_consume (Consume.take e) q = tail_of q
queue_after_consume _ q = q

nil_of_empty : (q : List ℤ) → (length q == 0) ≡ true → q ≡ []
nil_of_empty [] e = refl
nil_of_empty (x ∷ q) e = absurd (ground arith)

-- With room in the queue `enqueue` succeeds.
pub enqueue-inv :
    {f g : Fifo ℤ} {q : List ℤ} {b : Bool} (k : ℤ)
    → Holds f q
    → length q < f.size
    → enqueue k f ≡ some (b, g)
    → (b ≡ true) × (g ≡ stored_in f k)
enqueue-inv k v room e = let stored = enqueue-room v k room in (cc, cc)

pub dequeue-inv :
    {f g : Fifo ℤ} {x w : ℤ} {q : List ℤ}
    → Holds f (x ∷ q)
    → dequeue f ≡ some (w, g)
    → (w ≡ x) × (g ≡ advanced f)
dequeue-inv v e = let taken = dequeue-front v in (cc, cc)

module _ {n : ℕ} {q : List ℤ} where
  pub Produce-Holds :
      {m m' : Shared} {p p' : Producer} (mv : Produce n m p m' p')
      → ProducerFact m q p
      → Holds m.queue q
      → Holds m'.queue (queue_after_produce mv q)
  unfolding queue_after_produce
  Produce-Holds (Produce.store {k} e) (_, _, room) v =
      rw ((enqueue-inv k v room e).1) (stored_in-Holds v k room)
  Produce-Holds _ f v = v

  pub Produce-ProducerFact :
      {m m' : Shared} {p p' : Producer} (mv : Produce n m p m' p')
      → ProducerFact m q p
      → Holds m.queue q
      → ProducerFact m' (queue_after_produce mv q) p'
  unfolding queue_after_produce
  Produce-ProducerFact (Produce.store e) (f, o, room) v = (f, o)
  Produce-ProducerFact (Produce.read_sleep e c) f v = f
  Produce-ProducerFact (Produce.read_work e c) f v = f
  Produce-ProducerFact (Produce.lock o) f v = (f, refl)
  Produce-ProducerFact (Produce.wait e) (f, o) v = f
  Produce-ProducerFact (Produce.wake a o) f v = (f, refl)
  Produce-ProducerFact (Produce.room e) (f, o) v = (f, o, ground (arith, full-test v, v.fits))
  Produce-ProducerFact Produce.broadcast f v = f
  Produce-ProducerFact Produce.unlock (f, o) v = f
  Produce-ProducerFact (Produce.end_of_file e) f v = (f, e)
  Produce-ProducerFact Produce.set_end (f, e) v = (refl, e)
  Produce-ProducerFact (Produce.signal s) f v = f

  pub Produce-Spares :
      {m m' : Shared} {p p' : Producer} (mv : Produce n m p m' p')
      → ProducerFact m q p
      → Spares producer_id m q m' (queue_after_produce mv q)
  unfolding queue_after_produce
  Produce-Spares (Produce.store e) (f, o, room) =
      holds_mutex producer_id o (λ none_left over. cc) (λ over. over)
  Produce-Spares (Produce.read_sleep e c) f = leaves_mutex producer_id q refl (λ over. over)
  Produce-Spares (Produce.read_work e c) f = leaves_mutex producer_id q refl (λ over. over)
  Produce-Spares (Produce.lock free) f = takes_mutex producer_id q free (λ over. over)
  Produce-Spares (Produce.wait e) (f, o) = holds_mutex producer_id o (λ e over. e) (λ over. over)
  Produce-Spares (Produce.wake a free) f = takes_mutex producer_id q free (λ over. over)
  Produce-Spares (Produce.room e) f = leaves_mutex producer_id q refl (λ over. over)
  Produce-Spares Produce.broadcast f = leaves_mutex producer_id q refl (λ over. over)
  Produce-Spares Produce.unlock (f, o) = holds_mutex producer_id o (λ e over. e) (λ over. over)
  Produce-Spares (Produce.end_of_file e) f = leaves_mutex producer_id q refl (λ over. over)
  Produce-Spares Produce.set_end f = leaves_mutex producer_id q refl (λ over. refl)
  Produce-Spares (Produce.signal w) f = leaves_mutex producer_id q refl (λ over. over)

module _ {n i : ℕ} where
  pub Consume-Holds :
      {m m' : Shared} {c c' : Consumer} (q : List ℤ) (mv : Consume n i m c m' c')
      → ConsumerFact m q (i + 1) c
      → Holds m.queue q
      → Holds m'.queue (queue_after_consume mv q)
  unfolding queue_after_consume
  Consume-Holds [] (Consume.take e) (o, left) v = absurd (omega arith)
  Consume-Holds (x ∷ q) (Consume.take e) f v = rw ((dequeue-inv v e).1) (advanced-Holds v)
  Consume-Holds q _ f v = v

  pub Consume-ConsumerFact :
      {m m' : Shared} {c c' : Consumer} (q : List ℤ) (mv : Consume n i m c m' c')
      → ConsumerFact m q (i + 1) c
      → Holds m.queue q
      → ConsumerFact m' (queue_after_consume mv q) (i + 1) c'
  unfolding queue_after_consume
  Consume-ConsumerFact q (Consume.take e) (o, left) v = o
  Consume-ConsumerFact q Consume.ask f v = tt
  Consume-ConsumerFact q (Consume.lock free) f v = refl
  Consume-ConsumerFact q (Consume.nothing e) f v = (f, nil_of_empty q (sym (empty-test v) ∙ e))
  Consume-ConsumerFact q (Consume.something e) f v = (f, ground (arith, empty-test v))
  Consume-ConsumerFact q (Consume.over e) (o, z) v = (o, z, e)
  Consume-ConsumerFact q (Consume.not_over e) f v = f
  Consume-ConsumerFact q Consume.wait f v = tt
  Consume-ConsumerFact q (Consume.wake a free) f v = refl
  Consume-ConsumerFact q Consume.notify f v = f
  Consume-ConsumerFact q Consume.unlock f v = tt
  Consume-ConsumerFact q (Consume.complete can) f v = tt
  Consume-ConsumerFact q Consume.leave (o, z, e) v = (z, e)
  Consume-ConsumerFact q (Consume.signal s) f v = f

  pub Consume-Spares :
      {m m' : Shared} {c c' : Consumer} (q : List ℤ) (mv : Consume n i m c m' c')
      → ConsumerFact m q (i + 1) c
      → Spares (i + 1) m q m' (queue_after_consume mv q)
  unfolding queue_after_consume
  Consume-Spares q (Consume.take e) (o, left) =
      holds_mutex (i + 1) o (λ z over. ap tail_of z) (λ over. over)
  Consume-Spares q Consume.ask f = leaves_mutex (i + 1) q refl (λ over. over)
  Consume-Spares q (Consume.lock free) f = takes_mutex (i + 1) q free (λ over. over)
  Consume-Spares q (Consume.nothing e) f = leaves_mutex (i + 1) q refl (λ over. over)
  Consume-Spares q (Consume.something e) f = leaves_mutex (i + 1) q refl (λ over. over)
  Consume-Spares q (Consume.over e) f = leaves_mutex (i + 1) q refl (λ over. over)
  Consume-Spares q (Consume.not_over e) f = leaves_mutex (i + 1) q refl (λ over. over)
  Consume-Spares q Consume.wait (o, z) = holds_mutex (i + 1) o (λ e over. e) (λ over. over)
  Consume-Spares q (Consume.wake a free) f = takes_mutex (i + 1) q free (λ over. over)
  Consume-Spares q Consume.notify f = leaves_mutex (i + 1) q refl (λ over. over)
  Consume-Spares q Consume.unlock o = holds_mutex (i + 1) o (λ e over. e) (λ over. over)
  Consume-Spares q (Consume.complete can) f = leaves_mutex (i + 1) q refl (λ over. over)
  Consume-Spares q Consume.leave (o, z, e) = holds_mutex (i + 1) o (λ e over. e) (λ over. over)
  Consume-Spares q (Consume.signal s) f = leaves_mutex (i + 1) q refl (λ over. over)

  -- No action of a consumer changes these.
  pub Consume-same :
      {m m' : Shared} {c c' : Consumer} (q : List ℤ) (mv : Consume n i m c m' c')
      → ConsumerFact m q (i + 1) c
      → Holds m.queue q
      → (m'.end_of_input ≡ m.end_of_input)
        × (m'.input ≡ m.input)
        × (m'.queue.size ≡ m.queue.size)
        × (m'.produced ≡ m.produced)
  Consume-same [] (Consume.take e) (o, left) v = absurd (omega arith)
  Consume-same (x ∷ q) (Consume.take e) f v =
      (refl, refl, ap (λ g. g.size) (dequeue-inv v e).1, refl)
  Consume-same q _ f v = (refl, refl, refl, refl)
