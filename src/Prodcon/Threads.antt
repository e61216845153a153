-- ===== src/Prodcon/Threads.antt =====
-- The two threads of A2/prodcon.c, one synchronised action at a time: the producer's loop in
-- `main`, and `consume`. Between `pthread_mutex_lock` and `pthread_mutex_unlock` of `count_mutex`
-- only the owner touches the queue, so its accesses there are taken together; `end_of_input` is
-- set and read outside any lock, and each of its accesses is an action of its own. `Trans` and
-- `Sleep` only take time here; but where the product in `Trans` overflows (`fits` of Tands.antt is
-- false) it is undefined, and no action of the thread follows.
use operating_systems_fa.Common.{
  Bool, List, Option, [], false, none, pos, some, true, ℕ, ℤ, ◌++◌, ◌+◌, ◌<◌, ◌∷◌, ◌≡◌,
}
use operating_systems_fa.Fifo.{Fifo, fifo_full, fifo_empty, enqueue}
use operating_systems_fa.Fifo.Works.{dequeue}
use operating_systems_fa.Prodcon.Input.{sleep, work, check_input}
use operating_systems_fa.Prodcon.Message
use operating_systems_fa.Prodcon.Message.{Output, producer_id, print_message}
use operating_systems_fa.Tands.{fits}
use operating_systems_fa.Common.Family.{change}

-- What the threads share. `owner` is the thread that holds `count_mutex`; `asleep i` says that the
-- consumer `i` waits for the condition `full` and has not been woken, `asleep_producer` the same
-- for `empty`. `produced` and `received` record what has gone in and out of the queue; no action
-- reads them.
pub record Shared : Type 0 where
  pub queue : Fifo ℤ
  pub owner : Option ℕ
  pub end_of_input : Bool
  pub asleep : ℕ → Bool
  pub asleep_producer : Bool
  pub input : List (List ℕ)
  pub output : Output
  pub produced : List ℤ
  pub received : List ℤ

-- Where the producer stands, with its work value.
pub data Producer : Type 0 where
  reading : Producer
  locking : ℤ → Producer
  testing : ℤ → Producer
  waiting : ℤ → Producer
  storing : ℤ → Producer
  notifying : Producer
  unlocking : Producer
  ending : Producer
  signalling : Producer
  joining : Producer
  finished : Producer

-- Where a consumer stands, with its work value.
pub data Consumer : Type 0 where
  asking : Consumer
  locking : Consumer
  testing : Consumer
  found_empty : Consumer
  going_to_wait : Consumer
  waiting : Consumer
  taking : Consumer
  notifying : ℤ → Consumer
  unlocking : ℤ → Consumer
  working : ℤ → Consumer
  leaving : Consumer
  signalling : Consumer
  exited : Consumer

-- `pthread_cond_signal(&full)` wakes one of the consumers that wait, if there is one. (That it may
-- wake more is covered by `spurious` of `System`.)
pub data Signal (n : ℕ) (asleep : ℕ → Bool) : (ℕ → Bool) → Type 0 where
  nobody : ((i : ℕ) → i < n → asleep i ≡ false) → Signal n asleep asleep
  one : (i : ℕ) → i < n → asleep i ≡ true → Signal n asleep (change asleep i false)

-- An action of the producer, over what it shares with `n` consumers. A line that `check_input`
-- rejects ends the whole program: from there no action follows.
pub data Produce (n : ℕ) (m : Shared) : Producer → Shared → Producer → Type 0 where
  read_sleep :
      {line : List ℕ} {lines : List (List ℕ)} {k : ℤ}
      → m.input ≡ line ∷ lines
      → check_input line ≡ sleep k
      → Produce n m reading
          (record m {
            input = lines;
            output = print_message Message.tands_sleep k producer_id m.output;
          })
          reading
  read_work :
      {line : List ℕ} {lines : List (List ℕ)} {k : ℤ}
      → m.input ≡ line ∷ lines
      → check_input line ≡ work k
      → Produce n m reading (record m { input = lines }) (locking k)
  lock :
      {k : ℤ}
      → m.owner ≡ none
      → Produce n m (locking k) (record m { owner = some producer_id }) (testing k)
  wait :
      {k : ℤ}
      → fifo_full m.queue ≡ true
      → Produce n m (testing k) (record m { owner = none; asleep_producer = true }) (waiting k)
  wake :
      {k : ℤ}
      → m.asleep_producer ≡ false
      → m.owner ≡ none
      → Produce n m (waiting k) (record m { owner = some producer_id }) (testing k)
  room : {k : ℤ} → fifo_full m.queue ≡ false → Produce n m (testing k) m (storing k)
  store :
      {k : ℤ} {b : Bool} {f : Fifo ℤ}
      → enqueue k m.queue ≡ some (b, f)
      → Produce n m
          (storing k)
          (record m {
            queue = f;
            output = print_message Message.work k producer_id m.output;
            produced = m.produced ++ k ∷ [];
          })
          notifying
  broadcast : Produce n m notifying (record m { asleep = λ _. false }) unlocking
  unlock : Produce n m unlocking (record m { owner = none }) reading
  end_of_file :
      m.input ≡ []
      → Produce n m reading
          (record m { output = print_message Message.end (pos 0) 0 m.output })
          ending
  set_end : Produce n m ending (record m { end_of_input = true }) signalling
  signal :
      {asleep : ℕ → Bool}
      → Signal n m.asleep asleep
      → Produce n m signalling (record m { asleep = asleep }) joining

-- An action of the consumer `i`, whose `id` is `i + 1`.
pub data Consume (n i : ℕ) (m : Shared) : Consumer → Shared → Consumer → Type 0 where
  ask :
      Consume n i m asking
        (record m { output = print_message Message.ask (pos 0) (i + 1) m.output })
        locking
  lock : m.owner ≡ none → Consume n i m locking (record m { owner = some (i + 1) }) testing
  nothing : fifo_empty m.queue ≡ true → Consume n i m testing m found_empty
  something : fifo_empty m.queue ≡ false → Consume n i m testing m taking
  over : m.end_of_input ≡ true → Consume n i m found_empty m leaving
  not_over : m.end_of_input ≡ false → Consume n i m found_empty m going_to_wait
  wait :
      Consume n i m going_to_wait
        (record m { owner = none; asleep = change m.asleep i true })
        waiting
  wake :
      m.asleep i ≡ false
      → m.owner ≡ none
      → Consume n i m waiting (record m { owner = some (i + 1) }) testing
  take :
      {w : ℤ} {f : Fifo ℤ}
      → dequeue m.queue ≡ some (w, f)
      → Consume n i m taking
          (record m {
            queue = f;
            output = print_message Message.receive w (i + 1) m.output;
            received = m.received ++ w ∷ [];
          })
          (notifying w)
  notify :
      {w : ℤ} → Consume n i m (notifying w) (record m { asleep_producer = false }) (unlocking w)
  unlock : {w : ℤ} → Consume n i m (unlocking w) (record m { owner = none }) (working w)
  complete :
      {w : ℤ}
      → fits w ≡ true
      → Consume n i m
          (working w)
          (record m { output = print_message Message.complete w (i + 1) m.output })
          asking
  leave : Consume n i m leaving (record m { owner = none }) signalling
  signal :
      {asleep : ℕ → Bool}
      → Signal n m.asleep asleep
      → Consume n i m signalling (record m { asleep = asleep }) exited
