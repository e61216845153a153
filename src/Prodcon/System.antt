-- ===== src/Prodcon/System.antt =====
-- The whole of A2/prodcon.c: the producer and `nthreads` consumers, interleaved in any order.
pub mod Facts
pub mod Moves
pub mod Tally
pub mod Invariant
pub mod Safety
pub mod Runs
pub mod Deadlock
pub mod Summed
pub mod Termination
pub mod Alone
pub mod Awake
pub mod Progress
use operating_systems_fa.Common.{List, [], false, none, ℕ, ℤ, ◌*◌, ◌<◌, ◌≡◌}
use operating_systems_fa.Fifo.{Fifo, fifo_init}
use operating_systems_fa.Prodcon.Message.{no_output}
use operating_systems_fa.Common.Family.{change}
use operating_systems_fa.Prodcon.Threads.{Shared, Producer, Consumer, Produce, Consume}

-- A consumer from `nthreads` on does not exist: it never moves.
pub record System : Type 0 where
  pub shared : Shared
  pub producer : Producer
  pub consumer : ℕ → Consumer

-- `main` up to its loop: the queue has two entries for each consumer. `storage` is the memory of
-- the queue, which `malloc` leaves unknown.
unfoldable pub start : (nthreads : ℕ) → (storage : List ℤ) → (input : List (List ℕ)) → System
start nthreads storage input = record {
  shared = record {
    queue = fifo_init storage (nthreads * 2);
    owner = none;
    end_of_input = false;
    asleep = λ _. false;
    asleep_producer = false;
    input = input;
    output = no_output;
    produced = [];
    received = [];
  };
  producer = Producer.reading;
  consumer = λ _. Consumer.asking;
}

-- `joined` is the loop of `pthread_join` with the end of `main`. A wait may also end with no
-- signal, as POSIX allows.
pub data Step (n : ℕ) (s : System) : System → Type 0 where
  producer_moves :
      {m : Shared} {p : Producer}
      → Produce n s.shared s.producer m p
      → Step n s (record s { shared = m; producer = p })
  consumer_moves :
      (i : ℕ) {m : Shared} {c : Consumer}
      → i < n
      → Consume n i s.shared (s.consumer i) m c
      → Step n s (record s { shared = m; consumer = change s.consumer i c })
  joined :
      s.producer ≡ Producer.joining
      → ((i : ℕ) → i < n → s.consumer i ≡ Consumer.exited)
      → Step n s (record s { producer = Producer.finished })
  spurious :
      (i : ℕ)
      → Step n s (record s { shared = record s.shared { asleep = change s.shared.asleep i false } })
  spurious_producer : Step n s (record s { shared = record s.shared { asleep_producer = false } })

pub data Reach (n : ℕ) (s : System) : System → Type 0 where
  here : Reach n s s
  later : {t u : System} → Reach n s t → Step n t u → Reach n s u
