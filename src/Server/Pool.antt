-- ===== src/Server/Pool.antt =====
-- A3/server.c as a whole: the main thread and `n` threads of the pool (THREAD_POOL_SIZE in the
-- program), interleaved in any order. A critical section of `fifo_mutex` is one step: nothing
-- outside such a section touches the queue. The lines of the output file come one at a time,
-- under `print_mutex`. `send` takes whole messages; where it does not, the program ends.
pub mod Counting
pub mod Invariant
pub mod Promises
pub mod Signals
use operating_systems_fa.Common.{
  Bool, List, Option, [], false, if◌then◌else◌, length, none, some, true, ℕ, ◌++◌, ◌+◌, ◌<◌, ◌∷◌,
  ◌≡◌, ◌≢◌,
}
use operating_systems_fa.Common.Family.{change}
use operating_systems_fa.Fifo.{Fifo}
use operating_systems_fa.Fifo.Transactions.{Transaction, dequeue}
use operating_systems_fa.Server.{Bytes, Server, packet_size, set_up, accept_connection}
use operating_systems_fa.Server.Receive.{take_message, store}
use operating_systems_fa.Server.Handler.{connection_handler, answered}

-- Where a thread of the pool stands: before its lock, in `pthread_cond_wait` with or without a
-- signal, or with what it has dequeued. `garbage`: `dequeue` has left `t` as it was, which is not
-- initialised, and the thread goes on with it.
pub data Worker : Type 0 where
  ready asleep woken garbage : Worker
  handling : Transaction → Worker

-- Where the main thread stands: before `select` or between two ready sockets, before its lock,
-- before `pthread_cond_signal`, or behind its loop.
pub data Main : Type 0 where
  selecting signalling finished : Main
  storing : Transaction → Main

-- `accepted` and `taken` record what `enqueue` and `dequeue` have let in and out, `dropped` how
-- often `enqueue` has returned false. No step reads them.
pub record System : Type 0 where
  pub server : Server
  pub main : Main
  pub worker : ℕ → Worker
  pub accepted : List Transaction
  pub taken : List Transaction
  pub dropped : ℕ

unfoldable pub begin : (storage : List Transaction) → (server_fd : ℕ) → System
begin storage server_fd = record {
  server = set_up storage server_fd;
  main = selecting;
  worker = λ _. ready;
  accepted = [];
  taken = [];
  dropped = 0;
}

abbrev pub after_message : Option Transaction → Main
after_message none = selecting
after_message (some t) = storing t

-- `spurious` says whether a wait may end without a signal, which POSIX allows.
pub data Step (spurious : Bool) (n : ℕ) (s : System) : System → Type 0 where
  receives :
      (i now : ℕ) (bytes : Bytes) {server : Server} {t : Option Transaction}
      → s.main ≡ selecting
      → s.server.current_sockets i ≡ true
      → i ≢ s.server.server_fd
      → length bytes < packet_size
      → take_message i now (some bytes) s.server ≡ some (server, t)
      → Step spurious n s (record s { server = server; main = after_message t })
  accepts :
      (fd : ℕ) {server : Server}
      → s.main ≡ selecting
      → accept_connection (some fd) s.server ≡ some server
      → Step spurious n s (record s { server = server })
  stores :
      (t : Transaction) {stored : Bool} {server : Server}
      → s.main ≡ storing t
      → store t s.server ≡ some (stored, server)
      → Step spurious n s (record s {
        server = server;
        main = signalling;
        accepted = if stored then s.accepted ++ t ∷ [] else s.accepted;
        dropped = if stored then s.dropped else s.dropped + 1;
      })
  signals_nobody :
      s.main ≡ signalling
      → ((i : ℕ) → i < n → s.worker i ≢ asleep)
      → Step spurious n s (record s { main = selecting })
  signals :
      (i : ℕ)
      → i < n
      → s.main ≡ signalling
      → s.worker i ≡ asleep
      → Step spurious n s (record s { main = selecting; worker = change s.worker i woken })
  times_out : s.main ≡ selecting → Step spurious n s (record s { main = finished })
  waits :
      (i : ℕ)
      → i < n
      → s.worker i ≡ ready
      → Step spurious n s (record s { worker = change s.worker i asleep })
  wakes :
      (i : ℕ)
      → i < n
      → spurious ≡ true
      → s.worker i ≡ asleep
      → Step spurious n s (record s { worker = change s.worker i woken })
  takes :
      (i : ℕ) (unset : Transaction) {t : Transaction} {f : Fifo Transaction}
      → i < n
      → s.worker i ≡ woken
      → dequeue unset s.server.queue ≡ some (true, t, f)
      → Step spurious n s (record s {
        server = record s.server { queue = f };
        worker = change s.worker i (handling t);
        taken = s.taken ++ t ∷ [];
      })
  finds_nothing :
      (i : ℕ) (unset : Transaction) {t : Transaction} {f : Fifo Transaction}
      → i < n
      → s.worker i ≡ woken
      → dequeue unset s.server.queue ≡ some (false, t, f)
      → Step spurious n s
          (record s { server = record s.server { queue = f }; worker = change s.worker i garbage })
  handles :
      (i now : ℕ) (t : Transaction) {message : Bytes} {server : Server}
      → i < n
      → s.worker i ≡ handling t
      → connection_handler now true t s.server ≡ some (answered message server)
      → Step spurious n s (record s { server = server; worker = change s.worker i ready })

pub data Reach (spurious : Bool) (n : ℕ) (s : System) : System → Type 0 where
  here : Reach spurious n s s
  later : {t u : System} → Reach spurious n s t → Step spurious n t u → Reach spurious n s u
