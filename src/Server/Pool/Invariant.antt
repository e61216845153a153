-- ===== src/Server/Pool/Invariant.antt =====
-- The invariant of A3/server.c, and the steps that leave the queue as it is.
pub mod Queue
pub mod Runs
use operating_systems_fa.Common.{
  Bool, List, Option, ap, arith, false, length, none, refl, some, sym, true, ℕ, ◌++◌, ◌+◌, ◌<◌, ◌∙◌,
  ◌≡◌, ◌≤◌,
}
use mathlib.Core.List.{append_assoc}
use mathlib.Core.Path.{subst}
use operating_systems_fa.Common.Family.{change}
use operating_systems_fa.Fifo
use operating_systems_fa.Fifo.{Fifo}
use operating_systems_fa.Fifo.Holds.{Holds, init-Holds, stored_in, stored_in-Holds, advanced-Holds}
use operating_systems_fa.Fifo.Transactions.{
  Transaction, fifo_init, dequeue, dequeue-front, dequeue-empty,
}
use operating_systems_fa.Server.{Bytes, Server, set_up, accept_connection}
use operating_systems_fa.Server.Handler.{connection_handler, answered, connection_handler-some}
use operating_systems_fa.Server.Messages.{
  added, take_message-Kept, print_done-inv, accept_connection-inv, store-room, store-full,
}
use operating_systems_fa.Server.Print.{print_done}
use operating_systems_fa.Server.Receive.{take_message, store}
use operating_systems_fa.Server.Table.{set_up-Table, Table, SameTable, SameTable-Table}
use operating_systems_fa.Server.Pool.{
  Worker, ready, asleep, woken, garbage, handling, Main, selecting, signalling, finished, storing,
  System, begin, after_message, Step, receives, accepts, stores, signals_nobody, signals, times_out,
  waits, wakes, takes, finds_nothing, handles, Reach, here, later,
}
use operating_systems_fa.Server.Pool.Counting.{
  is_woken, woken_count, woken_count-change, woken_count-le, no_woken,
}

-- The transaction that the main thread is about to store, and the signal that it is about to send.
abbrev pub pending : Main → ℕ
pending (storing t) = 1
pending _ = 0

abbrev pub signal_due : Main → ℕ
signal_due signalling = 1
signal_due _ = 0

-- `q` is what the queue holds. Without spurious wakeups there is an entry for each thread that is
-- woken or about to be.
pub record Inv (spurious : Bool) (n : ℕ) (s : System) (q : List Transaction) : Type 0 where
  pub table : Table s.server
  pub holds : Holds s.server.queue q
  pub size : s.server.queue.size ≡ 100
  pub order : s.accepted ≡ s.taken ++ q
  pub conserved : s.server.transaction_count ≡ length s.accepted + pending s.main + s.dropped
  pub enough : spurious ≡ false → woken_count n s.worker + signal_due s.main ≤ length q

module _ {spurious : Bool} {n : ℕ} {s : System} {q : List Transaction}
    (inv : Inv spurious n s q) where
  pub receives-Inv :
      (i now : ℕ) (bytes : Bytes) {server : Server} {t : Option Transaction}
      → s.main ≡ selecting
      → take_message i now (some bytes) s.server ≡ some (server, t)
      → Inv spurious n (record s { server = server; main = after_message t }) q
  receives-Inv i now bytes {server} {t} at e =
      let kept = take_message-Kept i now bytes s.server e in
      record {
        table = kept.table inv.table;
        holds = subst (λ f. Holds f q) (sym kept.queue) inv.holds;
        size = ap (λ f. f.size) kept.queue ∙ inv.size;
        order = inv.order;
        conserved = omega (arith, kept.counted, inv.conserved, ap pending at, pending-after t);
        enough = λ calm. omega (arith, inv.enough calm, ap signal_due at, signal_due-after t);
      }
    where
      pending-after : (t : Option Transaction) → pending (after_message t) ≡ added t
      pending-after none = refl
      pending-after (some t) = refl

      signal_due-after : (t : Option Transaction) → signal_due (after_message t) ≡ 0
      signal_due-after none = refl
      signal_due-after (some t) = refl

  -- A step that changes neither the table nor the queue.
  pub server-Inv :
      {server : Server}
      → SameTable s.server server
      → server.queue ≡ s.server.queue
      → Inv spurious n (record s { server = server }) q
  server-Inv same queue = record {
    table = SameTable-Table same inv.table;
    holds = subst (λ f. Holds f q) (sym queue) inv.holds;
    size = ap (λ f. f.size) queue ∙ inv.size;
    order = inv.order;
    conserved = same.transaction_count ∙ inv.conserved;
    enough = inv.enough;
  }

  pub accepts-Inv :
      (fd : ℕ) {server : Server}
      → accept_connection (some fd) s.server ≡ some server
      → Inv spurious n (record s { server = server }) q
  accepts-Inv fd e =
      let (same, queue) = accept_connection-inv fd s.server e in server-Inv same queue

  -- What a thread of the pool does besides, where `w` takes the place of `before`.
  pub worker-Inv :
      (i : ℕ) (w : Worker) {before : Worker}
      → i < n
      → s.worker i ≡ before
      → (spurious ≡ false → is_woken w ≤ is_woken before)
      → Inv spurious n (record s { worker = change s.worker i w }) q
  worker-Inv i w lt at less = record {
    table = inv.table;
    holds = inv.holds;
    size = inv.size;
    order = inv.order;
    conserved = inv.conserved;
    enough =
        λ calm. omega (arith, inv.enough calm, less calm, woken_count-change n s.worker i w lt at);
  }

  pub main-Inv :
      (main : Main)
      → pending main ≡ pending s.main
      → signal_due main ≤ signal_due s.main
      → Inv spurious n (record s { main = main }) q
  main-Inv main same less = record {
    table = inv.table;
    holds = inv.holds;
    size = inv.size;
    order = inv.order;
    conserved = omega (arith, inv.conserved, same);
    enough = λ calm. omega (arith, inv.enough calm, less);
  }

  pub signals-Inv :
      (i : ℕ)
      → i < n
      → s.main ≡ signalling
      → s.worker i ≡ asleep
      → Inv spurious n (record s { main = selecting; worker = change s.worker i woken }) q
  signals-Inv i lt due at = record {
    table = inv.table;
    holds = inv.holds;
    size = inv.size;
    order = inv.order;
    conserved = omega (arith, inv.conserved, ap pending due);
    enough = λ calm.
        omega
          (arith, inv.enough calm, ap signal_due due, woken_count-change n s.worker i woken lt at);
  }

pub handles-Inv :
    {spurious : Bool} {n : ℕ} {s : System} {q : List Transaction} (i now : ℕ) (t : Transaction)
    {message : Bytes} {server : Server}
    → Inv spurious n s q
    → i < n
    → s.worker i ≡ handling t
    → connection_handler now true t s.server ≡ some (answered message server)
    → Inv spurious n (record s { server = server; worker = change s.worker i ready }) q
handles-Inv {s} i now t inv lt at e =
    let (same, queue) = print_done-inv now t s.server (connection_handler-some now t s.server e) in
    worker-Inv (server-Inv inv same queue) i ready lt at (λ calm. omega arith)
