-- ===== src/Server/Pool/Promises.antt =====
-- What A3/server.c guarantees under every interleaving.
use operating_systems_fa.Common.{
  Bool, Bool-cases, List, [], ap, arith, false, get_elem?, inl, inr, length, length-append, pos,
  refl, some, true, ℕ, ◌++◌, ◌+◌, ◌<◌, ◌==◌, ◌∙◌, ◌∷◌, ◌≡◌, ◌≢◌,
}
use operating_systems_fa.Common.Family.{change}
use operating_systems_fa.Fifo
use operating_systems_fa.Fifo.{Fifo}
use operating_systems_fa.Fifo.Holds.{Holds, init-Holds}
use operating_systems_fa.Fifo.Transactions.{
  Transaction, fifo_init, dequeue, dequeue-front, dequeue-empty,
}
use operating_systems_fa.Server.{set_up}
use operating_systems_fa.Server.Table.{sum_first}
use operating_systems_fa.Server.Pool.{
  Worker, ready, asleep, woken, garbage, handling, System, begin, Step, receives, accepts, stores,
  signals_nobody, signals, times_out, waits, wakes, takes, finds_nothing, handles, Reach, here,
  later,
}
use operating_systems_fa.Server.Pool.Counting.{woken_count-change}
use operating_systems_fa.Server.Pool.Invariant.{pending, Inv}
use operating_systems_fa.Server.Pool.Invariant.Runs.{Reach-Inv}

module _ {spurious : Bool} {n : ℕ} (storage : List Transaction) (server_fd : ℕ) {s : System}
    (few : n < 100) (hundred : length storage ≡ 100)
    (r : Reach spurious n (begin storage server_fd) s) where
  -- The transactions that `enqueue` has let in are served in their order, none twice: they are
  -- those that threads have taken, followed by those in the queue. Every transaction that is
  -- counted is one of them, about to be stored, or dropped; and the counters of the clients, which
  -- the summary prints, add up to the number of transactions.
  pub transactions_conserved :
      (q : List Transaction) × Holds s.server.queue q
      × (s.accepted ≡ s.taken ++ q)
      × (s.server.transaction_count ≡ length s.taken + length q + pending s.main + s.dropped)
      × (sum_first s.server.client_count s.server.clients ≡ s.server.transaction_count)
  transactions_conserved =
      let (q, inv) = Reach-Inv storage server_fd few hundred r in
      let parts = ap length inv.order ∙ length-append s.taken q in
      (q, inv.holds, inv.order, omega (arith, inv.conserved, parts), inv.table.summed)

  -- Two connections never share an entry of `clients`, and each entry that one has is below
  -- `client_count`, so that the summary prints it.
  pub connections_apart :
      (i j k : ℕ)
      → get_elem? s.server.client_ids i ≡ some (some k)
      → get_elem? s.server.client_ids j ≡ some (some k)
      → (i ≡ j) × (k < s.server.client_count)
  connections_apart i j k at at' =
      let (q, inv) = Reach-Inv storage server_fd few hundred r in
      (inv.table.apart i j k at at', inv.table.known i k at)

-- Without spurious wakeups a woken thread finds the queue not empty.
woken-Holds :
    {n : ℕ} {s : System} (q : List Transaction) (i : ℕ)
    → Inv false n s q
    → i < n
    → s.worker i ≡ woken
    → 0 < length q
woken-Holds {n} {s} q i inv lt at =
    omega (arith, inv.enough refl, woken_count-change n s.worker i ready lt at)

woken-finds :
    {n : ℕ} {s : System} (q : List Transaction) (i : ℕ) (unset : Transaction) {t : Transaction}
    {f : Fifo Transaction}
    → Inv false n s q
    → i < n
    → s.worker i ≡ woken
    → dequeue unset s.server.queue ≢ some (false, t, f)
woken-finds [] i unset inv lt at e = absurd (omega (arith, woken-Holds [] i inv lt at))
woken-finds (x ∷ q) i unset inv lt at e = cc (dequeue-front unset inv.holds)

change-ne-garbage :
    (worker : ℕ → Worker) (i : ℕ) (w : Worker)
    → w ≢ garbage
    → ((j : ℕ) → worker j ≢ garbage)
    → (j : ℕ) → change worker i w j ≢ garbage
change-ne-garbage worker i w new old j = elim (Bool-cases (j == i)) [
  | inl e ↦ rw e new
  | inr e ↦ rw e (old j)
]

-- Without spurious wakeups no thread ever goes on with a transaction that is not initialised.
pub no_garbage :
    {n : ℕ} (storage : List Transaction) (server_fd : ℕ) {s : System}
    → n < 100
    → length storage ≡ 100
    → Reach false n (begin storage server_fd) s
    → (i : ℕ) → s.worker i ≢ garbage
unfolding begin
no_garbage storage server_fd few e here i = cc
no_garbage storage server_fd few e (later {t} r st) i =
    let before = no_garbage storage server_fd few e r in
    let (q, inv) = Reach-Inv storage server_fd few e r in step_garbage st q inv before i
  where
    step_garbage :
        {n : ℕ} {s u : System}
        → Step false n s u
        → (q : List Transaction) → Inv false n s q
        → ((j : ℕ) → s.worker j ≢ garbage)
        → (j : ℕ) → u.worker j ≢ garbage
    step_garbage (receives _ _ _ _ _ _ _ _) q inv before = before
    step_garbage (accepts _ _ _) q inv before = before
    step_garbage (stores _ _ _) q inv before = before
    step_garbage (signals_nobody _ _) q inv before = before
    step_garbage (times_out _) q inv before = before
    step_garbage {s} (signals i _ _ _) q inv before =
        change-ne-garbage s.worker i woken (λ p. cc) before
    step_garbage {s} (waits i _ _) q inv before =
        change-ne-garbage s.worker i asleep (λ p. cc) before
    step_garbage {s} (wakes i _ _ _) q inv before =
        change-ne-garbage s.worker i woken (λ p. cc) before
    step_garbage {s} (takes i _ {t} _ _ _) q inv before =
        change-ne-garbage s.worker i (handling t) (λ p. cc) before
    step_garbage (finds_nothing i unset lt at found) q inv before =
        absurd (woken-finds q i unset inv lt at found)
    step_garbage {s} (handles i _ _ _ _ _) q inv before =
        change-ne-garbage s.worker i ready (λ p. cc) before

-- With them one does, whatever the number of threads.
pub spurious_garbage :
    (n : ℕ) (storage : List Transaction) (server_fd : ℕ)
    → 0 < n
    → length storage ≡ 100
    → (s : System) × Reach true n (begin storage server_fd) s × (s.worker 0 ≡ garbage)
unfolding begin set_up fifo_init Fifo.fifo_init
spurious_garbage n storage server_fd pos_n e =
    let unset : Transaction = record { count = 0; client_fd = 0; work = pos 0 } in
    let r0 : Reach true n (begin storage server_fd) (begin storage server_fd) = here in
    let r1 = later r0 (waits 0 pos_n refl) in
    let r2 = later r1 (wakes 0 pos_n refl refl) in
    let found = dequeue-empty unset (init-Holds storage 100 (omega arith) e) in
    (_, later r2 (finds_nothing 0 unset pos_n refl found), refl)
