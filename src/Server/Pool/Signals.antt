-- ===== src/Server/Pool/Signals.antt =====
-- The signal of A3/server.c that nobody waits for: `thread_function` calls `pthread_cond_wait`
-- without looking at the queue first.
use operating_systems_fa.Common.{
  ==→eq, Bool, Bool-cases, List, [], arith, false, inl, inr, length, length-append, refl, suc, zero,
  ℕ, ◌++◌, ◌<◌, ◌==◌, ◌∙◌, ◌∷◌, ◌≡◌, ◌≤◌,
}
use operating_systems_fa.Common.Family.{change}
use operating_systems_fa.Fifo.{fifo_full}
use operating_systems_fa.Fifo.Holds.{Holds, full-test, stored_in-Holds}
use operating_systems_fa.Fifo.Transactions.{Transaction}
use operating_systems_fa.Server.Messages.{take_message-Kept, accept_connection-inv, store-room}
use operating_systems_fa.Server.Pool.Invariant.Runs.{Reach-Inv}
use operating_systems_fa.Server.Pool.{
  Worker, ready, asleep, selecting, storing, System, begin, Step, receives, accepts, stores,
  signals_nobody, signals, times_out, waits, wakes, takes, finds_nothing, handles, Reach, here,
  later,
}

-- All threads of the pool wait, though there is work in the queue; and the main thread owes
-- nobody a signal.
pub record IsStuck (n : ℕ) (s : System) : Type 0 where
  pub work : (q : List Transaction) × Holds s.server.queue q × (0 < length q)
  pub idle : s.main ≡ selecting
  pub all_asleep : (i : ℕ) → i < n → s.worker i ≡ asleep

-- The state when the threads below `k` have gone to wait.
abbrev put_to_sleep : ℕ → (ℕ → Worker) → ℕ → Worker
put_to_sleep zero worker = worker
put_to_sleep (suc k) worker = change (put_to_sleep k worker) k asleep

asleep_below : (k : ℕ) (worker : ℕ → Worker) (i : ℕ) → i < k → put_to_sleep k worker i ≡ asleep
asleep_below zero worker i lt = absurd (omega arith)
asleep_below (suc k) worker i lt = elim (Bool-cases (i == k)) [
  | inl e ↦ rw e
  | inr e ↦ rw e (asleep_below k worker i (ground arith))
]

same_above : (k : ℕ) (worker : ℕ → Worker) (i : ℕ) → k ≤ i → put_to_sleep k worker i ≡ worker i
same_above zero worker i le = refl
same_above (suc k) worker i le = elim (Bool-cases (i == k)) [
  | inl e ↦ absurd (omega (arith, ==→eq i k e))
  | inr e ↦ rw e (same_above k worker i (omega arith))
]

all_wait :
    {spurious : Bool} {n : ℕ} {s : System} (u : System) (k : ℕ)
    → Reach spurious n s u
    → ((i : ℕ) → i < n → u.worker i ≡ ready)
    → k ≤ n
    → Reach spurious n s (record u { worker = put_to_sleep k u.worker })
all_wait u zero r all_ready le = r
all_wait u (suc k) r all_ready le =
    later (all_wait u k r all_ready (omega arith))
      (waits k (omega arith) (same_above k u.worker k (omega arith) ∙ all_ready k (omega arith)))

-- From every reachable state in which a transaction is to be stored while no thread of the pool has
-- come to its wait yet, and the queue has room, the program can come to be stuck, with this
-- transaction at the end of the queue: the signal wakes nobody, and the threads go to wait.
pub lost_signal :
    {spurious : Bool} {n : ℕ} (storage : List Transaction) (server_fd : ℕ) {s : System}
    (t : Transaction)
    → n < 100
    → length storage ≡ 100
    → Reach spurious n (begin storage server_fd) s
    → s.main ≡ storing t
    → ((i : ℕ) → i < n → s.worker i ≡ ready)
    → fifo_full s.server.queue ≡ false
    → (u : System) × Reach spurious n s u
      × IsStuck n u
      × (q : List Transaction) × Holds u.server.queue (q ++ t ∷ [])
lost_signal {spurious} {n} storage server_fd {s} t few hundred r at all_ready not_full =
    let (q, inv) = Reach-Inv storage server_fd few hundred r in
    let room : length q < s.server.queue.size =
      ground (arith, full-test inv.holds, inv.holds.fits) in
    let stored : Reach spurious n s _ = later here (stores t at (store-room t inv.holds room)) in
    let signalled = later stored (signals_nobody refl (λ i lt p. cc (all_ready i lt))) in
    (
      _,
      all_wait _ n signalled all_ready (omega arith),
      record {
        work = (
          q ++ t ∷ [],
          stored_in-Holds inv.holds t room,
          omega (arith, length-append q (t ∷ [])),
        );
        idle = refl;
        all_asleep = λ i lt. asleep_below n s.worker i lt;
      },
      q,
      stored_in-Holds inv.holds t room,
    )

-- While the program is stuck, a step that is not a spurious wakeup leaves the queue and the
-- threads of the pool as they are: only the main thread moves, to take a message or a connection,
-- or to end.
pub IsStuck-Step :
    {n : ℕ} {s u : System}
    → IsStuck n s
    → Step false n s u
    → (u.server.queue ≡ s.server.queue) × (u.worker ≡ s.worker)
IsStuck-Step {s} stuck (receives i now bytes _ _ _ _ e) =
    ((take_message-Kept i now bytes s.server e).queue, refl)
IsStuck-Step {s} stuck (accepts fd _ e) = ((accept_connection-inv fd s.server e).1, refl)
IsStuck-Step stuck (stores t at e) = cc stuck.idle
IsStuck-Step stuck (signals_nobody at _) = cc stuck.idle
IsStuck-Step stuck (signals i lt due at) = cc stuck.idle
IsStuck-Step stuck (times_out at) = (refl, refl)
IsStuck-Step stuck (waits i lt at) = cc (stuck.all_asleep i lt)
IsStuck-Step stuck (wakes i lt allowed at) = cc
IsStuck-Step stuck (takes i unset lt at e) = cc (stuck.all_asleep i lt)
IsStuck-Step stuck (finds_nothing i unset lt at e) = cc (stuck.all_asleep i lt)
IsStuck-Step stuck (handles i now t lt at e) = cc (stuck.all_asleep i lt)
