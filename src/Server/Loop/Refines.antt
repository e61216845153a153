-- ===== src/Server/Loop/Refines.antt =====
-- The loop of A3/server.c over the ready sockets is a run of the main thread, as the step relation
-- of the whole program has it.
use operating_systems_fa.Common.{
  >>=-some, Bool, Bool-cases, Option, arith, inl, inr, length, none, refl, some, some-inj, suc, sym,
  true, zero, ℕ, ◌+◌, ◌<◌, ◌==◌, ◌>>=◌, ◌∙◌, ◌≡◌, ◌≢◌, ◌≤◌, ◌⊎◌,
}
use mathlib.Core.Path.{subst}
use operating_systems_fa.Common.Family.{find_below}
use operating_systems_fa.Fifo.Transactions.{Transaction}
use operating_systems_fa.Server.{Bytes, Server, packet_size, fd_setsize, accept_connection}
use operating_systems_fa.Server.Receive.{take_message, store, receive_message}
use operating_systems_fa.Server.Pool.{
  Worker, ready, asleep, woken, garbage, handling, selecting, signalling, System, after_message,
  receives, accepts, stores, signals_nobody, signals, Reach, here, later,
}
use operating_systems_fa.Server.Loop.{Round, serve, handle_ready}
use operating_systems_fa.Server.Loop.Watched.{Watched}
use operating_systems_fa.Server.Loop.Served.{
  ready_from, serve_all, serve-others, handle_ready-serve_all,
}

-- What `read` gives fits the buffer, which it is told.
abbrev pub Fits : Round → Type 0
Fits r = (i : ℕ) (bytes : Bytes) → r.answer i ≡ some bytes → length bytes < packet_size

-- The program can come to a state with this server, in front of the next `select` or of the next
-- ready socket.
abbrev pub Comes : Bool → ℕ → System → Server → Type 0
Comes spurious n s server =
    (t : System) × Reach spurious n s t × (t.server ≡ server) × (t.main ≡ selecting)

is_asleep : (w : Worker) → (w ≡ asleep) ⊎ (w ≢ asleep)
is_asleep asleep = inl refl
is_asleep ready = inr (λ e. cc)
is_asleep woken = inr (λ e. cc)
is_asleep garbage = inr (λ e. cc)
is_asleep (handling t) = inr (λ e. cc)

some_asleep :
    (n : ℕ) (worker : ℕ → Worker)
    → ((i : ℕ) × (i < n) × (worker i ≡ asleep)) ⊎ ((i : ℕ) → i < n → worker i ≢ asleep)
some_asleep n worker = find_below n (λ i lt. is_asleep (worker i))

module _ {spurious : Bool} {n : ℕ} where
  -- The signal that is due, to one of the threads that wait, if any.
  signal-Comes :
      {s t : System} → Reach spurious n s t → t.main ≡ signalling → Comes spurious n s t.server
  signal-Comes {t} r due = elim (some_asleep n t.worker) [
    | inl (i, lt, at) ↦ (_, later r (signals i lt due at), refl, refl)
    | inr none_is ↦ (_, later r (signals_nobody due none_is), refl, refl)
  ]

  stored-Comes :
      {s t : System} {server : Server} (tr : Option Transaction)
      → Reach spurious n s t
      → t.main ≡ after_message tr
      → elim tr as (λ _. Option Server) [
        | none ↦ some t.server
        | some u ↦ (do (stored, s'') ← store u t.server; some s'')
      ]
        ≡ some server
      → Comes spurious n s server
  stored-Comes {t} none r at e = (t, r, some-inj e, at)
  stored-Comes {s} {t} {server} (some u) r at e =
      let ((b, after), into, made) = >>=-some (store u t.server) _ e in
      subst (Comes spurious n s) (some-inj made) (signal-Comes (later r (stores u at into)) refl)

  accept-Comes :
      {s t : System} {server : Server} (fd : Option ℕ)
      → Reach spurious n s t
      → t.main ≡ selecting
      → accept_connection fd t.server ≡ some server
      → Comes spurious n s server
  unfolding accept_connection
  accept-Comes none run at e = absurd (cc)
  accept-Comes (some fd) run at e = (_, later run (accepts fd at e), refl, at)

  receive-Comes :
      {s t : System} {server : Server} (r : Round) (i : ℕ) (answer : Option Bytes)
      → Reach spurious n s t
      → t.main ≡ selecting
      → r.answer i ≡ answer
      → Fits r
      → t.server.current_sockets i ≡ true
      → i ≢ t.server.server_fd
      → receive_message i (r.now i) answer t.server ≡ some server
      → Comes spurious n s server
  unfolding receive_message take_message
  receive-Comes r i none run at got fits is_open ne e = absurd (cc)
  receive-Comes {t} r i (some bytes) run at got fits is_open ne e =
      let ((after, tr), taken, rest) =
        >>=-some (take_message i (r.now i) (some bytes) t.server) _ e in
      stored-Comes tr
        (later run (receives i (r.now i) bytes at is_open ne (fits i bytes got) taken)) refl rest

  -- A ready socket that is open is served by steps of the main thread.
  serve-Comes :
      {s t : System} {server : Server} (r : Round) (i : ℕ)
      → Reach spurious n s t
      → t.main ≡ selecting
      → Fits r
      → t.server.current_sockets i ≡ true
      → serve r i t.server ≡ some server
      → Comes spurious n s server
  unfolding serve
  serve-Comes {t} r i run at fits is_open e = elim (Bool-cases (i == t.server.server_fd)) [
    | inl listening ↦ accept-Comes r.accepted run at (rw (serve, listening) at e)
    | inr other ↦
        receive-Comes r i (r.answer i) run at refl fits is_open (ground (arith, other))
          (rw (serve, other) at e)
  ]

  -- The sockets that are still to be served stay open.
  serve_all-Comes :
      {s : System} {server : Server} (k i : ℕ) (r : Round) {t : System}
      → Reach spurious n s t
      → t.main ≡ selecting
      → Fits r
      → ((j : ℕ) → i ≤ j → r.ready_sockets j ≡ true → t.server.current_sockets j ≡ true)
      → serve_all (ready_from k i r.ready_sockets) r t.server ≡ some server
      → Comes spurious n s server
  unfolding serve_all ready_from
  serve_all-Comes zero i r {t} run at fits were_open e = (t, run, some-inj e, at)
  serve_all-Comes {server} (suc k) i r {t} run at fits were_open e =
      elim (Bool-cases (r.ready_sockets i)) [
        | inr not_ready ↦
            serve_all-Comes k (i + 1) r run at fits
              (λ j le is_ready. were_open j (omega arith) is_ready) (rw not_ready at e)
        | inl is_ready ↦
            let (after, served, rest) = >>=-some (serve r i t.server) _ (rw is_ready at e) in
            let (u, run', same, at') =
              serve-Comes r i run at fits (were_open i (omega arith) is_ready) served in
            serve_all-Comes k (i + 1) r run' at' fits
              (λ j le ready_j.
                subst (λ v. v.current_sockets j ≡ true) (sym same)
                  (serve-others r i t.server served j (omega arith)
                    (were_open j (omega arith) ready_j)))
              (subst (λ v. serve_all (ready_from k (i + 1) r.ready_sockets) r v ≡ some server)
                (sym same) rest)
      ]

-- A round of the loop that does not fault is a run of the step relation of the whole program, in
-- which only the main thread moves: from a state in which it is in front of the ready sockets to
-- one in which it is behind them, with the same server. The bound of the loop must be right, and
-- the ready sockets open, as `select` promises, and `read` must keep to the size it is given.
pub handle_ready-Reach :
    {spurious : Bool} {n : ℕ} (s : System) (server : Server) (r : Round)
    → Watched s.server
    → s.main ≡ selecting
    → Fits r
    → ((i : ℕ) → r.ready_sockets i ≡ true → s.server.current_sockets i ≡ true)
    → handle_ready r s.server ≡ some server
    → (t : System) × Reach spurious n s t × (t.server ≡ server) × (t.main ≡ selecting)
handle_ready-Reach s server r w at fits were_open e =
    serve_all-Comes fd_setsize 0 r here at fits (λ j le is_ready. were_open j is_ready)
      (sym (handle_ready-serve_all r s.server w were_open) ∙ e)
