-- ===== src/Server/Loop/Watched.antt =====
-- The sockets that A3/server.c has open, and the bound of its loops over them.
use operating_systems_fa.Common.{
  Bool, Bool-cases, List, Option, arith, if◌then◌else◌, inl, inr, ltb, none, refl, some, some-inj,
  true, ℕ, ◌<◌, ◌==◌, ◌≡◌, ◌≤◌,
}
use operating_systems_fa.Server.Loop.Narrower.{
  Narrower, take_message-Narrower, store-Narrower, connection_handler-Narrower,
}
use mathlib.Core.Path.{subst}
use operating_systems_fa.Common.Family.{change}
use operating_systems_fa.Fifo.Transactions.{Transaction}
use operating_systems_fa.Server.{Server, fd_setsize, accept_connection, set_up}
use operating_systems_fa.Fifo.{Fifo}
use operating_systems_fa.Server.Pool.{
  System, begin, Step, receives, accepts, stores, signals_nobody, signals, times_out, waits, wakes,
  takes, finds_nothing, handles, Reach, here, later,
}

-- `select` and the loop behind it look at all sockets, and `FD_SET` has been inside the set.
pub record Watched (s : Server) : Type 0 where
  pub sockets : (i : ℕ) → s.current_sockets i ≡ true → i ≤ s.max_fd
  pub fits : s.max_fd < fd_setsize
  pub listens : s.server_fd ≤ s.max_fd

pub Narrower-Watched : {i : ℕ} {s s' : Server} → Narrower i s s' → Watched s → Watched s'
Narrower-Watched narrow w = record {
  sockets = λ i is_open. omega (arith, w.sockets i (narrow.sockets i is_open), narrow.max_fd);
  fits = omega (arith, w.fits, narrow.max_fd);
  listens = omega (arith, w.listens, narrow.max_fd, narrow.server_fd);
}

-- The state with a new connection.
abbrev with_socket : ℕ → Server → Server
with_socket fd s = record s {
  current_sockets = change s.current_sockets fd true;
  max_fd = if ltb s.max_fd fd then fd else s.max_fd;
}

with_socket-Watched :
    (fd : ℕ) (s : Server)
    → ltb fd fd_setsize ≡ true
    → Watched s
    → Watched (with_socket fd s)
      × (s.max_fd ≤ (with_socket fd s).max_fd)
      × ((with_socket fd s).server_fd ≡ s.server_fd)
with_socket-Watched fd s in_set w = (
  record {
    sockets = λ i is_open. elim (Bool-cases (i == fd)) [
      | inl e ↦ ground (arith, e)
      | inr e ↦ ground (arith, w.sockets i (ground (arith, e)))
    ];
    fits = ground (arith, w.fits);
    listens = ground (arith, w.listens);
  },
  ground arith,
  refl,
)

-- A new connection raises `max_fd` to its socket, if that is higher.
pub accept_connection-Watched :
    (fd : Option ℕ) (s : Server) {s' : Server}
    → accept_connection fd s ≡ some s'
    → Watched s
    → Watched s' × (s.max_fd ≤ s'.max_fd) × (s'.server_fd ≡ s.server_fd)
unfolding accept_connection
accept_connection-Watched none s e w = absurd (cc)
accept_connection-Watched (some fd) s {s'} e w = elim (Bool-cases (ltb fd fd_setsize)) [
  | inr outside ↦ let bad = rw (accept_connection, outside) at e in absurd (cc)
  | inl in_set ↦
      let made : with_socket fd s ≡ s' = some-inj (rw (accept_connection, in_set) at e) in
      subst (λ u. Watched u × (s.max_fd ≤ u.max_fd) × (u.server_fd ≡ s.server_fd)) made
        (with_socket-Watched fd s in_set w)
]

pub accept_connection-others :
    (fd : Option ℕ) (s : Server) {s' : Server}
    → accept_connection fd s ≡ some s'
    → (j : ℕ) → s.current_sockets j ≡ true
    → s'.current_sockets j ≡ true
unfolding accept_connection
accept_connection-others none s e j is_open = absurd (cc)
accept_connection-others (some fd) s {s'} e j is_open = elim (Bool-cases (ltb fd fd_setsize)) [
  | inr outside ↦ let bad = rw (accept_connection, outside) at e in absurd (cc)
  | inl in_set ↦
      let made : with_socket fd s ≡ s' = some-inj (rw (accept_connection, in_set) at e) in
      subst (λ u. u.current_sockets j ≡ true) made (ground (arith, is_open))
]

set_up-Watched :
    (storage : List Transaction) (server_fd : ℕ)
    → server_fd < fd_setsize
    → Watched (set_up storage server_fd)
unfolding set_up
set_up-Watched storage server_fd in_set = record {
  sockets = λ i is_open. ground (arith, is_open);
  fits = in_set;
  listens = omega arith;
}

queue-Watched : {s : Server} {f : Fifo Transaction} → Watched s → Watched (record s { queue = f })
queue-Watched w = record { sockets = w.sockets; fits = w.fits; listens = w.listens }

Step-Watched :
    {spurious : Bool} {n : ℕ} {s t : System}
    → Step spurious n s t
    → Watched s.server
    → Watched t.server
Step-Watched {s} (receives i now bytes _ _ _ _ e) w =
    Narrower-Watched (take_message-Narrower i now (some bytes) s.server e) w
Step-Watched {s} (accepts fd _ e) w = (accept_connection-Watched (some fd) s.server e w).0
Step-Watched {s} (stores t _ e) w = Narrower-Watched (store-Narrower {i = 0} t s.server e) w
Step-Watched {s} (handles i now t _ _ e) w =
    Narrower-Watched (connection_handler-Narrower {i = 0} now t s.server e) w
Step-Watched (signals_nobody _ _) w = w
Step-Watched (signals i _ _ _) w = w
Step-Watched (times_out _) w = w
Step-Watched (waits i _ _) w = w
Step-Watched (wakes i _ _ _) w = w
Step-Watched (takes i unset _ _ _) w = queue-Watched w
Step-Watched (finds_nothing i unset _ _ _) w = queue-Watched w

-- In every reachable state of the server, whatever the interleaving, `max_fd` bounds the listening
-- socket and every socket that is open, so that `select` and the loop behind it reach them all, and
-- it is below FD_SETSIZE, if the listening socket was.
pub Reach-Watched :
    {spurious : Bool} {n : ℕ} (storage : List Transaction) (server_fd : ℕ) {s : System}
    → server_fd < fd_setsize
    → Reach spurious n (begin storage server_fd) s
    → Watched s.server
unfolding begin
Reach-Watched storage server_fd in_set here = set_up-Watched storage server_fd in_set
Reach-Watched storage server_fd in_set (later r st) =
    Step-Watched st (Reach-Watched storage server_fd in_set r)
