-- ===== src/Server/Loop.antt =====
-- The main loop of A3/server.c: one round behind `select`. `ready_sockets` is the set that `select`
-- leaves; what `accept` and `read` return for a socket is an argument. `none` is a fault.
pub mod Narrower
pub mod Watched
pub mod Served
pub mod Refines
mod Examples
use operating_systems_fa.Common.{
  Bool, Option, if◌then◌else◌, ltb, some, suc, zero, ℕ, ◌+◌, ◌==◌, ◌>>=◌,
}
use operating_systems_fa.Server.{Bytes, Server, accept_connection, fd_setsize}
use operating_systems_fa.Server.Receive.{receive_message}

-- What the system gives in one round: the ready sockets, the result of `accept`, what `read`
-- returns for each socket, and the times.
pub record Round : Type 0 where
  pub ready_sockets : ℕ → Bool
  pub accepted : Option ℕ
  pub answer : ℕ → Option Bytes
  pub now : ℕ → ℕ

-- A ready socket: a new connection, or a message.
unfoldable pub serve : Round → ℕ → Server → Option Server
serve r i s =
    if i == s.server_fd
    then accept_connection r.accepted s
    else receive_message i (r.now i) (r.answer i) s

-- The loop from the socket `i` on. Its bound `max_fd + 1` is read anew in each round of it, since
-- `accept_connection` may have raised it.
unfoldable pub ready_loop : (k i : ℕ) → Round → Server → Option Server
unfolding serve
ready_loop zero i r s = some s
ready_loop (suc k) i r s =
    if ltb i (s.max_fd + 1)
    then (do s' ← (if r.ready_sockets i then serve r i s else some s); ready_loop k (i + 1) r s')
    else some s

-- `FD_SETSIZE` rounds of it, which `max_fd` does not reach.
unfoldable pub handle_ready : Round → Server → Option Server
unfolding ready_loop
handle_ready r s = ready_loop fd_setsize 0 r s
