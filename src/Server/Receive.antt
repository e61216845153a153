-- ===== src/Server/Receive.antt =====
-- `receive_message` of A3/server.c: one message of a client, as one `read` returns it.
pub mod Buffer
pub mod Steps
pub mod Request
pub mod Registration
use operating_systems_fa.Common.{
  Bool, Option, [], false, get_elem?, if◌then◌else◌, length, none, set, some, suc, write_at, zero,
  ℕ, ◌+◌, ◌==◌, ◌>>=◌, ◌∷◌,
}
use operating_systems_fa.Common.Atoi.{atoi_int}
use operating_systems_fa.Common.Family.{change}
use operating_systems_fa.Common.Text.{to_nul, put_over, behind_first}
use operating_systems_fa.Fifo.Transactions.{Transaction, enqueue}
use operating_systems_fa.Server.{Bytes, Client, Server}
use operating_systems_fa.Server.Print.{print_transaction}

abbrev pub take : ℕ → Bytes → Bytes
take zero bytes = []
take (suc n) [] = []
take (suc n) (b ∷ bytes) = b ∷ take n bytes

-- The connection is closed.
unfoldable pub close_client : ℕ → Server → Option Server
close_client i s = do
  ids ← write_at s.client_ids i none
  some (record s { current_sockets = change s.current_sockets i false; client_ids = ids })

-- A transaction is received, up to `print_transaction`. Its work is an `int`.
unfoldable pub new_transaction : (i now : ℕ) → Server → Option (Server × Transaction)
new_transaction i now s = do
  id ← get_elem? s.client_ids i
  k ← id
  client ← get_elem? s.clients k
  work ← atoi_int (to_nul (behind_first s.recv_buff))
  let t : Transaction = record { count = s.transaction_count + 1; client_fd = i; work = work }
  s' ← print_transaction now t (record s {
    clients = set s.clients k (record client { tran_count = client.tran_count + 1 });
    transaction_count = s.transaction_count + 1;
  })
  some (s', t)

-- The client gives its name: 100 bytes of the buffer are copied.
unfoldable pub add_client : ℕ → Server → Option Server
add_client i s = do
  clients ←
      write_at s.clients s.client_count
        (record { clientname = take 100 (behind_first s.recv_buff); tran_count = 0 })
  ids ← write_at s.client_ids i (some s.client_count)
  some (record s { clients = clients; client_ids = ids; client_count = s.client_count + 1 })

-- A name counts only where the connection has none, which is what `client_ids` says.
unfoldable pub name_message :
    (i : ℕ) → (id : Option ℕ) → Server → Option (Server × Option Transaction)
name_message i none s = do s' ← add_client i s; some (s', none)
name_message i (some k) s = some (s, none)

-- What the message in the buffer asks for, with the transaction that is to be stored.
unfoldable pub handle_message : (i now n : ℕ) → Server → Option (Server × Option Transaction)
unfolding close_client new_transaction add_client name_message
handle_message i now n s = if n == 0 then (do s' ← close_client i s; some (s', none)) else do
  b ← get_elem? s.recv_buff 0
  if b == b'T'
      then (do (s', t) ← new_transaction i now s; some (s', some t))
      else if b == b'N'
      then (do id ← get_elem? s.client_ids i; name_message i id s)
      else some (s, none)

-- `receive_message` up to the lock of `fifo_mutex`. `answer` is what `read` returns: at most
-- PACKET_SIZE - 1 bytes, or `none` for -1, where the NUL is written to `recvBuff[-1]`.
unfoldable pub take_message :
    (i now : ℕ) → (answer : Option Bytes) → Server → Option (Server × Option Transaction)
unfolding handle_message put_over
take_message i now none s = none
take_message i now (some bytes) s = do
  buff ← write_at (put_over bytes s.recv_buff) (length bytes) 0
  handle_message i now (length bytes) (record s { recv_buff = buff })

-- The rest: the result of `enqueue` is not looked at.
unfoldable pub store : Transaction → Server → Option (Bool × Server)
unfolding enqueue
store t s = do (stored, q) ← enqueue t s.queue; some (stored, record s { queue = q })

unfoldable pub receive_message : (i now : ℕ) → (answer : Option Bytes) → Server → Option Server
receive_message i now answer s = do
  (s', transaction) ← take_message i now answer s
  elim transaction [ none ↦ some s' | some t ↦ (do (stored, s'') ← store t s'; some s'') ]
