-- ===== src/Server.antt =====
-- A3/server.c: the server's state, and what it does before its main loop. `none` is a fault: an
-- access outside an array or a set, or through a pointer that was never set. Times are in
-- microseconds.
pub mod Print
pub mod Receive
pub mod Handler
pub mod Table
pub mod Messages
pub mod Pool
pub mod Loop
pub mod Start
mod Examples
use operating_systems_fa.Common.{
  Bool, List, Option, [], eqb_ℤ, false, if◌then◌else◌, length, ltb, none, pos, replicate, some,
  true, ℕ, ℤ, ◌&&◌, ◌*◌, ◌++◌, ◌∷◌,
}
use operating_systems_fa.Common.Atoi.{atoi}
use operating_systems_fa.Common.Decimal.{decimal}
use operating_systems_fa.Common.Family.{change}
use operating_systems_fa.Fifo.{Fifo}
use operating_systems_fa.Fifo.Transactions.{Transaction, fifo_init}

abbrev pub Bytes : Type 0
Bytes = List ℕ

abbrev pub thread_pool_size : ℕ
thread_pool_size = 16

abbrev pub packet_size : ℕ
packet_size = 1024

abbrev pub fd_max : ℕ
fd_max = 1000

-- `FD_SETSIZE` of <sys/select.h>.
abbrev pub fd_setsize : ℕ
fd_setsize = 1024

-- `clientname` is the memory that it points to; a pointer that is not set points to none.
pub record Client : Type 0 where
  pub clientname : Bytes
  pub tran_count : ℕ

-- A line of the output file: the time at its front, and the text behind it.
pub record Line : Type 0 where
  pub time : ℕ
  pub text : Bytes

-- The variables of server.c. `client_ids` has `none` for -1.
pub record Server : Type 0 where
  pub clients : List Client
  pub client_ids : List (Option ℕ)
  pub client_count : ℕ
  pub transaction_count : ℕ
  pub recv_buff : Bytes
  pub current_sockets : ℕ → Bool
  pub max_fd : ℕ
  pub server_fd : ℕ
  pub queue : Fifo Transaction
  pub first_transaction : Bool
  pub start : ℕ
  pub end : ℕ
  pub log : List Line

-- The port, or the end of the program (`none`).
pub usage_check : List Bytes → Option ℤ
usage_check (program ∷ port ∷ []) = if eqb_ℤ (atoi port) (pos 0) then none else some (atoi port)
usage_check _ = none

-- `open_output_file`: the name of the file, in 40 bytes with its NUL. `hostname` is what
-- `gethostname` has written to 40 bytes, up to its NUL; the server goes on where it fails.
unfoldable pub output_file_name : (hostname : Bytes) → (pid : ℕ) → Option Bytes
output_file_name hostname pid =
    let filename = hostname ++ b'.' ∷ decimal pid in
    if ltb (length filename) 40 && ltb (length (decimal pid)) 10 then some filename else none

-- The arrays at the beginning: `clients` is static, and `main` fills the other two.
unfoldable pub no_clients : List Client
no_clients = replicate (fd_max * 2) (record { clientname = []; tran_count = 0 })

unfoldable pub no_ids : List (Option ℕ)
no_ids = replicate fd_max none

unfoldable pub no_bytes : Bytes
no_bytes = replicate packet_size 0

-- The state at the beginning of the main loop, with the memory of the queue and the socket that
-- the system has given.
unfoldable pub set_up : (storage : List Transaction) → (server_fd : ℕ) → Server
unfolding fifo_init
set_up storage server_fd = record {
  clients = no_clients;
  client_ids = no_ids;
  client_count = 0;
  transaction_count = 0;
  recv_buff = no_bytes;
  current_sockets = change (λ _. false) server_fd true;
  max_fd = server_fd;
  server_fd = server_fd;
  queue = fifo_init storage 100;
  first_transaction = true;
  start = 0;
  end = 0;
  log = [];
}

-- `fd` is what `accept` returns, `none` for -1. `FD_SET` is undefined outside the set.
unfoldable pub accept_connection : (fd : Option ℕ) → Server → Option Server
accept_connection none s = none
accept_connection (some fd) s =
    if ltb fd fd_setsize
    then some (record s {
      current_sockets = change s.current_sockets fd true;
      max_fd = if ltb s.max_fd fd then fd else s.max_fd;
    })
    else none
