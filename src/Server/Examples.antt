-- ===== src/Server/Examples.antt =====
-- Tests of A3/server.c, and its theorems at a run in which a client connects, gives its name, and
-- asks for work.
use operating_systems_fa.Common.{
  List, [], arith, false, get_elem?, length, length-replicate, none, pos, refl, replicate, some,
  suc, true, zero, ℕ, ◌++◌, ◌+◌, ◌<◌, ◌∷◌, ◌≡◌, ◌≢◌,
}
use operating_systems_fa.Common.Atoi.{atoi_int, atoi}
use operating_systems_fa.Common.Decimal.{decimal, decimal_loop, decimal_ℤ}
use operating_systems_fa.Common.Text.{codes, c_string, to_nul}
use operating_systems_fa.Fifo
use operating_systems_fa.Fifo.Holds.{Holds}
use operating_systems_fa.Fifo.Transactions.{Transaction, fifo_init}
use operating_systems_fa.Server.{
  Client, Server, no_bytes, no_ids, no_clients, set_up, accept_connection, output_file_name,
}
use operating_systems_fa.Server.Print.{
  print_done, name_of, print_transaction, tran_text, print_summary, client_lines,
}
use operating_systems_fa.Server.Receive.{take_message}
use operating_systems_fa.Server.Receive.Buffer.{received}
use operating_systems_fa.Server.Receive.Registration.{take_message-registration}
use operating_systems_fa.Server.Receive.Request.{request, requested, take_message-request}
use operating_systems_fa.Server.Handler.{connection_handler}
use operating_systems_fa.Server.Handler.Done.{connection_handler-closed}
use operating_systems_fa.Server.Table.{sum_first, set_up-Table}
use operating_systems_fa.Server.Pool.{
  System, begin, receives, accepts, Reach, here, later, ready, garbage, storing,
}
use operating_systems_fa.Server.Pool.Invariant.{pending}
use operating_systems_fa.Server.Pool.Promises.{
  transactions_conserved, connections_apart, no_garbage, spurious_garbage,
}
use operating_systems_fa.Server.Pool.Signals.{IsStuck, lost_signal}

abbrev unset : Transaction
unset = record { count = 0; client_fd = 0; work = pos 0 }

abbrev storage : List Transaction
storage = replicate 100 unset

hundred : length storage ≡ 100
hundred = length-replicate 100 unset

abbrev t1 : Transaction
t1 = record { count = 1; client_fd = 4; work = pos 5 }

-- The connection 4 has given the name "ab" and asked for 5 units.
before_storing :
    (s : System) × Reach false 1 (begin storage 3) s
    × (s.main ≡ storing t1)
    × (s.worker 0 ≡ ready)
    × (get_elem? s.server.client_ids 4 ≡ some (some 0))
    × (Fifo.fifo_full s.server.queue ≡ false)
unfolding begin set_up accept_connection take_message no_bytes no_ids no_clients print_transaction
    name_of c_string atoi atoi_int to_nul fifo_init Fifo.fifo_init Fifo.fifo_full
before_storing =
    let r0 : Reach false 1 (begin storage 3) (begin storage 3) = here in
    let r1 = later r0 (accepts 4 refl refl) in
    let r2 =
      later r1
        (receives 4 10 (codes "Nab" ++ 0 ∷ []) refl refl (λ e. omega arith) (omega arith) refl) in
    let r3 =
      later r2
        (receives 4 20 (codes "T5\n" ++ 0 ∷ []) refl refl (λ e. omega arith) (omega arith) refl) in
    (_, r3, refl, refl, refl, refl)

few : 1 < 100
few = omega arith

transactions_conserved_example :
    (q : List Transaction) × Holds before_storing.0.server.queue q
    × (before_storing.0.accepted ≡ before_storing.0.taken ++ q)
    × (before_storing.0.server.transaction_count
        ≡ length before_storing.0.taken
          + length q
          + pending before_storing.0.main
          + before_storing.0.dropped)
    × (sum_first before_storing.0.server.client_count before_storing.0.server.clients
        ≡ before_storing.0.server.transaction_count)
transactions_conserved_example = transactions_conserved storage 3 few hundred before_storing.1

connections_apart_example : (◌≡◌ {A = ℕ} 4 4) × (0 < before_storing.0.server.client_count)
connections_apart_example =
    let at = before_storing.4 in
    connections_apart storage 3 few hundred before_storing.1 4 4 0 at at

no_garbage_example : before_storing.0.worker 0 ≢ garbage
no_garbage_example = no_garbage storage 3 few hundred before_storing.1 0

spurious_garbage_example : (s : System) × Reach true 1 (begin storage 3) s × (s.worker 0 ≡ garbage)
spurious_garbage_example = spurious_garbage 1 storage 3 (omega arith) hundred

all_ready : (i : ℕ) → i < 1 → before_storing.0.worker i ≡ ready
all_ready zero lt = before_storing.3
all_ready (suc i) lt = absurd (omega arith)

lost_signal_example :
    (u : System) × Reach false 1 before_storing.0 u
    × IsStuck 1 u
    × (q : List Transaction) × Holds u.server.queue (q ++ t1 ∷ [])
lost_signal_example =
    lost_signal storage 3 t1 few hundred before_storing.1 before_storing.2 all_ready
      before_storing.5

take_message-registration_example :
    (s' : Server) × (take_message 4 10
        (some (b'N' ∷ (codes "ab" ++ 0 ∷ (codes "T5\n" ++ 0 ∷ []))))
        (set_up storage 3)
      ≡ some (s', none))
    × (name_of 4 s' ≡ some (codes "ab"))
    × ((j : ℕ) → j ≢ 4 → name_of j s' ≡ name_of j (set_up storage 3))
unfolding set_up no_bytes no_ids no_clients
take_message-registration_example =
    take_message-registration 4 10 (codes "ab") (codes "T5\n" ++ 0 ∷ []) (set_up storage 3)
      (set_up-Table storage 3) refl (omega arith) refl (omega arith) (omega arith)

abbrev ab : Client
ab = record { clientname = codes "ab" ++ 0 ∷ []; tran_count = 0 }

-- A server that knows the connection 4 as "ab".
abbrev named : Server
named = record (set_up storage 3) {
  clients = ab ∷ [];
  client_ids = none ∷ none ∷ none ∷ none ∷ some 0 ∷ [];
  client_count = 1;
}

take_message-request_example :
    take_message 4 20 (some (request 5)) named
    ≡ some (requested 20 0 5 ab (codes "ab") (received (request 5) named), some t1)
unfolding set_up no_bytes c_string decimal decimal_loop
take_message-request_example =
    take_message-request 4 20 0 5 ab (codes "ab") named refl refl refl (omega arith) (omega arith)

connection_handler-closed_example :
    (s' : Server) × (take_message 4 30 (some []) named ≡ some (s', none))
    × (print_done 40 t1 s' ≡ none)
    × (connection_handler 40 true t1 s' ≡ none)
unfolding set_up no_bytes
connection_handler-closed_example =
    connection_handler-closed 30 40 t1 named (omega arith) (omega arith) (omega arith)

-- " #  1 (T  5) from ab" and the summary, and a host name that is too long for the name of the file.
Texts-server :
    (tran_text 1 t1 (codes "ab") ≡ codes " #  1 (T  5) from ab\n")
    × (print_summary named
        ≡ some (codes "\nSUMMARY\n" ∷ codes "  0 transactions from ab\n" ∷ [], 0))
    × (output_file_name (codes "host") 123 ≡ some (codes "host.123"))
    × (output_file_name (replicate 36 b'h') 123 ≡ none)
unfolding tran_text decimal decimal_loop decimal_ℤ print_summary client_lines c_string set_up
    output_file_name
Texts-server = (refl, refl, refl, refl)
