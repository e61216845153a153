-- ===== src/Exchange.antt =====
-- A3/client.c and A3/server.c together: what one sends, the other reads.
mod Examples
use operating_systems_fa.Common.{
  [], ap, arith, get_elem?, get_elem?-lt, get_elem?-set_self, length, length-append, none, pos,
  some, true, ℕ, ◌++◌, ◌+◌, ◌<◌, ◌∙◌, ◌∷◌, ◌≡◌, ◌≤◌,
}
use mathlib.Core.List.{append_assoc}
use mathlib.Core.Path.{subst}
use operating_systems_fa.Common.Decimal.{decimal, pow10}
use operating_systems_fa.Common.Decimal.Read.{no_nul-decimal}
use operating_systems_fa.Common.Decimal.Width.{length-decimal-le}
use operating_systems_fa.Common.Text.{c_string, no_nul, no_nul-append, put_over}
use operating_systems_fa.Fifo.Transactions.{Transaction}
use operating_systems_fa.Client
use operating_systems_fa.Client.{name_message, output_file_name}
use operating_systems_fa.Client.Session.{Session, Turn, next, turn}
use operating_systems_fa.Client.Session.Done.{
  work_line, done_reply, answering, after_reply, turn-done,
}
use operating_systems_fa.Server.{Bytes, Client, Server}
use operating_systems_fa.Server.Print.{name_of}
use operating_systems_fa.Server.Receive.{take_message}
use operating_systems_fa.Server.Receive.Buffer.{received}
use operating_systems_fa.Server.Receive.Registration.{take_message-registration}
use operating_systems_fa.Server.Receive.Request.{request, requested, take_message-request}
use operating_systems_fa.Server.Handler.{Handling, answered, connection_handler}
use operating_systems_fa.Server.Handler.Done.{done_line, connection_handler-done}
use operating_systems_fa.Server.Table.{Table}

-- What the client sends for a line is what the server reads as a request.
sent-request : (w : ℕ) → work_line w ++ 0 ∷ [] ≡ request w
sent-request w = ap (λ text. b'T' ∷ text) (append_assoc (decimal w) (10 ∷ []) (0 ∷ []))

length-decimal-small : (n : ℕ) → n < pow10 10 → length (decimal n) ≤ 10
length-decimal-small n lt = length-decimal-le 10 n (omega arith) (omega arith) lt

-- The line "T" with work below 21475, which `Trans` can multiply by 100000, goes from the client to the server and comes back
-- as "D" with the number of the transaction, for a client with a name, `errno` at 0, whole
-- messages, and fewer than 10^9 transactions: the server counts one transaction more with this
-- work, and answers it; and the client takes the answer, and writes both numbers to its file.
pub exchange :
    (i now k w : ℕ) (client : Client) (name : Bytes) (s : Server) (sent_at received_at later : ℕ)
    (c : Session)
    → get_elem? s.client_ids i ≡ some (some k)
    → get_elem? s.clients k ≡ some client
    → c_string client.clientname ≡ some name
    → length s.recv_buff ≡ 1024
    → length c.recv_buff ≡ 1024
    → w < 21475
    → s.transaction_count + 1 < 1000000000
    → (served : Server) × (after : Server) × (message : Bytes) × (take_message i now
          (some (work_line w ++ 0 ∷ []))
          s
        ≡ some (
          served,
          some (record { count = s.transaction_count + 1; client_fd = i; work = pos w }),
        ))
      × (connection_handler later true
            (record { count = s.transaction_count + 1; client_fd = i; work = pos w })
            served
          ≡ some (answered message after))
      × (turn (answering sent_at received_at (message ++ 0 ∷ [])) (work_line w) c
          ≡ some (
              next (
                after_reply sent_at received_at w
                  (s.transaction_count + 1)
                  (put_over (message ++ 0 ∷ []) c.recv_buff)
                  c)))
exchange i now k w client name s sent_at received_at later c at found named room room' small few =
    let count = s.transaction_count + 1 in
    let t : Transaction = record { count = count; client_fd = i; work = pos w } in
    let served = requested now k w client name (received (request w) s) in
    let client' : Client = record client { tran_count = client.tran_count + 1 } in
    let fits : length (request w) < length s.recv_buff = omega (
      arith,
      length-decimal-small w (omega arith),
      length-append (decimal w) (10 ∷ 0 ∷ []),
      room,
    ) in
    let fits' : length (done_reply count) < length c.recv_buff = omega (
      arith,
      length-decimal-small count (omega arith),
      length-append (decimal count) (0 ∷ []),
      room',
    ) in
    let found' : get_elem? served.clients k ≡ some client' =
      get_elem?-set_self s.clients k client' (get_elem?-lt s.clients k found) in
    (
      served,
      record served { end = later; log = served.log ++ done_line later count name ∷ [] },
      b'D' ∷ decimal count,
      ap (λ bytes. take_message i now (some bytes) s) (sent-request w)
          ∙ take_message-request i now k w client name s at found named (omega arith) fits,
      connection_handler-done later k t client' name served at found' named (ground arith) few,
      turn-done sent_at received_at w count c (omega arith) (omega arith) fits',
    )

-- The client's first message: with a host name of fewer than 40 bytes and a number of the process
-- below 10^9 the name of its file fits the buffers, and a server that has room for the connection
-- knows it by this name when the message has been read.
pub introduction :
    (hostname : Bytes) (pid i now : ℕ) (s : Server)
    → no_nul hostname ≡ true
    → length hostname < 40
    → pid < 1000000000
    → Table s
    → get_elem? s.client_ids i ≡ some none
    → s.client_count < length s.clients
    → length s.recv_buff ≡ 1024
    → (filename : Bytes) × (message : Bytes) × (s' : Server) × (output_file_name hostname pid
        ≡ some filename)
      × (name_message filename ≡ some message)
      × (take_message i now (some (message ++ 0 ∷ [])) s ≡ some (s', none))
      × (name_of i s' ≡ some filename)
unfolding output_file_name name_message
introduction hostname pid i now s clean short few table unnamed room buffer =
    let filename = hostname ++ b'.' ∷ decimal pid in
    let digits = length-decimal-le 9 pid (omega arith) (omega arith) few in
    let parts = length-append hostname (b'.' ∷ decimal pid) in
    let whole = length-append filename (0 ∷ []) in
    let (s', taken, known, _) =
      take_message-registration i now filename [] s table unnamed room
        (no_nul-append hostname (b'.' ∷ decimal pid) clean (no_nul-decimal pid)) (omega arith)
        (omega arith) in
    (
      filename,
      b'N' ∷ filename,
      s',
      ground (arith, digits, parts),
      ground (arith, digits, parts),
      taken,
      known,
    )
