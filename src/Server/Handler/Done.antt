-- ===== src/Server/Handler/Done.antt =====
-- What the `connection_handler` of A3/server.c answers, in the 12 bytes of `done_message`, and
-- writes to the output file.
use operating_systems_fa.Common.{
  Bool-cases, [], arith, false, get_elem?, get_elem?-set_self, inl, inr, length, none, refl, set,
  some, true, ℕ, ◌++◌, ◌<◌, ◌∙◌, ◌∷◌, ◌≡◌, ◌≤◌,
}
use operating_systems_fa.Common.Decimal.{decimal}
use operating_systems_fa.Common.Decimal.Width.{length-decimal-le, length-decimal-gt}
use operating_systems_fa.Common.Decimal.Columns.{percent_3d}
use operating_systems_fa.Common.Family.{change}
use operating_systems_fa.Common.Text.{codes, c_string}
use operating_systems_fa.Tands.{fits}
use operating_systems_fa.Fifo.Transactions.{Transaction}
use operating_systems_fa.Server.{Bytes, Client, Line, Server}
use operating_systems_fa.Server.Print.{name_of, print_done}
use operating_systems_fa.Server.Print.Layout.{done_text-columns}
use operating_systems_fa.Server.Receive.{handle_message, close_client, take_message}
use operating_systems_fa.Server.Receive.Buffer.{received, take_message-received}
use operating_systems_fa.Server.Handler.{done_message, answered, connection_handler}

-- The message fits its buffer exactly if the number has at most nine digits; with ten, which an
-- `int` can have, the second NUL is written behind the buffer.
pub done_message-fits :
    (count : ℕ)
    → ((count < 1000000000) → done_message count ≡ some (b'D' ∷ decimal count))
      × ((1000000000 ≤ count) → done_message count ≡ none)
unfolding done_message
done_message-fits count = (
  (λ lt. ground (arith, length-decimal-le 9 count (omega arith) (omega arith) lt)),
  (λ le. ground (arith, length-decimal-gt 9 count (omega arith) le)),
)

-- The line of the output file.
abbrev pub done_line : (now count : ℕ) → Bytes → Line
done_line now count name = record {
  time = now;
  text = codes " #" ++ (percent_3d count ++ (codes " (Done) from " ++ (name ++ codes "\n")));
}

-- A transaction with a number below 10^9 and work that `Trans` can do, from a connection with a
-- name, is answered with "D" and
-- its number, and a line with the number as `%3d` prints it is written.
pub connection_handler-done :
    (now k : ℕ) (t : Transaction) (client : Client) (name : Bytes) (s : Server)
    → get_elem? s.client_ids t.client_fd ≡ some (some k)
    → get_elem? s.clients k ≡ some client
    → c_string client.clientname ≡ some name
    → fits t.work ≡ true
    → t.count < 1000000000
    → connection_handler now true t s
      ≡ some (
          answered
            (b'D' ∷ decimal t.count)
            (record s { end = now; log = s.log ++ done_line now t.count name ∷ [] }))
unfolding connection_handler print_done name_of
connection_handler-done now k t client name s at found named can lt =
    rw (can, (done_message-fits t.count).0 lt, at, found, named, done_text-columns t.count name)
      refl

-- When `read` returns nothing the connection is closed. For a transaction of it that is still in the
-- queue or with a thread, with a number below 10^9, `print_done` then reads `clients[-1]`, so that
-- the thread comes to no end: not after its answer, if `Trans` can do the work, nor before.
pub connection_handler-closed :
    (now later : ℕ) (t : Transaction) (s : Server)
    → t.client_fd < length s.client_ids
    → 0 < length s.recv_buff
    → t.count < 1000000000
    → (s' : Server) × (take_message t.client_fd now (some []) s ≡ some (s', none))
      × (print_done later t s' ≡ none)
      × (connection_handler later true t s' ≡ none)
unfolding handle_message close_client connection_handler print_done name_of
connection_handler-closed now later t s inside room small =
    let r = received [] s in
    let s' = record r {
      client_ids = set s.client_ids t.client_fd none;
      current_sockets = change s.current_sockets t.client_fd false;
    } in
    let gone : get_elem? s'.client_ids t.client_fd ≡ some none =
      get_elem?-set_self s.client_ids t.client_fd none inside in
    (
      s',
      take_message-received t.client_fd now [] s room ∙ ground (arith, inside),
      rw gone refl,
      elim (Bool-cases (fits t.work)) [
        | inl can ↦ rw (can, (done_message-fits t.count).0 small, gone) refl
        | inr cannot ↦ rw cannot refl
      ],
    )
