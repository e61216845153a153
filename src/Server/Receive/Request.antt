-- ===== src/Server/Receive/Request.antt =====
-- The message with which a client asks for work.
use operating_systems_fa.Common.{
  [], ap, arith, false, get_elem?, get_elem?-lt, get_elem?-set_self, if◌then◌else◌, length,
  length-append, pos, refl, set, some, sym, ℕ, ◌++◌, ◌+◌, ◌<◌, ◌==◌, ◌∙◌, ◌∷◌, ◌≡◌,
}
use mathlib.Core.List.{append_assoc}
use operating_systems_fa.Common.Atoi.{atoi, atoi_int-pos, is_digit}
use operating_systems_fa.Common.Decimal.{decimal, pow10}
use operating_systems_fa.Common.Decimal.Read.{
  atoi-decimal_before, all_digits-decimal, no_nul-digits,
}
use operating_systems_fa.Common.Decimal.Columns.{percent_3d}
use operating_systems_fa.Common.Text.{to_nul, c_string, codes, put_over, behind_first}
use operating_systems_fa.Fifo.Transactions.{Transaction}
use operating_systems_fa.Server.{Bytes, Client, Line, Server}
use operating_systems_fa.Server.Print.{name_of, print_transaction}
use operating_systems_fa.Server.Print.Layout.{tran_text-columns}
use operating_systems_fa.Server.Receive.{handle_message, new_transaction, take_message}
use operating_systems_fa.Server.Receive.Buffer.{
  received, take_message-received, first-put_over, behind-put_over, to_nul-put_over,
  length-behind_first,
}

-- "T", the number, a newline and NUL, as A3/client.c sends a line of its input.
abbrev pub request : ℕ → Bytes
request w = b'T' ∷ (decimal w ++ 10 ∷ 0 ∷ [])

-- The line of the output file.
abbrev pub request_line : (now count w : ℕ) → Bytes → Line
request_line now count w name = record {
  time = now;
  text =
      codes " #"
      ++ (percent_3d count
          ++ (codes " (T" ++ (percent_3d w ++ (codes ") from " ++ (name ++ codes "\n")))));
}

-- The server when it has taken the request as the next transaction of entry `k`.
abbrev pub requested : (now k w : ℕ) → Client → Bytes → Server → Server
requested now k w client name s = record s {
  clients = set s.clients k (record client { tran_count = client.tran_count + 1 });
  transaction_count = s.transaction_count + 1;
  first_transaction = false;
  start = if s.first_transaction then now else s.start;
  log = s.log ++ request_line now (s.transaction_count + 1) w name ∷ [];
}

work-read :
    (w : ℕ) (s : Server)
    → w < pow10 10
    → length (request w) < length s.recv_buff
    → atoi (to_nul (behind_first (received (request w) s).recv_buff)) ≡ pos w
unfolding is_digit
work-read w s lt fits =
    let text = decimal w ++ 10 ∷ [] in
    let rest = decimal w ++ 10 ∷ 0 ∷ [] in
    let some_room : 0 < length s.recv_buff = omega (arith, fits) in
    let split : text ++ 0 ∷ [] ≡ rest = append_assoc (decimal w) (10 ∷ []) (0 ∷ []) in
    let shorter = length-append text (0 ∷ []) in
    let whole = ap length split in
    let clean = no_nul-digits (decimal w) (10 ∷ []) (all_digits-decimal w) refl in
    ap (λ l. atoi (to_nul l)) (behind-put_over b'T' rest s.recv_buff (length rest) some_room)
    ∙ ap (λ l. atoi (to_nul (set (put_over l (behind_first s.recv_buff)) (length rest) 0)))
        (sym split)
    ∙ ap atoi (
        to_nul-put_over text [] (behind_first s.recv_buff) (length rest) clean
          (omega (arith, shorter, whole))
          (omega (arith, shorter, whole, fits, length-behind_first s.recv_buff some_room)))
    ∙ atoi-decimal_before w 10 [] refl lt

-- A request for work that an `int` holds by a client with a name becomes the next transaction, with that
-- work; it is counted for this client, and the line in the output file has the two numbers as
-- `%3d` prints them.
pub take_message-request :
    (i now k w : ℕ) (client : Client) (name : Bytes) (s : Server)
    → get_elem? s.client_ids i ≡ some (some k)
    → get_elem? s.clients k ≡ some client
    → c_string client.clientname ≡ some name
    → w < 2147483648
    → length (request w) < length s.recv_buff
    → take_message i now (some (request w)) s
      ≡ some (
        requested now k w client name (received (request w) s),
        some (record { count = s.transaction_count + 1; client_fd = i; work = pos w }),
      )
unfolding handle_message new_transaction print_transaction name_of
take_message-request i now k w client name s at found named lt fits =
    let r = received (request w) s in
    let some_room : 0 < length s.recv_buff = omega (arith, fits) in
    let t : Transaction = record { count = s.transaction_count + 1; client_fd = i; work = pos w } in
    let not_empty : (length (request w) == 0) ≡ false = ground arith in
    take_message-received i now (request w) s fits
    ∙ rw
        (
          not_empty,
          first-put_over b'T' (decimal w ++ 10 ∷ 0 ∷ []) s.recv_buff
              (length (decimal w ++ 10 ∷ 0 ∷ [])) some_room,
          at,
          found,
          atoi_int-pos (to_nul (behind_first r.recv_buff)) w (work-read w s (omega arith) fits) lt,
          get_elem?-set_self s.clients k (record client { tran_count = client.tran_count + 1 })
              (get_elem?-lt s.clients k found),
          named,
          tran_text-columns t w name refl,
        )
        refl
