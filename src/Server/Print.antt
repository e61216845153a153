-- ===== src/Server/Print.antt =====
-- What A3/server.c writes to its output file.
pub mod Layout
use operating_systems_fa.Common.{
  List, Option, [], false, get_elem?, if◌then◌else◌, ltb, none, some, suc, zero, ℕ, ◌++◌, ◌>>=◌,
  ◌∷◌,
}
use operating_systems_fa.Common.Decimal.{decimal, decimal_ℤ}
use operating_systems_fa.Common.Decimal.Columns.{gap, gap_ℤ}
use operating_systems_fa.Common.Text.{codes, c_string}
use operating_systems_fa.Fifo.Transactions.{Transaction}
use operating_systems_fa.Server.{Bytes, Client, Server}

-- `clients[client_ids[fd]].clientname`, printed by `%s`.
unfoldable pub name_of : ℕ → Server → Option Bytes
name_of fd s = do
  id ← get_elem? s.client_ids fd
  k ← id
  client ← get_elem? s.clients k
  c_string client.clientname

-- The nine formats of `print_transaction`. The second test of the number reads
-- `transaction_count`.
unfoldable pub tran_text : (transaction_count : ℕ) → Transaction → Bytes → Bytes
tran_text transaction_count t name =
    codes " #"
    ++ ((if ltb t.count 10 then codes "  " else if ltb transaction_count 100 then codes " " else [])
        ++ (decimal t.count
            ++ (codes " (T"
                ++ (gap_ℤ t.work
                    ++ (decimal_ℤ t.work ++ (codes ") from " ++ (name ++ codes "\n")))))))

unfoldable pub print_transaction : (now : ℕ) → Transaction → Server → Option Server
unfolding tran_text
print_transaction now t s = do
  name ← name_of t.client_fd s
  some (record s {
    first_transaction = false;
    start = if s.first_transaction then now else s.start;
    log = s.log ++ record { time = now; text = tran_text s.transaction_count t name } ∷ [];
  })

unfoldable pub done_text : ℕ → Bytes → Bytes
done_text count name =
    codes " #" ++ (gap count ++ (decimal count ++ (codes " (Done) from " ++ (name ++ codes "\n"))))

unfoldable pub print_done : (now : ℕ) → Transaction → Server → Option Server
unfolding done_text
print_done now t s = do
  name ← name_of t.client_fd s
  some (record s {
    end = now;
    log = s.log ++ record { time = now; text = done_text t.count name } ∷ [];
  })

-- The lines for the first clients of the array.
unfoldable pub client_lines : ℕ → List Client → Option (List Bytes)
client_lines zero clients = some []
client_lines (suc n) [] = none
client_lines (suc n) (c ∷ clients) = do
  name ← c_string c.clientname
  rest ← client_lines n clients
  some (
      (codes "  "
        ++ (decimal c.tran_count ++ (codes " transactions from " ++ (name ++ codes "\n"))))
      ∷ rest)

-- The text in front of the rate, and the number of transactions that the rate is computed from.
-- The rate itself is a `double`.
unfoldable pub print_summary : Server → Option (List Bytes × ℕ)
unfolding client_lines
print_summary s = do
  lines ← client_lines s.client_count s.clients
  some (codes "\nSUMMARY\n" ∷ lines, s.transaction_count)
