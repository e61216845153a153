-- ===== src/Server/Receive/Steps.antt =====
-- `new_transaction` of A3/server.c, taken apart.
use operating_systems_fa.Common.{>>=-some, ap, get_elem?, set, some, some-inj, ℕ, ◌+◌, ◌∙◌, ◌≡◌}
use operating_systems_fa.Common.Atoi.{atoi_int}
use operating_systems_fa.Common.Text.{to_nul, behind_first}
use operating_systems_fa.Fifo.Transactions.{Transaction}
use operating_systems_fa.Server.{Client, Server}
use operating_systems_fa.Server.Print.{print_transaction}
use operating_systems_fa.Server.Receive.{new_transaction}

-- The steps of a transaction that is received.
pub new_transaction-some :
    (i now : ℕ) (s : Server) {s' : Server} {t : Transaction}
    → new_transaction i now s ≡ some (s', t)
    → (k : ℕ) × (client : Client) × (u : Transaction) × (get_elem? s.client_ids i ≡ some (some k))
      × (get_elem? s.clients k ≡ some client)
      × (print_transaction now u (record s {
        clients = set s.clients k (record client { tran_count = client.tran_count + 1 });
        transaction_count = s.transaction_count + 1;
      })
          ≡ some s')
unfolding new_transaction
new_transaction-some i now s e =
    let (id, at, e1) = >>=-some (get_elem? s.client_ids i) _ e in
    let (k, known, e2) = >>=-some id _ e1 in
    let (client, found, e3) = >>=-some (get_elem? s.clients k) _ e2 in
    let (w, is_work, e4) = >>=-some (atoi_int (to_nul (behind_first s.recv_buff))) _ e3 in
    let (s1, done, made) = >>=-some (print_transaction now _ _) _ e4 in
    (k, client, _, at ∙ ap some known, found, done ∙ ap some (ap (λ r. r.0) (some-inj made)))
