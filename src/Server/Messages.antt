-- ===== src/Server/Messages.antt =====
-- What `receive_message` of A3/server.c does to the table of the clients, and that it leaves the
-- queue to `store`.
use operating_systems_fa.Common.{
  >>=-some, Bool-cases, List, Option, arith, false, get_elem?, inl, inr, length, ltb, none, refl,
  some, true, write_at, write_at-some, ℕ, ◌+◌, ◌<◌, ◌==◌, ◌≡◌,
}
use mathlib.Core.Path.{subst}
use operating_systems_fa.Fifo.Holds.{Holds, enqueue-full, enqueue-room, stored_in}
use operating_systems_fa.Fifo.Transactions.{Transaction, enqueue}
use operating_systems_fa.Server.{Bytes, Client, Server, accept_connection, fd_setsize}
use operating_systems_fa.Server.Print.{name_of, print_transaction, print_done}
use operating_systems_fa.Common.Text.{put_over, behind_first}
use operating_systems_fa.Server.Receive.Steps.{new_transaction-some}
use operating_systems_fa.Server.Receive.{
  take, close_client, new_transaction, add_client, name_message, handle_message, take_message,
  store,
}
use operating_systems_fa.Server.Table.{
  Table, SameTable, SameTable-Table, forgotten, entered, counted, forgotten-Table, entered-Table,
  counted-Table,
}

-- How many transactions a message adds.
abbrev pub added : Option Transaction → ℕ
added none = 0
added (some t) = 1

-- A call keeps the table, leaves the queue as it is, and counts the transaction it has made.
pub record Kept (s s' : Server) (t : Option Transaction) : Type 0 where
  pub table : Table s → Table s'
  pub queue : s'.queue ≡ s.queue
  pub counted : s'.transaction_count ≡ s.transaction_count + added t

print_transaction-inv :
    (now : ℕ) (t : Transaction) (s : Server) {s' : Server}
    → print_transaction now t s ≡ some s'
    → SameTable s s' × (s'.queue ≡ s.queue)
unfolding print_transaction
print_transaction-inv now t s e =
    let (name, _, made) = >>=-some (name_of t.client_fd s) _ e in
    (record { clients = cc; client_ids = cc; client_count = cc; transaction_count = cc }, cc)

pub print_done-inv :
    (now : ℕ) (t : Transaction) (s : Server) {s' : Server}
    → print_done now t s ≡ some s'
    → SameTable s s' × (s'.queue ≡ s.queue)
unfolding print_done
print_done-inv now t s e =
    let (name, _, made) = >>=-some (name_of t.client_fd s) _ e in
    (record { clients = cc; client_ids = cc; client_count = cc; transaction_count = cc }, cc)

same-Kept : {s s' : Server} → SameTable s s' → s'.queue ≡ s.queue → Kept s s' none
same-Kept same q = record {
  table = SameTable-Table same;
  queue = q;
  counted = omega (arith, same.transaction_count);
}

close_client-Kept : (i : ℕ) (s : Server) {s' : Server} → close_client i s ≡ some s' → Kept s s' none
unfolding close_client
close_client-Kept i s {s'} e =
    let (ids, w, made) = >>=-some (write_at s.client_ids i none) _ e in
    let (_, set_ids) = write_at-some s.client_ids i none w in
    let same : SameTable (forgotten i s) s' = record {
      clients = cc;
      client_ids = cc;
      client_count = cc;
      transaction_count = cc;
    } in
    record {
      table = λ table. SameTable-Table same (forgotten-Table table i);
      queue = cc;
      counted = omega (arith, same.transaction_count);
    }

add_client-Kept : (i : ℕ) (s : Server) {s' : Server} → add_client i s ≡ some s' → Kept s s' none
unfolding add_client
add_client-Kept i s {s'} e =
    let c : Client = record { clientname = take 100 (behind_first s.recv_buff); tran_count = 0 } in
    let (clients, w, e') = >>=-some (write_at s.clients s.client_count c) _ e in
    let (ids, w', made) = >>=-some (write_at s.client_ids i (some s.client_count)) _ e' in
    let (lt, set_clients) = write_at-some s.clients s.client_count c w in
    let (_, set_ids) = write_at-some s.client_ids i (some s.client_count) w' in
    let same : SameTable (entered i c s) s' = record {
      clients = cc;
      client_ids = cc;
      client_count = cc;
      transaction_count = cc;
    } in
    record {
      table = λ table. SameTable-Table same (entered-Table table i c lt refl);
      queue = cc;
      counted = omega (arith, same.transaction_count);
    }

new_transaction-Kept :
    (i now : ℕ) (s : Server) {s' : Server} {t : Transaction}
    → new_transaction i now s ≡ some (s', t)
    → Kept s s' (some t)
new_transaction-Kept i now s e =
    let (k, client, u, at, found, printed) = new_transaction-some i now s e in
    let (same, q) = print_transaction-inv now u (counted k client s) printed in
    record {
      table = λ table. SameTable-Table same (counted-Table table i k client at found);
      queue = q;
      counted = omega (arith, same.transaction_count);
    }

unchanged-Kept :
    (s : Server) {s' : Server} {t : Option Transaction}
    → ◌≡◌ {A = Option (Server × Option Transaction)} (some (s, none)) (some (s', t))
    → Kept s s' t
unchanged-Kept s {s'} {t} e =
    let same : s ≡ s' = cc in
    let nothing : none ≡ t = cc in
    subst (λ u. Kept s s' u) nothing
      (subst (λ u. Kept s u none) same
        (same-Kept
          (record {
            clients = refl;
            client_ids = refl;
            client_count = refl;
            transaction_count = refl;
          })
          refl))

name_message-Kept :
    (i : ℕ) (id : Option ℕ) (s : Server) {s' : Server} {t : Option Transaction}
    → name_message i id s ≡ some (s', t)
    → Kept s s' t
unfolding name_message
name_message-Kept i none s {s'} {t} e =
    let (r, added_to, made) = >>=-some (add_client i s) _ e in
    let kept = add_client-Kept i s added_to in
    let same : r ≡ s' = cc in
    let nothing : none ≡ t = cc in
    subst (λ u. Kept s s' u) nothing (subst (λ u. Kept s u none) same kept)
name_message-Kept i (some k) s e = unchanged-Kept s e

handle_message-Kept :
    (i now n : ℕ) (s : Server) {s' : Server} {t : Option Transaction}
    → handle_message i now n s ≡ some (s', t)
    → Kept s s' t
unfolding handle_message
handle_message-Kept i now n s {s'} {t} e = elim (Bool-cases (n == 0)) [
  | inl z ↦
      let (r, closed, made) = >>=-some (close_client i s) _ (rw (handle_message, z) at e) in
      let same : r ≡ s' = cc in
      let nothing : none ≡ t = cc in
      subst (λ u. Kept s s' u) nothing
        (subst (λ u. Kept s u none) same (close_client-Kept i s closed))
  | inr nz ↦
      let (b, at, e1) = >>=-some (get_elem? s.recv_buff 0) _ (rw (handle_message, nz) at e) in
      elim (Bool-cases (b == b'T')) [
        | inl is_t ↦
            let ((r, u), new, made) = >>=-some (new_transaction i now s) _ (rw is_t at e1) in
            let same : r ≡ s' = cc in
            let one : some u ≡ t = cc in
            subst (λ v. Kept s s' v) one
              (subst (λ v. Kept s v (some u)) same (new_transaction-Kept i now s new))
        | inr not_t ↦ elim (Bool-cases (b == b'N')) [
          | inl is_n ↦
              let (id, at_i, e2) = >>=-some (get_elem? s.client_ids i) _ (rw (not_t, is_n) at e1) in
              name_message-Kept i id s e2
          | inr not_n ↦ unchanged-Kept s (rw (not_t, not_n) at e1)
        ]
      ]
]

-- A call of `receive_message`, up to the lock of the queue, keeps the table of the clients, leaves
-- the queue as it is, and counts a transaction exactly if it has one to store.
pub take_message-Kept :
    (i now : ℕ) (bytes : Bytes) (s : Server) {s' : Server} {t : Option Transaction}
    → take_message i now (some bytes) s ≡ some (s', t)
    → Kept s s' t
unfolding take_message
take_message-Kept i now bytes s e =
    let (buff, w, e') = >>=-some (write_at (put_over bytes s.recv_buff) (length bytes) 0) _ e in
    let kept = handle_message-Kept i now (length bytes) (record s { recv_buff = buff }) e' in
    record {
      table = λ table. kept.table (
          SameTable-Table
            (record {
              clients = refl;
              client_ids = refl;
              client_count = refl;
              transaction_count = refl;
            })
            table);
      queue = kept.queue;
      counted = kept.counted;
    }

pub accept_connection-inv :
    (fd : ℕ) (s : Server) {s' : Server}
    → accept_connection (some fd) s ≡ some s'
    → SameTable s s' × (s'.queue ≡ s.queue)
unfolding accept_connection
accept_connection-inv fd s e = elim (Bool-cases (ltb fd fd_setsize)) [
  | inl in_set ↦
      let made = rw (accept_connection, in_set) at e in
      (record { clients = cc; client_ids = cc; client_count = cc; transaction_count = cc }, cc)
  | inr outside ↦ let bad = rw (accept_connection, outside) at e in absurd (cc)
]

-- `store` stores the transaction if the queue has room, and changes nothing if it has none.
module _ {s : Server} {q : List Transaction} (t : Transaction) (holds : Holds s.queue q) where
  pub store-room :
      length q < s.queue.size → store t s ≡ some (true, record s { queue = stored_in s.queue t })
  unfolding store enqueue
  store-room room = rw (store, enqueue-room holds t room) refl

  pub store-full : length q ≡ s.queue.size → store t s ≡ some (false, s)
  unfolding store enqueue
  store-full full = rw (store, enqueue-full holds t full) refl
