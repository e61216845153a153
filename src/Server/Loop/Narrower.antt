-- ===== src/Server/Loop/Narrower.antt =====
-- The calls of A3/server.c that open no socket.
use operating_systems_fa.Common.{
  >>=-some, Bool, Bool-cases, Option, arith, false, get_elem?, inl, inr, length, none, refl, some,
  some-inj, sym, true, write_at, ℕ, ◌==◌, ◌>>=◌, ◌∙◌, ◌≡◌, ◌≢◌,
}
use mathlib.Core.Path.{subst}
use operating_systems_fa.Common.Family.{change}
use operating_systems_fa.Fifo.Transactions.{Transaction, enqueue}
use operating_systems_fa.Common.Text.{put_over}
use operating_systems_fa.Server.{Bytes, Server}
use operating_systems_fa.Server.Handler.{connection_handler, answered, connection_handler-some}
use operating_systems_fa.Server.Table.{counted}
use operating_systems_fa.Server.Print.{name_of, print_transaction, print_done}
use operating_systems_fa.Server.Receive.Steps.{new_transaction-some}
use operating_systems_fa.Server.Receive.{
  close_client, new_transaction, add_client, name_message, handle_message, take_message, store,
  receive_message,
}

-- A call that opens no socket, and closes at most the socket `i`.
pub record Narrower (i : ℕ) (s s' : Server) : Type 0 where
  pub sockets : (j : ℕ) → s'.current_sockets j ≡ true → s.current_sockets j ≡ true
  pub others : (j : ℕ) → j ≢ i → s.current_sockets j ≡ true → s'.current_sockets j ≡ true
  pub max_fd : s'.max_fd ≡ s.max_fd
  pub server_fd : s'.server_fd ≡ s.server_fd

same_sockets :
    {i : ℕ} {s s' : Server}
    → s'.current_sockets ≡ s.current_sockets
    → s'.max_fd ≡ s.max_fd
    → s'.server_fd ≡ s.server_fd
    → Narrower i s s'
same_sockets sockets max_fd server_fd = record {
  sockets = λ j is_open. rw (← sockets) is_open;
  others = λ j ne is_open. rw sockets is_open;
  max_fd = max_fd;
  server_fd = server_fd;
}

Narrower-trans : {i : ℕ} {s t u : Server} → Narrower i s t → Narrower i t u → Narrower i s u
Narrower-trans a b = record {
  sockets = λ j is_open. a.sockets j (b.sockets j is_open);
  others = λ j ne is_open. b.others j ne (a.others j ne is_open);
  max_fd = b.max_fd ∙ a.max_fd;
  server_fd = b.server_fd ∙ a.server_fd;
}

print_transaction-Narrower :
    {i : ℕ} (now : ℕ) (t : Transaction) (s : Server) {s' : Server}
    → print_transaction now t s ≡ some s'
    → Narrower i s s'
unfolding print_transaction
print_transaction-Narrower now t s e =
    let (name, _, made) = >>=-some (name_of t.client_fd s) _ e in same_sockets (cc) (cc) (cc)

print_done-Narrower :
    {i : ℕ} (now : ℕ) (t : Transaction) (s : Server) {s' : Server}
    → print_done now t s ≡ some s'
    → Narrower i s s'
unfolding print_done
print_done-Narrower now t s e =
    let (name, _, made) = >>=-some (name_of t.client_fd s) _ e in same_sockets (cc) (cc) (cc)

close_client-Narrower :
    (i : ℕ) (s : Server) {s' : Server} → close_client i s ≡ some s' → Narrower i s s'
unfolding close_client
close_client-Narrower i s {s'} e =
    let (ids, w, made) = >>=-some (write_at s.client_ids i none) _ e in
    let closed : s'.current_sockets ≡ change s.current_sockets i false = cc in
    record {
      sockets = λ j is_open. still_open j (subst (λ f. f j ≡ true) closed is_open);
      others = λ j ne is_open. subst (λ f. f j ≡ true) (sym closed) (kept_open j ne is_open);
      max_fd = cc;
      server_fd = cc;
    }
  where
    still_open : (j : ℕ) → change s.current_sockets i false j ≡ true → s.current_sockets j ≡ true
    still_open j is_open = ground arith

    kept_open :
        (j : ℕ) → j ≢ i → s.current_sockets j ≡ true → change s.current_sockets i false j ≡ true
    kept_open j ne is_open = ground arith

add_client-Narrower :
    (i : ℕ) (s : Server) {s' : Server} → add_client i s ≡ some s' → Narrower i s s'
unfolding add_client
add_client-Narrower i s e =
    let (clients, _, e') = >>=-some (write_at s.clients s.client_count _) _ e in
    let (ids, _, made) = >>=-some (write_at s.client_ids i (some s.client_count)) _ e' in
    same_sockets (cc) (cc) (cc)

new_transaction-Narrower :
    (i now : ℕ) (s : Server) {s' : Server} {t : Transaction}
    → new_transaction i now s ≡ some (s', t)
    → Narrower i s s'
new_transaction-Narrower i now s e =
    let (k, client, u, at, found, printed) = new_transaction-some i now s e in
    Narrower-trans (same_sockets refl refl refl)
      (print_transaction-Narrower {i = i} now u (counted k client s) printed)

made-Narrower :
    {i : ℕ} {s r s' : Server} {u t : Option Transaction}
    → Narrower i s r
    → ◌≡◌ {A = Option (Server × Option Transaction)} (some (r, u)) (some (s', t))
    → Narrower i s s'
made-Narrower {i} {s} {r} {s'} narrow made =
    let same : r ≡ s' = cc in subst (Narrower i s) same narrow

unchanged : {i : ℕ} {s : Server} → Narrower i s s
unchanged = same_sockets refl refl refl

name_message-Narrower :
    (i : ℕ) (id : Option ℕ) (s : Server) {s' : Server} {t : Option Transaction}
    → name_message i id s ≡ some (s', t)
    → Narrower i s s'
unfolding name_message
name_message-Narrower i none s e =
    let (r, added, made) = >>=-some (add_client i s) _ e in
    made-Narrower (add_client-Narrower i s added) made
name_message-Narrower i (some k) s e = made-Narrower unchanged e

handle_message-Narrower :
    (i now n : ℕ) (s : Server) {s' : Server} {t : Option Transaction}
    → handle_message i now n s ≡ some (s', t)
    → Narrower i s s'
unfolding handle_message
handle_message-Narrower i now n s e = elim (Bool-cases (n == 0)) [
  | inl z ↦
      let (r, closed, made) = >>=-some (close_client i s) _ (rw (handle_message, z) at e) in
      made-Narrower (close_client-Narrower i s closed) made
  | inr nz ↦
      let (b, at, e1) = >>=-some (get_elem? s.recv_buff 0) _ (rw (handle_message, nz) at e) in
      elim (Bool-cases (b == b'T')) [
        | inl is_t ↦
            let ((r, u), new, made) = >>=-some (new_transaction i now s) _ (rw is_t at e1) in
            made-Narrower (new_transaction-Narrower i now s new) made
        | inr not_t ↦ elim (Bool-cases (b == b'N')) [
          | inl is_n ↦
              let (id, at_i, e2) = >>=-some (get_elem? s.client_ids i) _ (rw (not_t, is_n) at e1) in
              name_message-Narrower i id s e2
          | inr not_n ↦ made-Narrower unchanged (rw (not_t, not_n) at e1)
        ]
      ]
]

pub take_message-Narrower :
    (i now : ℕ) (answer : Option Bytes) (s : Server) {s' : Server} {t : Option Transaction}
    → take_message i now answer s ≡ some (s', t)
    → Narrower i s s'
unfolding take_message
take_message-Narrower i now none s e = absurd (cc)
take_message-Narrower i now (some bytes) s e =
    let (buff, w, e') = >>=-some (write_at (put_over bytes s.recv_buff) (length bytes) 0) _ e in
    Narrower-trans (same_sockets refl refl refl)
      (handle_message-Narrower i now (length bytes) (record s { recv_buff = buff }) e')

pub store-Narrower :
    {i : ℕ} (t : Transaction) (s : Server) {b : Bool} {s' : Server}
    → store t s ≡ some (b, s')
    → Narrower i s s'
unfolding store
store-Narrower t s e =
    let ((stored, q), _, made) = >>=-some (enqueue t s.queue) _ e in same_sockets (cc) (cc) (cc)

pub receive_message-Narrower :
    (i now : ℕ) (answer : Option Bytes) (s : Server) {s' : Server}
    → receive_message i now answer s ≡ some s'
    → Narrower i s s'
unfolding receive_message
receive_message-Narrower i now answer s e =
    let ((r, t), taken, rest) = >>=-some (take_message i now answer s) _ e in
    Narrower-trans (take_message-Narrower i now answer s taken) (stored t rest)
  where
    stored :
        {r s' : Server} (t : Option Transaction)
        → elim t as (λ _. Option Server) [
          | none ↦ some r
          | some t ↦ (do (stored, s'') ← store t r; some s'')
        ]
          ≡ some s'
        → Narrower i r s'
    stored {r} none e = subst (Narrower i r) (some-inj e) unchanged
    stored {r} {s'} (some t) e =
        let ((b, u), into, made) = >>=-some (store t r) _ e in
        let same : u ≡ s' = cc in subst (Narrower i r) same (store-Narrower t r into)

pub connection_handler-Narrower :
    {i : ℕ} (now : ℕ) (t : Transaction) (s : Server) {message : Bytes} {s' : Server}
    → connection_handler now true t s ≡ some (answered message s')
    → Narrower i s s'
connection_handler-Narrower now t s e =
    print_done-Narrower now t s (connection_handler-some now t s e)
