-- ===== src/Server/Handler.antt =====
-- `connection_handler` of A3/server.c. `Trans` takes time, and is a fault where its argument
-- is too large (`trans-total` of Tands.antt); what it leaves in `TransSave` is not read here.
pub mod Done
use operating_systems_fa.Common.{
  >>=-some, Bool, Bool-cases, Option, if◌then◌else◌, inl, inr, length, ltb, none, some, true, ℕ,
  ◌+◌, ◌>>=◌, ◌∷◌, ◌≡◌,
}
use mathlib.Core.Path.{subst}
use operating_systems_fa.Common.Decimal.{decimal}
use operating_systems_fa.Tands.{fits}
use operating_systems_fa.Fifo.Transactions.{Transaction}
use operating_systems_fa.Server.{Bytes, Server}
use operating_systems_fa.Server.Print.{print_done}

-- The text of `done_message`, which has 12 bytes: behind the number `sprintf` with "%c" writes two
-- NULs, the second of which must fit too.
unfoldable pub done_message : ℕ → Option Bytes
done_message count =
    let text = b'D' ∷ decimal count in if ltb (length text + 1) 12 then some text else none

-- The program ends, or the message has been sent with its NUL.
pub data Handling : Type 0 where
  exited : Handling
  answered : Bytes → Server → Handling

-- `sent` says whether `send` has taken the whole message.
unfoldable pub connection_handler :
    (now : ℕ) → (sent : Bool) → Transaction → Server → Option Handling
connection_handler now sent t s =
    if fits t.work
    then (do
      message ← done_message t.count
      if sent then (do s' ← print_done now t s; some (answered message s')) else some exited)
    else none

-- An answer is followed by the line in the output file.
pub connection_handler-some :
    (now : ℕ) (t : Transaction) (s : Server) {message : Bytes} {s' : Server}
    → connection_handler now true t s ≡ some (answered message s')
    → print_done now t s ≡ some s'
unfolding connection_handler
connection_handler-some now t s {s'} e = elim (Bool-cases (fits t.work)) [
  | inl can ↦
      let (text, _, e1) = >>=-some (done_message t.count) _ (rw can at e) in
      let (r, printed, made) = >>=-some (print_done now t s) _ e1 in
      let same : r ≡ s' = cc in subst (λ u. print_done now t s ≡ some u) same printed
  | inr cannot ↦ absurd (none_ne_some (rw cannot at e))
]
  where
    none_ne_some : {h : Handling} → ¬ (none ≡ some h)
    none_ne_some e = cc
