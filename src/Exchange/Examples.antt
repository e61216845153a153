-- ===== src/Exchange/Examples.antt =====
-- The theorems on client and server together, for a client called "ab".
use operating_systems_fa.Common.{
  List, [], arith, none, pos, refl, replicate, some, true, ◌++◌, ◌+◌, ◌∷◌, ◌≡◌,
}
use operating_systems_fa.Common.Text.{codes, c_string, put_over}
use operating_systems_fa.Fifo.Transactions.{Transaction}
use operating_systems_fa.Client.{name_message, output_file_name}
use operating_systems_fa.Client.Session.{Session, next, turn}
use operating_systems_fa.Client.Session.Done.{work_line, answering, after_reply}
use operating_systems_fa.Server.{Bytes, Client, Server, no_bytes, no_ids, no_clients, set_up}
use operating_systems_fa.Server.Print.{name_of}
use operating_systems_fa.Server.Receive.{take_message}
use operating_systems_fa.Server.Handler.{answered, connection_handler}
use operating_systems_fa.Server.Table.{set_up-Table}
use operating_systems_fa.Exchange.{exchange, introduction}

abbrev storage : List Transaction
storage = []

abbrev ab : Client
ab = record { clientname = codes "ab" ++ 0 ∷ []; tran_count = 0 }

abbrev server : Server
server = record (set_up storage 3) { clients = ab ∷ []; client_ids = some 0 ∷ []; client_count = 1 }

abbrev fresh : Session
fresh = record { recv_buff = replicate 1024 0; work_count = 0; log = []; sent = [] }

abbrev t1 : Transaction
t1 = record { count = 0 + 1; client_fd = 0; work = pos 5 }

exchange_example :
    (served : Server) × (after : Server) × (message : Bytes) × (take_message 0 20
        (some (work_line 5 ++ 0 ∷ []))
        server
      ≡ some (served, some t1))
    × (connection_handler 40 true t1 served ≡ some (answered message after))
    × (turn (answering 10 50 (message ++ 0 ∷ [])) (work_line 5) fresh
        ≡ some (
            next
              (after_reply 10 50 5 (0 + 1) (put_over (message ++ 0 ∷ []) fresh.recv_buff) fresh)))
unfolding set_up no_bytes c_string
exchange_example =
    exchange 0 20 0 5 ab (codes "ab") server 10 50 40 fresh refl refl refl refl refl (omega arith)
      (omega arith)

introduction_example :
    (filename : Bytes) × (message : Bytes) × (s' : Server) × (output_file_name (codes "host") 123
      ≡ some filename)
    × (name_message filename ≡ some message)
    × (take_message 4 10 (some (message ++ 0 ∷ [])) (set_up storage 3) ≡ some (s', none))
    × (name_of 4 s' ≡ some filename)
unfolding set_up no_bytes no_ids no_clients
introduction_example =
    introduction (codes "host") 123 4 10 (set_up storage 3) refl (omega arith) (omega arith)
      (set_up-Table storage 3) refl (omega arith) refl
