-- ===== src/Server/Receive/Registration.antt =====
-- The message with which a client gives its name.
use operating_systems_fa.Common.{
  Option, ap, arith, get_elem?, get_elem?-lt, get_elem?-set_ne, get_elem?-set_self, length,
  length-append, none, refl, set, some, sym, true, ℕ, ◌++◌, ◌<◌, ◌>>=◌, ◌∙◌, ◌∷◌, ◌≡◌, ◌≢◌,
}
use operating_systems_fa.Common.Text.{c_string, behind_first, no_nul}
use operating_systems_fa.Server.{Bytes, Client, Server}
use operating_systems_fa.Server.Print.{name_of}
use operating_systems_fa.Server.Receive.{
  take, handle_message, name_message, add_client, take_message,
}
use operating_systems_fa.Server.Receive.Buffer.{
  received, take_message-received, first-put_over, behind-put_over, c_string-put_copy,
  length-behind_first,
}
use operating_systems_fa.Server.Table.{Table, entered}

name_of-entered_self :
    (i : ℕ) (c : Client) (s : Server)
    → i < length s.client_ids
    → s.client_count < length s.clients
    → name_of i (entered i c s) ≡ c_string c.clientname
unfolding name_of
name_of-entered_self i c s lt room =
    rw
      (
        get_elem?-set_self s.client_ids i (some s.client_count) lt,
        get_elem?-set_self s.clients s.client_count c room,
      )
      refl

name_of-entered_ne :
    (i j : ℕ) (c : Client) (s : Server) → Table s → j ≢ i → name_of j (entered i c s) ≡ name_of j s
unfolding name_of
name_of-entered_ne i j c s table other =
    rw (get_elem?-set_ne s.client_ids (some s.client_count) (λ e. other (sym e)))
      (known_name (get_elem? s.client_ids j) (λ k e. table.known j k e))
  where
    known_name :
        (id : Option (Option ℕ))
        → ((k : ℕ) → id ≡ some (some k) → k < s.client_count)
        → (do
          id' ← id
          k ← id'
          client ← get_elem? (set s.clients s.client_count c) k
          c_string client.clientname)
          ≡ (do id' ← id; k ← id'; client ← get_elem? s.clients k; c_string client.clientname)
    known_name none known = refl
    known_name (some none) known = refl
    known_name (some (some k)) known =
        let apart : s.client_count ≢ k = λ e. omega (arith, e, known k refl) in
        rw (get_elem?-set_ne s.clients c apart) refl

-- A connection that has no name yet and sends one of fewer than 100 bytes with its NUL has that
-- name from then on, and the other connections keep theirs, while the array has room; whatever
-- `read` returns behind the NUL is lost, a transaction too.
pub take_message-registration :
    (i now : ℕ) (name more : Bytes) (s : Server)
    → Table s
    → get_elem? s.client_ids i ≡ some none
    → s.client_count < length s.clients
    → no_nul name ≡ true
    → length name < 100
    → length (b'N' ∷ (name ++ 0 ∷ more)) < length s.recv_buff
    → (s' : Server) × (take_message i now (some (b'N' ∷ (name ++ 0 ∷ more))) s ≡ some (s', none))
      × (name_of i s' ≡ some name)
      × ((j : ℕ) → j ≢ i → name_of j s' ≡ name_of j s)
unfolding handle_message name_message add_client name_of
take_message-registration i now name more s table unnamed room clean short fits =
    let rest = name ++ 0 ∷ more in
    let r = received (b'N' ∷ rest) s in
    let c : Client = record { clientname = take 100 (behind_first r.recv_buff); tran_count = 0 } in
    let some_room : 0 < length s.recv_buff = omega (arith, fits) in
    let inside = get_elem?-lt s.client_ids i unnamed in
    (
      entered i c r,
      take_message-received i now (b'N' ∷ rest) s fits
          ∙ ground (
            arith,
            first-put_over b'N' rest s.recv_buff (length rest) some_room,
            unnamed,
            room,
            inside,
          ),
      name_of-entered_self i c r inside room
          ∙ ap (λ l. c_string (take 100 l))
              (behind-put_over b'N' rest s.recv_buff (length rest) some_room)
          ∙ c_string-put_copy name more (behind_first s.recv_buff) (length rest) 100 clean
              (omega (arith, length-append name (0 ∷ more)))
              (omega (
                arith,
                fits,
                length-append name (0 ∷ more),
                length-behind_first s.recv_buff some_room,
              ))
              short,
      λ j other.
          name_of-entered_ne i j c r
            (record {
              known = table.known;
              apart = table.apart;
              room = table.room;
              summed = table.summed;
            })
            other,
    )
