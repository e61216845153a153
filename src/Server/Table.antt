-- ===== src/Server/Table.antt =====
-- The clients of A3/server.c: which entry of `clients` each connection has, and what their
-- counters add up to.
use operating_systems_fa.Common.{
  List, Option, [], ap, arith, get_elem?, get_elem?-set, inl, inr, length, length-set, none, refl,
  replicate, set, some, suc, sym, zero, ℕ, ◌+◌, ◌<◌, ◌∙◌, ◌∷◌, ◌≡◌, ◌≢◌, ◌≤◌, ◌⊎◌,
}
use operating_systems_fa.Server.{Client, Server, no_ids, set_up}
use operating_systems_fa.Fifo.Transactions.{Transaction}

-- The transactions of the first `n` clients.
unfoldable pub sum_first : ℕ → List Client → ℕ
sum_first zero clients = 0
sum_first (suc n) [] = 0
sum_first (suc n) (c ∷ clients) = c.tran_count + sum_first n clients

pub sum_first-set :
    (n : ℕ) (clients : List Client) (k : ℕ) {c : Client} (d : Client)
    → k < n
    → get_elem? clients k ≡ some c
    → sum_first n (set clients k d) + c.tran_count ≡ sum_first n clients + d.tran_count
unfolding sum_first
sum_first-set zero clients k d lt at = absurd (omega arith)
sum_first-set (suc n) [] k d lt at = cc
sum_first-set (suc n) (x ∷ clients) zero d lt at = ground arith
sum_first-set (suc n) (x ∷ clients) (suc k) d lt at =
    omega (arith, sum_first-set n clients k d (omega arith) at)

pub sum_first-next :
    (n : ℕ) (clients : List Client) (d : Client)
    → n < length clients
    → sum_first (suc n) (set clients n d) ≡ sum_first n clients + d.tran_count
unfolding sum_first
sum_first-next n [] d lt = absurd (omega arith)
sum_first-next zero (x ∷ clients) d lt = omega arith
sum_first-next (suc n) (x ∷ clients) d lt = omega (arith, sum_first-next n clients d (omega arith))

-- Each connection that has given its name has an entry of its own, below `client_count`; and the
-- counters of the entries add up to `transaction_count`.
pub record Table (s : Server) : Type 0 where
  pub known : (i k : ℕ) → get_elem? s.client_ids i ≡ some (some k) → k < s.client_count
  pub apart :
      (i j k : ℕ)
      → get_elem? s.client_ids i ≡ some (some k)
      → get_elem? s.client_ids j ≡ some (some k)
      → i ≡ j
  pub room : s.client_count ≤ length s.clients
  pub summed : sum_first s.client_count s.clients ≡ s.transaction_count

-- The parts of the state that `Table` reads.
pub record SameTable (s s' : Server) : Type 0 where
  pub clients : s'.clients ≡ s.clients
  pub client_ids : s'.client_ids ≡ s.client_ids
  pub client_count : s'.client_count ≡ s.client_count
  pub transaction_count : s'.transaction_count ≡ s.transaction_count

pub SameTable-Table : {s s' : Server} → SameTable s s' → Table s → Table s'
SameTable-Table same table = record {
  known = λ i k at. rw same.client_count (table.known i k (rw (← same.client_ids) at));
  apart =
      λ i j k at at'. table.apart i j k (rw (← same.client_ids) at) (rw (← same.client_ids) at');
  room = rw (same.clients, same.client_count) table.room;
  summed = rw (same.clients, same.client_count, same.transaction_count) table.summed;
}

-- The state when a connection has lost its entry, when one has got the next entry, and when a
-- transaction of entry `k` has been counted.
abbrev pub forgotten : ℕ → Server → Server
forgotten i s = record s { client_ids = set s.client_ids i none }

abbrev pub entered : ℕ → Client → Server → Server
entered i c s = record s {
  clients = set s.clients s.client_count c;
  client_ids = set s.client_ids i (some s.client_count);
  client_count = s.client_count + 1;
}

abbrev pub counted : ℕ → Client → Server → Server
counted k c s = record s {
  clients = set s.clients k (record c { tran_count = c.tran_count + 1 });
  transaction_count = s.transaction_count + 1;
}

module _ {s : Server} (table : Table s) where
  kept_id :
      (i j k : ℕ)
      → get_elem? (set s.client_ids i none) j ≡ some (some k)
      → get_elem? s.client_ids j ≡ some (some k)
  kept_id i j k at = elim (get_elem?-set s.client_ids i none j at) [
    | inl (_, same) ↦ absurd (cc)
    | inr (_, before) ↦ before
  ]

  pub forgotten-Table : (i : ℕ) → Table (forgotten i s)
  forgotten-Table i = record {
    known = λ j k at. table.known j k (kept_id i j k at);
    apart = λ j j' k at at'. table.apart j j' k (kept_id i j k at) (kept_id i j' k at');
    room = table.room;
    summed = table.summed;
  }

  -- The entry of a connection after a new one has been made.
  entered_id :
      (i j k : ℕ)
      → get_elem? (set s.client_ids i (some s.client_count)) j ≡ some (some k)
      → ((j ≡ i) × (k ≡ s.client_count)) ⊎ (get_elem? s.client_ids j ≡ some (some k))
  entered_id i j k at = elim (get_elem?-set s.client_ids i (some s.client_count) j at) [
    | inl (here, same) ↦ inl (here, cc)
    | inr (_, before) ↦ inr before
  ]

  pub entered-Table :
      (i : ℕ) (c : Client)
      → s.client_count < length s.clients
      → c.tran_count ≡ 0
      → Table (entered i c s)
  entered-Table i c lt fresh = record {
    known = λ j k at. elim (entered_id i j k at) [
      | inl (_, new) ↦ omega arith
      | inr before ↦ omega (arith, table.known j k before)
    ];
    apart = λ j j' k at at'. elim (entered_id i j k at) [
      | inl (here, new) ↦ elim (entered_id i j' k at') [
        | inl (here', _) ↦ here ∙ sym here'
        | inr before ↦ absurd (omega (arith, table.known j' k before))
      ]
      | inr before ↦ elim (entered_id i j' k at') [
        | inl (_, new) ↦ absurd (omega (arith, table.known j k before))
        | inr before' ↦ table.apart j j' k before before'
      ]
    ];
    room = omega (arith, length-set s.clients s.client_count c);
    summed =
        let step : suc s.client_count ≡ s.client_count + 1 = omega arith in
        ap (λ n. sum_first n (set s.clients s.client_count c)) (sym step)
        ∙ omega (arith, sum_first-next s.client_count s.clients c lt, table.summed);
  }

  pub counted-Table :
      (i k : ℕ) (c : Client)
      → get_elem? s.client_ids i ≡ some (some k)
      → get_elem? s.clients k ≡ some c
      → Table (counted k c s)
  counted-Table i k c at found = record {
    known = table.known;
    apart = table.apart;
    room =
        omega
          (arith, table.room, length-set s.clients k (record c { tran_count = c.tran_count + 1 }));
    summed = omega (
      arith,
      table.summed,
      sum_first-set s.client_count s.clients k (record c { tran_count = c.tran_count + 1 })
          (table.known i k at) found,
    );
  }

-- Without clients.
none-replicate : (n i k : ℕ) → get_elem? {A = Option ℕ} (replicate n none) i ≢ some (some k)
none-replicate zero i k e = cc
none-replicate (suc n) zero k e = cc
none-replicate (suc n) (suc i) k e = none-replicate n i k e

no_ids-none : (i k : ℕ) → get_elem? no_ids i ≢ some (some k)
unfolding no_ids
no_ids-none i k = none-replicate 1000 i k

pub set_up-Table : (storage : List Transaction) (server_fd : ℕ) → Table (set_up storage server_fd)
unfolding set_up sum_first
set_up-Table storage server_fd = record {
  known = λ i k at. absurd (no_ids-none i k at);
  apart = λ i j k at at'. absurd (no_ids-none i k at);
  room = omega arith;
  summed = refl;
}
