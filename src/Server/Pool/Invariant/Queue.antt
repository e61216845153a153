-- ===== src/Server/Pool/Invariant/Queue.antt =====
-- The steps of A3/server.c that change the queue keep the invariant.
use operating_systems_fa.Common.{
  Bool, List, [], ap, arith, dec_lt, false, if◌then◌else◌, length, length-append, refl, some,
  some-inj, sym, true, ℕ, ◌++◌, ◌+◌, ◌<◌, ◌∙◌, ◌∷◌, ◌≡◌,
}
use mathlib.Core.List.{append_assoc}
use mathlib.Core.Path.{subst}
use operating_systems_fa.Common.Family.{change}
use operating_systems_fa.Fifo.{Fifo}
use operating_systems_fa.Fifo.Holds.{stored_in, stored_in-Holds, advanced-Holds}
use operating_systems_fa.Fifo.Transactions.{Transaction, dequeue, dequeue-front, dequeue-empty}
use operating_systems_fa.Server.{Server}
use operating_systems_fa.Server.Messages.{store-room, store-full}
use operating_systems_fa.Server.Receive.{store}
use operating_systems_fa.Server.Table.{SameTable-Table}
use operating_systems_fa.Server.Pool.{woken, garbage, handling, signalling, storing, System}
use operating_systems_fa.Server.Pool.Counting.{woken_count-change, woken_count-le}
use operating_systems_fa.Server.Pool.Invariant.{pending, signal_due, Inv, worker-Inv}

-- `enqueue`, at a queue that has room and at one that has none.
abbrev pub after_store : System → Transaction → Bool × Server → System
after_store s t (stored, server) = record s {
  server = server;
  main = signalling;
  accepted = if stored then s.accepted ++ t ∷ [] else s.accepted;
  dropped = if stored then s.dropped else s.dropped + 1;
}

module _ {spurious : Bool} {n : ℕ} {s : System} {q : List Transaction} (t : Transaction)
    (inv : Inv spurious n s q) where
  room-Inv :
      s.main ≡ storing t
      → length q < s.server.queue.size
      → Inv spurious n
          (after_store s t (true, record s.server { queue = stored_in s.server.queue t }))
          (q ++ t ∷ [])
  room-Inv at room = record {
    table =
        SameTable-Table
          (record {
            clients = refl;
            client_ids = refl;
            client_count = refl;
            transaction_count = refl;
          })
          inv.table;
    holds = stored_in-Holds inv.holds t room;
    size = inv.size;
    order = ap (λ l. l ++ t ∷ []) inv.order ∙ append_assoc s.taken q (t ∷ []);
    conserved = omega (arith, inv.conserved, ap pending at, length-append s.accepted (t ∷ []));
    enough = λ calm. omega (arith, inv.enough calm, ap signal_due at, length-append q (t ∷ []));
  }

  full-Inv :
      n < 100
      → s.main ≡ storing t
      → length q ≡ s.server.queue.size
      → Inv spurious n (after_store s t (false, s.server)) q
  full-Inv few at full = record {
    table = inv.table;
    holds = inv.holds;
    size = inv.size;
    order = inv.order;
    conserved = omega (arith, inv.conserved, ap pending at);
    enough = λ calm. omega (arith, inv.size, full, woken_count-le n s.worker);
  }

  pub stores-Inv :
      {result : Bool × Server}
      → n < 100
      → s.main ≡ storing t
      → store t s.server ≡ some result
      → (r : List Transaction) × Inv spurious n (after_store s t result) r
  stores-Inv {result} few at e = elim (dec_lt (length q) s.server.queue.size) [
    | yes room ↦
        let same = sym (store-room t inv.holds room) ∙ e in
        (
          q ++ t ∷ [],
          subst (λ p. Inv spurious n (after_store s t p) (q ++ t ∷ [])) (some-inj same)
              (room-Inv at room),
        )
    | no more ↦
        let full : length q ≡ s.server.queue.size = omega (arith, inv.holds.fits) in
        let same = sym (store-full t inv.holds full) ∙ e in
        (
          q,
          subst (λ p. Inv spurious n (after_store s t p) q) (some-inj same) (full-Inv few at full),
        )
  ]

-- What `dequeue` gives, by what the queue holds.
abbrev pub after_dequeue : System → ℕ → Bool × Transaction × Fifo Transaction → System
after_dequeue s i (true, t, f) = record s {
  server = record s.server { queue = f };
  worker = change s.worker i (handling t);
  taken = s.taken ++ t ∷ [];
}
after_dequeue s i (false, t, f) = record s {
  server = record s.server { queue = f };
  worker = change s.worker i garbage;
}

pub dequeues-Inv :
    {spurious : Bool} {n : ℕ} {s : System} (q : List Transaction) (i : ℕ) (unset : Transaction)
    {result : Bool × Transaction × Fifo Transaction}
    → Inv spurious n s q
    → i < n
    → s.worker i ≡ woken
    → dequeue unset s.server.queue ≡ some result
    → (r : List Transaction) × Inv spurious n (after_dequeue s i result) r
dequeues-Inv {spurious} {n} {s} [] i unset inv lt at e =
    let same = some-inj (sym (dequeue-empty unset inv.holds) ∙ e) in
    (
      [],
      subst (λ p. Inv spurious n (after_dequeue s i p) []) same
          (worker-Inv inv i garbage lt at (λ calm. omega arith)),
    )
dequeues-Inv {spurious} {n} {s} (t ∷ q) i unset inv lt at e =
    let same = some-inj (sym (dequeue-front unset inv.holds) ∙ e) in
    (
      q,
      subst (λ p. Inv spurious n (after_dequeue s i p) q) same
          (record {
            table =
                SameTable-Table
                  (record {
                    clients = refl;
                    client_ids = refl;
                    client_count = refl;
                    transaction_count = refl;
                  })
                  inv.table;
            holds = advanced-Holds inv.holds;
            size = inv.size;
            order = inv.order ∙ sym (append_assoc s.taken (t ∷ []) q);
            conserved = inv.conserved;
            enough = λ calm.
                omega (arith, inv.enough calm, woken_count-change n s.worker i (handling t) lt at);
          }),
    )
