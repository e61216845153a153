-- ===== src/Prodcon/System/Runs.antt =====
-- Runs of the program with one consumer, step by step.
use operating_systems_fa.Common.{arith, sym, ℕ, ◌≡◌}
use mathlib.Core.Path.{subst}
use operating_systems_fa.Common.Family.{change}
use operating_systems_fa.Prodcon.Threads.{Shared, Producer, Consumer, Produce, Consume}
use operating_systems_fa.Prodcon.System.{System, producer_moves, consumer_moves, Reach, here, later}

abbrev pub system : Shared → Producer → (ℕ → Consumer) → System
system m p f = record { shared = m; producer = p; consumer = f }

module _ {s : System} {m m' : Shared} {p : Producer} {f : ℕ → Consumer} where
  pub produce :
      {p' : Producer} → Reach 1 s (system m p f) → Produce 1 m p m' p' → Reach 1 s (system m' p' f)
  produce r mv = later r (producer_moves mv)

  pub consume :
      {c c' : Consumer}
      → f 0 ≡ c
      → Reach 1 s (system m p f)
      → Consume 1 0 m c m' c'
      → Reach 1 s (system m' p (change f 0 c'))
  consume {c'} at r mv =
      later r (consumer_moves 0 (omega arith) (subst (λ d. Consume 1 0 m d m' c') (sym at) mv))

pub Reach-trans : {s t u : System} → Reach 1 s t → Reach 1 t u → Reach 1 s u
Reach-trans r here = r
Reach-trans r (later q st) = later (Reach-trans r q) st
