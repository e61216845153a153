-- ===== src/Prodcon/System/Alone.antt =====
-- A2/prodcon.c with no consumers, as for an argument that is no number.
use operating_systems_fa.Common.{List, [], ap, arith, refl, sym, true, ℕ, ℤ, ◌∙◌, ◌≡◌, ◌≢◌}
use mathlib.Core.Path.{subst}
use operating_systems_fa.Fifo.{fifo_full, fifo_init}
use operating_systems_fa.Prodcon.Input.{works}
use operating_systems_fa.Prodcon.Threads.{Shared, Producer, Produce}
use operating_systems_fa.Prodcon.System.{
  System, start, Step, producer_moves, consumer_moves, joined, spurious, spurious_producer, Reach,
  here, later,
}
use operating_systems_fa.Prodcon.System.Tally.{pending, planned, Produce-planned}

-- Where the producer can come to: not behind its test for room, and behind its loop only when the
-- input is used up.
abbrev PlaceFact : Shared → Producer → Type 0
PlaceFact m (Producer.storing k) = ⊥
PlaceFact m Producer.notifying = ⊥
PlaceFact m Producer.unlocking = ⊥
PlaceFact m Producer.ending = m.input ≡ []
PlaceFact m Producer.signalling = m.input ≡ []
PlaceFact m Producer.joining = m.input ≡ []
PlaceFact m Producer.finished = m.input ≡ []
PlaceFact m _ = Unit

record Alone (all : List ℤ) (m : Shared) (p : Producer) : Type 0 where
  full : fifo_full m.queue ≡ true
  nothing : m.produced ≡ []
  plan : planned m p ≡ all
  place : PlaceFact m p

module _ {all : List ℤ} where
  Produce-Alone :
      {m m' : Shared} {p p' : Producer} → Produce 0 m p m' p' → Alone all m p → Alone all m' p'
  Produce-Alone mv al = record {
    full = still_full mv al.full al.place;
    nothing = nothing_yet mv al.nothing al.place;
    plan = Produce-planned mv ∙ al.plan;
    place = next_place mv al.full al.place;
  }
    where
      still_full :
          {m m' : Shared} {p p' : Producer}
          → Produce 0 m p m' p'
          → fifo_full m.queue ≡ true
          → PlaceFact m p
          → fifo_full m'.queue ≡ true
      still_full (Produce.store e) full at = absurd at
      still_full _ full at = full

      nothing_yet :
          {m m' : Shared} {p p' : Producer}
          → Produce 0 m p m' p'
          → m.produced ≡ []
          → PlaceFact m p
          → m'.produced ≡ []
      nothing_yet (Produce.store e) nothing at = absurd at
      nothing_yet _ nothing at = nothing

      next_place :
          {m m' : Shared} {p p' : Producer}
          → Produce 0 m p m' p'
          → fifo_full m.queue ≡ true
          → PlaceFact m p
          → PlaceFact m' p'
      next_place (Produce.room e) full at = cc
      next_place (Produce.store e) full at = absurd at
      next_place Produce.broadcast full at = absurd at
      next_place Produce.unlock full at = absurd at
      next_place (Produce.read_sleep e c) full at = tt
      next_place (Produce.read_work e c) full at = tt
      next_place (Produce.lock o) full at = tt
      next_place (Produce.wait e) full at = tt
      next_place (Produce.wake a o) full at = tt
      next_place (Produce.end_of_file e) full at = e
      next_place Produce.set_end full at = at
      next_place (Produce.signal s) full at = at

  Step-Alone :
      {s t : System} → Step 0 s t → Alone all s.shared s.producer → Alone all t.shared t.producer
  Step-Alone (producer_moves mv) al = Produce-Alone mv al
  Step-Alone (consumer_moves i lt mv) al = absurd (omega arith)
  Step-Alone {s} (joined at gone) al = record {
    full = al.full;
    nothing = al.nothing;
    plan = ap (λ p. planned s.shared p) (sym at) ∙ al.plan;
    place = subst (PlaceFact s.shared) at al.place;
  }
  Step-Alone (spurious i) al = record {
    full = al.full;
    nothing = al.nothing;
    plan = al.plan;
    place = al.place;
  }
  Step-Alone spurious_producer al = record {
    full = al.full;
    nothing = al.nothing;
    plan = al.plan;
    place = al.place;
  }

Reach-Alone :
    (storage : List ℤ) (input : List (List ℕ)) {s : System}
    → Reach 0 (start 0 storage input) s
    → Alone (works input) s.shared s.producer
unfolding start fifo_init fifo_full
Reach-Alone storage input here = record { full = refl; nothing = refl; plan = refl; place = tt }
Reach-Alone storage input (later r st) = Step-Alone st (Reach-Alone storage input r)

-- Behind the loop all has been read and nothing is left.
nothing_left :
    {all : List ℤ} {m : Shared} {p : Producer}
    → Alone all m p
    → pending p ≡ []
    → m.input ≡ []
    → all ≡ []
unfolding works
nothing_left {m} {p} al none_pending used_up = sym al.plan ∙ gone
  where
    gone : planned m p ≡ []
    gone = rw (al.nothing, none_pending, used_up) refl

-- Without consumers, on an input with some work: in every reachable state, spurious wakeups or not,
-- the producer has handed out nothing, and the program has not ended and never comes to wait for
-- the end of its threads.
pub no_threads-never_done :
    (storage : List ℤ) (input : List (List ℕ)) {s : System}
    → works input ≢ []
    → Reach 0 (start 0 storage input) s
    → (s.shared.produced ≡ []) × (s.producer ≢ Producer.joining) × (s.producer ≢ Producer.finished)
no_threads-never_done storage input {s} some_work r =
    let al = Reach-Alone storage input r in
    (
      al.nothing,
      (λ e. some_work (nothing_left al (ap pending e) (subst (PlaceFact s.shared) e al.place))),
      (λ e. some_work (nothing_left al (ap pending e) (subst (PlaceFact s.shared) e al.place))),
    )
