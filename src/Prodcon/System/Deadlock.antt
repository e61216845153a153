-- ===== src/Prodcon/System/Deadlock.antt =====
-- The lost wake-up of A2/prodcon.c: `main` sets `end_of_input` and signals without holding
-- `count_mutex`, so the signal can come between a consumer's test of `end_of_input` and its wait.
use operating_systems_fa.Common.{
  List, [], arith, false, inl, inr, length, none, refl, suc, sym, true, zero, ℕ, ℤ, ◌<◌, ◌∙◌, ◌∷◌,
  ◌≡◌, ◌≢◌, ◌⊎◌,
}
use operating_systems_fa.Tands.{fits}
use operating_systems_fa.Fifo.{fifo_full}
use operating_systems_fa.Fifo.Holds.{
  Holds, init-Holds, full-test, empty-test, enqueue-room, stored_in, stored_in-Holds,
  advanced-Holds,
}
use operating_systems_fa.Fifo.Works.{dequeue-front}
use operating_systems_fa.Prodcon.Input.{Command, check_input, rejected, sleep, work}
use operating_systems_fa.Prodcon.Threads.{Shared, Producer, Consumer, Produce, Consume, nobody}
use operating_systems_fa.Prodcon.System.Runs.{system, produce, consume, Reach-trans}
use operating_systems_fa.Prodcon.System.{
  System, start, Step, producer_moves, consumer_moves, joined, spurious, spurious_producer, Reach,
  here,
}

-- No line ends the program with an error, and `Trans` can do the work of each.
abbrev pub CanDo : Command → Type 0
CanDo rejected = ⊥
CanDo (sleep k) = Unit
CanDo (work k) = fits k ≡ true

abbrev pub Accepted : List (List ℕ) → Type 0
Accepted [] = Unit
Accepted (line ∷ lines) = CanDo (check_input line) × Accepted lines

-- A step that no thread makes: the end of a wait that nobody signalled.
abbrev pub IsSpurious : {n : ℕ} {s t : System} → Step n s t → Type 0
IsSpurious (spurious i) = Unit
IsSpurious spurious_producer = Unit
IsSpurious _ = ⊥

-- `main` waits for the consumer to end, the consumer for a signal that nobody is left to send.
abbrev pub IsDeadlocked : System → Type 0
IsDeadlocked s =
    (s.producer ≡ Producer.joining)
    × (s.consumer 0 ≡ Consumer.waiting)
    × ((t : System) (st : Step 1 s t) → IsSpurious st)

joining-stays :
    {n : ℕ} {m m' : Shared} {p p' : Producer} → Produce n m p m' p' → p ≢ Producer.joining
joining-stays Produce.broadcast e = cc
joining-stays _ e = cc

waiting-awake :
    {n i : ℕ} {m m' : Shared} {c c' : Consumer}
    → Consume n i m c m' c'
    → c ≡ Consumer.waiting
    → m.asleep i ≡ false
waiting-awake (Consume.wake a o) e = a
waiting-awake _ e = absurd (cc)

false_ne_true : ¬ (false ≡ true)
false_ne_true e = cc

stuck :
    {s t : System}
    → s.producer ≡ Producer.joining
    → s.consumer 0 ≡ Consumer.waiting
    → s.shared.asleep 0 ≡ true
    → (st : Step 1 s t) → IsSpurious st
stuck p c a (producer_moves mv) = joining-stays mv p
stuck p c a (consumer_moves zero below mv) = absurd (false_ne_true (sym (waiting-awake mv c) ∙ a))
stuck p c a (consumer_moves (suc i) below mv) = absurd (omega arith)
stuck p c a (joined at exited) = let gone = exited 0 (omega arith) in cc
stuck p c a (spurious i) = tt
stuck p c a spurious_producer = tt

-- The only consumer is about to ask, and there is nothing to do.
record Quiet (m : Shared) (f : ℕ → Consumer) : Type 0 where
  holds : Holds m.queue []
  free : m.owner ≡ none
  not_over : m.end_of_input ≡ false
  awake : m.asleep 0 ≡ false
  idle : f 0 ≡ Consumer.asking

module _ {m : Shared} {f : ℕ → Consumer} (qt : Quiet m f) where
  open_queue : fifo_full m.queue ≡ false
  open_queue = ground (arith, full-test qt.holds, qt.holds.head_in)

  held : (k : ℤ) → Holds (stored_in m.queue k) (k ∷ [])
  held k = stored_in-Holds qt.holds k (omega (arith, qt.holds.head_in))

  -- One round of producer and consumer brings a line of work through.
  round :
      {line : List ℕ} (lines : List (List ℕ)) (k : ℤ)
      → m.input ≡ line ∷ lines
      → check_input line ≡ work k
      → fits k ≡ true
      → (m' : Shared) × (f' : ℕ → Consumer) × Reach 1
          (system m Producer.reading f)
          (system m' Producer.reading f')
        × Quiet m' f'
        × (m'.input ≡ lines)
  round lines k e c can =
      let r0 : Reach 1 (system m Producer.reading f) (system m Producer.reading f) = here in
      let r1 = produce r0 (Produce.read_work e c) in
      let r2 = produce r1 (Produce.lock qt.free) in
      let r3 = produce r2 (Produce.room open_queue) in
      let r4 =
        produce r3 (Produce.store (enqueue-room qt.holds k (omega (arith, qt.holds.head_in)))) in
      let r5 = produce r4 Produce.broadcast in
      let r6 = produce r5 Produce.unlock in
      let r7 = consume qt.idle r6 Consume.ask in
      let r8 = consume refl r7 (Consume.lock refl) in
      let r9 = consume refl r8 (Consume.something (empty-test (held k))) in
      let r10 = consume refl r9 (Consume.take (dequeue-front (held k))) in
      let r11 = consume refl r10 Consume.notify in
      let r12 = consume refl r11 Consume.unlock in
      let r13 = consume refl r12 (Consume.complete can) in
      (
        _,
        _,
        r13,
        record {
          holds = advanced-Holds (held k);
          free = refl;
          not_over = qt.not_over;
          awake = refl;
          idle = refl;
        },
        refl,
      )

  -- A line of sleep is read by the producer alone.
  pause :
      {line : List ℕ} (lines : List (List ℕ)) (k : ℤ)
      → m.input ≡ line ∷ lines
      → check_input line ≡ sleep k
      → (m' : Shared) × (f' : ℕ → Consumer) × Reach 1
          (system m Producer.reading f)
          (system m' Producer.reading f')
        × Quiet m' f'
        × (m'.input ≡ lines)
  pause lines k e c =
      let r0 : Reach 1 (system m Producer.reading f) (system m Producer.reading f) = here in
      (
        _,
        _,
        produce r0 (Produce.read_sleep e c),
        record {
          holds = qt.holds;
          free = qt.free;
          not_over = qt.not_over;
          awake = qt.awake;
          idle = qt.idle;
        },
        refl,
      )

  -- At the end of the input the signal comes between the test and the wait.
  miss_signal :
      m.input ≡ [] → (s : System) × Reach 1 (system m Producer.reading f) s × IsDeadlocked s
  miss_signal e =
      let r0 : Reach 1 (system m Producer.reading f) (system m Producer.reading f) = here in
      let r1 = consume qt.idle r0 Consume.ask in
      let r2 = consume refl r1 (Consume.lock qt.free) in
      let r3 = consume refl r2 (Consume.nothing (empty-test qt.holds)) in
      let r4 = consume refl r3 (Consume.not_over qt.not_over) in
      let r5 = produce r4 (Produce.end_of_file e) in
      let r6 = produce r5 Produce.set_end in
      let r7 = produce r6 (Produce.signal (nobody asleep_none)) in
      let r8 = consume refl r7 Consume.wait in
      (_, r8, (refl, refl, λ t st. stuck refl refl refl st))
    where
      asleep_none : (i : ℕ) → i < 1 → m.asleep i ≡ false
      asleep_none zero below = qt.awake
      asleep_none (suc i) below = absurd (omega arith)

Command-cases :
    (c : Command) → CanDo c → ((k : ℤ) × (c ≡ sleep k)) ⊎ ((k : ℤ) × (c ≡ work k) × (fits k ≡ true))
Command-cases rejected can = elim can [ ]
Command-cases (sleep k) can = inl (k, refl)
Command-cases (work k) can = inr (k, refl, can)

Quiet-deadlock :
    (lines : List (List ℕ)) {m : Shared} {f : ℕ → Consumer}
    → Accepted lines
    → Quiet m f
    → m.input ≡ lines
    → (s : System) × Reach 1 (system m Producer.reading f) s × IsDeadlocked s
Quiet-deadlock [] ok qt e = miss_signal qt e
Quiet-deadlock (line ∷ lines) (ok, oks) qt e = elim (Command-cases (check_input line) ok) [
  | inl (k, c) ↦
      let (m', f', r, qt', e') = pause qt lines k e c in
      let (s, r', dead) = Quiet-deadlock lines oks qt' e' in (s, Reach-trans r r', dead)
  | inr (k, c, can) ↦
      let (m', f', r, qt', e') = round qt lines k e c can in
      let (s, r', dead) = Quiet-deadlock lines oks qt' e' in (s, Reach-trans r r', dead)
]

-- With one consumer the program can hang on every input without an error and with work that `Trans`
-- can do, also on the empty one:
-- a state can be reached in which `main` joins a consumer that waits for a signal, and no thread
-- can make a step.
pub lost_wakeup :
    (storage : List ℤ) (input : List (List ℕ))
    → length storage ≡ 2
    → Accepted input
    → (s : System) × Reach 1 (start 1 storage input) s × IsDeadlocked s
unfolding start
lost_wakeup storage input e ok =
    Quiet-deadlock input ok
      (record {
        holds = init-Holds storage 2 (omega arith) e;
        free = refl;
        not_over = refl;
        awake = refl;
        idle = refl;
      })
      refl
