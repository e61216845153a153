-- ===== src/Prodcon/Examples.antt =====
-- Tests of prodcon.c, and its theorems at a run over the lines "S5" and "T3".
use operating_systems_fa.Common.{
  List, [], arith, length, negsuc, pos, refl, replicate, some, suc, sym, true, zero, ℕ, ℤ, ◌*◌,
  ◌++◌, ◌+◌, ◌<◌, ◌∙◌, ◌∷◌, ◌≡◌, ◌≢◌, ◌≤◌, ◌⊎◌,
}
use operating_systems_fa.Fifo.{fifo_init, fifo_full, fifo_empty, enqueue, advance}
use operating_systems_fa.Fifo.Holds.{Holds}
use operating_systems_fa.Fifo.Works.{dequeue}
use operating_systems_fa.Common.Atoi.{atoi}
use operating_systems_fa.Prodcon.Input.{check_input, works, rejected}
use operating_systems_fa.Prodcon.Message
use operating_systems_fa.Common.Family.{change}
use operating_systems_fa.Prodcon.Threads.{Producer, Consumer, Produce, Consume, nobody}
use operating_systems_fa.Prodcon.Message.{no_output}
use operating_systems_fa.Common.Decimal.{decimal, decimal_ℤ}
use operating_systems_fa.Prodcon.Summary.{thread_line, thread_head, thread_gap}
use operating_systems_fa.Prodcon.System.{
  System, start, producer_moves, consumer_moves, joined, Reach, here, later,
}
use operating_systems_fa.Prodcon.System.Runs.{produce, consume}
use operating_systems_fa.Prodcon.System.Tally.{counter}
use operating_systems_fa.Prodcon.System.Safety.{received_in_order, all_work_done}
use operating_systems_fa.Prodcon.System.Alone.{no_threads-never_done}
use operating_systems_fa.Prodcon.Startup.{startup, runs, second, meant_name, startup-junk}
use operating_systems_fa.Common.Text.{codes, c_string}
use operating_systems_fa.Prodcon.System.Progress.{Rest, progress}
use operating_systems_fa.Prodcon.System.Progress.Steps.{Moves}
use operating_systems_fa.Prodcon.System.Termination.Bounded.{Run, stay, next, Run-bounded}
use operating_systems_fa.Prodcon.System.Deadlock.{IsDeadlocked, lost_wakeup}

abbrev lines : List (List ℕ)
lines = (b'S' ∷ b'5' ∷ 10 ∷ []) ∷ (b'T' ∷ b'3' ∷ 10 ∷ []) ∷ []

abbrev storage : List ℤ
storage = pos 0 ∷ pos 0 ∷ []

atoi-examples :
    (atoi (32 ∷ b'-' ∷ b'1' ∷ b'2' ∷ 10 ∷ []) ≡ negsuc 11)
    × (check_input (b'T' ∷ b'0' ∷ []) ≡ rejected)
    × (check_input (b'X' ∷ b'1' ∷ []) ≡ rejected)
unfolding atoi check_input
atoi-examples = (refl, refl, refl)

works-lines : works lines ≡ pos 3 ∷ []
unfolding works check_input
works-lines = refl

only_one : (f : ℕ → Consumer) (c : Consumer) (i : ℕ) → i < 1 → change f 0 c i ≡ c
only_one f c zero below = refl
only_one f c (suc i) below = absurd (omega arith)

-- A whole run.
run : (s : System) × Reach 1 (start 1 storage lines) s × (s.producer ≡ Producer.finished)
unfolding start fifo_init fifo_full fifo_empty enqueue advance dequeue check_input
run =
    let r0 : Reach 1 (start 1 storage lines) (start 1 storage lines) = here in
    let r1 = produce r0 (Produce.read_sleep refl refl) in
    let r2 = produce r1 (Produce.read_work refl refl) in
    let r3 = produce r2 (Produce.lock refl) in
    let r4 = produce r3 (Produce.room refl) in
    let r5 = produce r4 (Produce.store refl) in
    let r6 = produce r5 Produce.broadcast in
    let r7 = produce r6 Produce.unlock in
    let r8 = consume refl r7 Consume.ask in
    let r9 = consume refl r8 (Consume.lock refl) in
    let r10 = consume refl r9 (Consume.something refl) in
    let r11 = consume refl r10 (Consume.take refl) in
    let r12 = consume refl r11 Consume.notify in
    let r13 = consume refl r12 Consume.unlock in
    let r14 = consume refl r13 (Consume.complete refl) in
    let r15 = produce r14 (Produce.end_of_file refl) in
    let r16 = produce r15 Produce.set_end in
    let r17 = produce r16 (Produce.signal (nobody (λ i below. refl))) in
    let r18 = consume refl r17 Consume.ask in
    let r19 = consume refl r18 (Consume.lock refl) in
    let r20 = consume refl r19 (Consume.nothing refl) in
    let r21 = consume refl r20 (Consume.over refl) in
    let r22 = consume refl r21 Consume.leave in
    let r23 = consume refl r22 (Consume.signal (nobody (λ i below. refl))) in
    (_, later r23 (joined refl (only_one _ Consumer.exited)), refl)

-- The consumer is inside its critical section, about to take the work.
halfway : (s : System) × Reach 1 (start 1 storage lines) s × (s.consumer 0 ≡ Consumer.taking)
unfolding start fifo_init fifo_full fifo_empty enqueue advance check_input
halfway =
    let r0 : Reach 1 (start 1 storage lines) (start 1 storage lines) = here in
    let r1 = produce r0 (Produce.read_sleep refl refl) in
    let r2 = produce r1 (Produce.read_work refl refl) in
    let r3 = produce r2 (Produce.lock refl) in
    let r4 = produce r3 (Produce.room refl) in
    let r5 = produce r4 (Produce.store refl) in
    let r6 = produce r5 Produce.broadcast in
    let r7 = produce r6 Produce.unlock in
    let r8 = consume refl r7 Consume.ask in
    let r9 = consume refl r8 (Consume.lock refl) in
    (_, consume refl r9 (Consume.something refl), refl)

all_work_done_example :
    (run.0.shared.received ≡ works lines)
    × (counter Message.work run.0.shared ≡ length (works lines))
    × (counter Message.receive run.0.shared ≡ length (works lines))
    × (counter Message.complete run.0.shared ≡ length (works lines))
all_work_done_example = all_work_done storage lines (omega arith) (omega arith) run.1 run.2

received_in_order_example :
    (q rest : List ℤ) × Holds halfway.0.shared.queue q
    × (halfway.0.shared.received ++ (q ++ rest) ≡ works lines)
received_in_order_example = received_in_order storage lines (omega arith) (omega arith) halfway.1

lost_wakeup_example : (s : System) × Reach 1 (start 1 storage lines) s × IsDeadlocked s
unfolding check_input
lost_wakeup_example = lost_wakeup storage lines (omega arith) (tt, (refl, tt))

-- "    Thread  10    0" and "    Thread  9     12", with newlines.
thread_line-examples :
    (thread_line 9 0
      ≡ replicate 4 32
        ++ (b'T' ∷ b'h' ∷ b'r' ∷ b'e' ∷ b'a' ∷ b'd' ∷ 32 ∷ 32 ∷ b'1' ∷ b'0' ∷ replicate 4 32)
        ++ (b'0' ∷ 10 ∷ []))
    × (thread_line 8 12
        ≡ replicate 4 32
          ++ (b'T' ∷ b'h' ∷ b'r' ∷ b'e' ∷ b'a' ∷ b'd' ∷ 32 ∷ 32 ∷ b'9' ∷ replicate 5 32)
          ++ (b'1' ∷ b'2' ∷ 10 ∷ []))
unfolding thread_line thread_head decimal thread_gap
thread_line-examples = (refl, refl)

-- The producer reads its two lines and takes the mutex while the consumer asks for work.
first_steps : (s : System) × Run 1 (start 1 storage lines) 4 s
unfolding start fifo_init check_input
first_steps =
    let r0 : Run 1 (start 1 storage lines) 0 (start 1 storage lines) = stay in
    let r1 = next r0 (producer_moves (Produce.read_sleep refl refl)) (λ spurious. spurious) in
    let r2 = next r1 (producer_moves (Produce.read_work refl refl)) (λ spurious. spurious) in
    let r3 = next r2 (consumer_moves 0 (omega arith) Consume.ask) (λ spurious. spurious) in
    (_, next r3 (producer_moves (Produce.lock refl)) (λ spurious. spurious))

Run-bounded_example : ◌≤◌ 4 (length lines * (15 + 1 * 4) + 1 * 10 + 8)
Run-bounded_example = Run-bounded storage lines (omega arith) (omega arith) first_steps.1

-- Without consumers the producer reads its two lines and waits.
waits_alone : (s : System) × Reach 0 (start 0 [] lines) s × (s.producer ≡ Producer.waiting (pos 3))
unfolding start fifo_init fifo_full check_input
waits_alone =
    let r0 : Reach 0 (start 0 [] lines) (start 0 [] lines) = here in
    let r1 = later r0 (producer_moves (Produce.read_sleep refl refl)) in
    let r2 = later r1 (producer_moves (Produce.read_work refl refl)) in
    let r3 = later r2 (producer_moves (Produce.lock refl)) in
    (_, later r3 (producer_moves (Produce.wait refl)), refl)

no_threads-never_done_example :
    (waits_alone.0.shared.produced ≡ [])
    × (waits_alone.0.producer ≢ Producer.joining)
    × (waits_alone.0.producer ≢ Producer.finished)
no_threads-never_done_example =
    no_threads-never_done [] lines (λ e. absurd (cons_ne_nil (sym works-lines ∙ e))) waits_alone.1
  where
    cons_ne_nil : ◌≢◌ {A = List ℤ} (pos 3 ∷ []) []
    cons_ne_nil e = cc

-- "prodcon 2 7", where `malloc` gives zeros.
startup-junk_example :
    startup true (replicate 100 0) (codes "prodcon" ∷ codes "2" ∷ codes "7" ∷ [])
    ≡ some (runs 2 ([] ++ meant_name (second (codes "7" ∷ []))))
unfolding atoi c_string meant_name decimal_ℤ decimal
startup-junk_example =
    startup-junk (replicate 100 0) [] (codes "prodcon") (codes "2") (codes "7" ∷ []) 2 refl
      (omega arith) refl (omega arith)

progress_example : Moves 1 halfway.0 ⊎ Rest 1 halfway.0
progress_example = progress storage lines (omega arith) (omega arith) halfway.1

-- "T-30000" brings the only consumer to a call of `Trans` that is undefined.
abbrev too_much : List (List ℕ)
too_much = codes "T-30000\n" ∷ []

overflowing : (s : System) × Reach 1 (start 1 storage too_much) s × Rest 1 s
unfolding start fifo_init fifo_full fifo_empty enqueue advance dequeue atoi check_input
overflowing =
    let r0 : Reach 1 (start 1 storage too_much) (start 1 storage too_much) = here in
    let r1 = produce r0 (Produce.read_work refl refl) in
    let r2 = produce r1 (Produce.lock refl) in
    let r3 = produce r2 (Produce.room refl) in
    let r4 = produce r3 (Produce.store refl) in
    let r5 = produce r4 Produce.broadcast in
    let r6 = produce r5 Produce.unlock in
    let r7 = consume refl r6 Consume.ask in
    let r8 = consume refl r7 (Consume.lock refl) in
    let r9 = consume refl r8 (Consume.something refl) in
    let r10 = consume refl r9 (Consume.take refl) in
    let r11 = consume refl r10 Consume.notify in
    let r12 = consume refl r11 Consume.unlock in
    (_, r12, Rest.overflows 0 (omega arith) _ refl refl)
