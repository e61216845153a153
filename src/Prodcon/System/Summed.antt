-- ===== src/Prodcon/System/Summed.antt =====
-- The counters of the threads in A2/prodcon.c, against the counter of completed work.
use operating_systems_fa.Common.{
  ==→eq, Bool-cases, List, arith, inl, inr, length, refl, suc, zero, ℕ, ℤ, ◌*◌, ◌+◌, ◌<◌, ◌==◌, ◌∙◌,
  ◌≡◌, ◌≤◌,
}
use operating_systems_fa.Prodcon.Input.{works}
use operating_systems_fa.Prodcon.Message.{Message, count_thread, print_message}
use operating_systems_fa.Prodcon.Summary.{print_summary}
use operating_systems_fa.Prodcon.Summary.Columns.{print_summary-total}
use operating_systems_fa.Common.Family.{total, total-eq-zero}
use operating_systems_fa.Prodcon.Threads.{Shared, Producer, Consumer, Produce, Consume}
use operating_systems_fa.Prodcon.System.{
  System, start, producer_moves, consumer_moves, joined, spurious, spurious_producer, Reach, here,
  later,
}
use operating_systems_fa.Prodcon.System.Tally.{counter}
use operating_systems_fa.Prodcon.System.Safety.{all_work_done}

abbrev threads_total : ℕ → (ℕ → ℕ) → ℕ
threads_total n stats = total (λ c. c) n stats

total-count_beyond :
    (n i : ℕ) (stats : ℕ → ℕ)
    → n ≤ i
    → threads_total n (count_thread stats Message.complete (i + 1)) ≡ threads_total n stats
unfolding total
total-count_beyond zero i stats h = refl
total-count_beyond (suc n) i stats h = ground (arith, total-count_beyond n i stats (omega arith))

total-count_thread :
    (n i : ℕ) (stats : ℕ → ℕ)
    → i < n
    → threads_total n (count_thread stats Message.complete (i + 1)) ≡ threads_total n stats + 1
unfolding total
total-count_thread zero i stats h = absurd (omega arith)
total-count_thread (suc n) i stats h = elim (Bool-cases (n == i)) [
  | inl e ↦ ground (arith, total-count_beyond n i stats (omega (arith, ==→eq n i e)))
  | inr e ↦ ground (arith, total-count_thread n i stats)
]

abbrev Agree : ℕ → Shared → Type 0
Agree n m = threads_total n m.output.thread_stats ≡ counter Message.complete m

Produce-Agree :
    {n : ℕ} {m m' : Shared} {p p' : Producer} → Produce n m p m' p' → Agree n m → Agree n m'
unfolding print_message
Produce-Agree (Produce.store e) agree = agree
Produce-Agree _ agree = agree

Consume-Agree :
    {n i : ℕ} {m m' : Shared} {c c' : Consumer}
    → Consume n i m c m' c'
    → i < n
    → Agree n m
    → Agree n m'
unfolding print_message
Consume-Agree {n} {i} {m} (Consume.complete can) lt agree =
    omega (arith, total-count_thread n i m.output.thread_stats lt)
Consume-Agree _ lt agree = agree

Reach-Agree :
    {n : ℕ} (storage : List ℤ) (input : List (List ℕ)) {s : System}
    → Reach n (start n storage input) s
    → Agree n s.shared
unfolding start
Reach-Agree {n} storage input here = total-eq-zero (λ c. c) n (λ _. 0) (λ i lt. refl)
Reach-Agree storage input (later r (producer_moves mv)) =
    Produce-Agree mv (Reach-Agree storage input r)
Reach-Agree storage input (later r (consumer_moves i lt mv)) =
    Consume-Agree mv lt (Reach-Agree storage input r)
Reach-Agree storage input (later r (joined e done)) = Reach-Agree storage input r
Reach-Agree storage input (later r (spurious i)) = Reach-Agree storage input r
Reach-Agree storage input (later r spurious_producer) = Reach-Agree storage input r

-- With at least one consumer, `total_trans` of the summary at the end of `main` is the amount of
-- work in the input.
pub print_summary-works :
    {n : ℕ} (storage : List ℤ) (input : List (List ℕ)) {s : System}
    → 0 < n
    → length storage ≡ n * 2
    → Reach n (start n storage input) s
    → s.producer ≡ Producer.finished
    → (print_summary n s.shared.output).1 ≡ length (works input)
print_summary-works {n} storage input {s} pos_n two_each r done =
    let (_, _, _, completed) = all_work_done storage input pos_n two_each r done in
    print_summary-total n s.shared.output ∙ Reach-Agree storage input r ∙ completed
