-- ===== src/Prodcon/Summary/Columns.antt =====
-- The columns of the summary of A2/prodcon.c, and its sum.
use operating_systems_fa.Common.{
  List, [], ap, arith, length, length-append, length-replicate, map, refl, replicate, suc, zero, ℕ,
  ◌++◌, ◌+◌, ◌<◌, ◌∙◌, ◌∷◌, ◌≡◌,
}
use operating_systems_fa.Common.Decimal.{decimal, length-decimal}
use operating_systems_fa.Prodcon.Message.{Message, Output}
use operating_systems_fa.Common.Family.{total}
use operating_systems_fa.Prodcon.Summary.{
  print_summary, pad, counter_line, counter_lines, thread_loop,
}

-- The spaces make up for the digits.
length-padded : (n : ℕ) → n < 10000 → pad n + length (decimal n) ≡ 4
unfolding pad
length-padded n lt = rw (length-decimal n lt) (ground arith)

length-counter_line :
    (label : List ℕ) (gap n : ℕ)
    → n < 10000
    → length (counter_line label gap n) ≡ length label + gap + 9
unfolding counter_line
length-counter_line label gap n lt =
    let tail = replicate (gap + pad n) 32 ++ (decimal n ++ 10 ∷ []) in
    omega (
      arith,
      length-padded n lt,
      length-append label tail,
      length-append (replicate (gap + pad n) 32) (decimal n ++ 10 ∷ []),
      length-replicate {A = ℕ} (gap + pad n) 32,
      length-append (decimal n) (10 ∷ []),
    )

-- With less than 10000 of each kind the lines of the five counters are equally long, so that the
-- counters end in one column.
pub counter_lines-aligned :
    (o : Output)
    → ((m : Message) → o.msg_stats m < 10000)
    → map length (counter_lines o) ≡ replicate 5 20
unfolding counter_lines
counter_lines-aligned o small =
    rw
      (
        length-counter_line _ 7 (o.msg_stats Message.work) (small Message.work),
        length-counter_line _ 8 (o.msg_stats Message.ask) (small Message.ask),
        length-counter_line _ 4 (o.msg_stats Message.receive) (small Message.receive),
        length-counter_line _ 3 (o.msg_stats Message.complete) (small Message.complete),
        length-counter_line _ 6 (o.msg_stats Message.tands_sleep) (small Message.tands_sleep),
      )
      refl

thread_loop-total :
    (k i : ℕ) (stats : ℕ → ℕ) (sum : ℕ)
    → sum ≡ total (λ c. c) i stats
    → (thread_loop k i stats sum).1 ≡ total (λ c. c) (i + k) stats
unfolding thread_loop total
thread_loop-total zero i stats sum e =
    let same : i ≡ i + 0 = omega arith in e ∙ ap (λ j. total (λ c. c) j stats) same
thread_loop-total (suc k) i stats sum e =
    let step : sum + stats i ≡ total (λ c. c) (suc i) stats = omega arith in
    let next : suc i ≡ i + 1 = omega arith in
    let last : i + 1 + k ≡ i + suc k = omega arith in
    thread_loop-total k (i + 1) stats (sum + stats i) (step ∙ ap (λ j. total (λ c. c) j stats) next)
    ∙ ap (λ j. total (λ c. c) j stats) last

-- The sum that is printed is that of the counters of the threads.
pub print_summary-total :
    (n : ℕ) (o : Output) → (print_summary n o).1 ≡ total (λ c. c) n o.thread_stats
unfolding print_summary total
print_summary-total n o =
    let whole : 0 + n ≡ n = omega arith in
    thread_loop-total n 0 o.thread_stats 0 refl ∙ ap (λ j. total (λ c. c) j o.thread_stats) whole
