-- ===== src/Prodcon/Summary.antt =====
-- `print_summary` of A2/prodcon.c: the lines that it writes before the last one, and the sum
-- `total_trans` that the last one divides by the time. (The sum is a `float` in the code, exact up
-- to 2^24.)
pub mod Columns
use operating_systems_fa.Common.{
  List, [], if◌then◌else◌, ltb, replicate, suc, zero, ℕ, ◌++◌, ◌+◌, ◌∷◌,
}
use operating_systems_fa.Common.Decimal.{decimal}
use operating_systems_fa.Prodcon.Message
use operating_systems_fa.Prodcon.Message.{Message, Output}

abbrev Bytes : Type 0
Bytes = List ℕ

-- The spaces that stand in front of a counter with fewer than four digits.
pad : ℕ → ℕ
pad n = if ltb 999 n then 0 else if ltb 99 n then 1 else if ltb 9 n then 2 else 3

-- "    Label", `gap` spaces and those of `pad`, the counter, and a newline.
pub counter_line : Bytes → ℕ → ℕ → Bytes
counter_line label gap n =
    replicate 4 32 ++ (label ++ (replicate (gap + pad n) 32 ++ (decimal n ++ 10 ∷ [])))

pub counter_lines : Output → List Bytes
counter_lines o =
    counter_line (b'W' ∷ b'o' ∷ b'r' ∷ b'k' ∷ []) 7 (o.msg_stats Message.work)
    ∷ counter_line (b'A' ∷ b's' ∷ b'k' ∷ []) 8 (o.msg_stats Message.ask)
    ∷ counter_line (b'R' ∷ b'e' ∷ b'c' ∷ b'e' ∷ b'i' ∷ b'v' ∷ b'e' ∷ []) 4
        (o.msg_stats Message.receive)
    ∷ counter_line (b'C' ∷ b'o' ∷ b'm' ∷ b'p' ∷ b'l' ∷ b'e' ∷ b't' ∷ b'e' ∷ []) 3
        (o.msg_stats Message.complete)
    ∷ counter_line (b'S' ∷ b'l' ∷ b'e' ∷ b'e' ∷ b'p' ∷ []) 6 (o.msg_stats Message.tands_sleep)
    ∷ []

-- "    Thread  ", the number, two to five spaces, the thread's counter, and a newline.
unfoldable pub thread_gap : ℕ → ℕ
thread_gap i = if ltb 998 i then 2 else if ltb 98 i then 3 else if ltb 8 i then 4 else 5

unfoldable pub thread_head : ℕ → Bytes
thread_head i =
    replicate 4 32
    ++ ((b'T' ∷ b'h' ∷ b'r' ∷ b'e' ∷ b'a' ∷ b'd' ∷ 32 ∷ 32 ∷ [])
        ++ (decimal (i + 1) ++ replicate (thread_gap i) 32))

unfoldable pub thread_line : ℕ → ℕ → Bytes
thread_line i n = thread_head i ++ (decimal n ++ 10 ∷ [])

-- The loop over the threads from `i` on, with so many left: the lines, and `total_trans`.
pub thread_loop : ℕ → ℕ → (ℕ → ℕ) → ℕ → List Bytes × ℕ
thread_loop zero i stats total = ([], total)
thread_loop (suc k) i stats total =
    let (lines, sum) = thread_loop k (i + 1) stats (total + stats i) in
    (thread_line i (stats i) ∷ lines, sum)

unfoldable pub print_summary : ℕ → Output → List Bytes × ℕ
print_summary nthreads o =
    let (lines, sum) = thread_loop nthreads 0 o.thread_stats 0 in
    (
      (b'S' ∷ b'u' ∷ b'm' ∷ b'm' ∷ b'a' ∷ b'r' ∷ b'y' ∷ b':' ∷ 10 ∷ [])
          ∷ (counter_lines o ++ lines),
      sum,
    )
