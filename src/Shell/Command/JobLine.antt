-- ===== src/Shell/Command/JobLine.antt =====
-- The line that `jobs_cb` of A1/command.c prints for a process.
use operating_systems_fa.Common.{
  Bool, Option, get_elem?, if◌then◌else◌, length, ltb, none, replicate, some, suc, write_at, zero,
  ℕ, ℤ, ◌++◌, ◌+◌, ◌-◌, ◌>>=◌, ◌∷◌,
}
use operating_systems_fa.Common.Decimal.{decimal, decimal_ℤ}
use operating_systems_fa.Common.Text.{codes, c_string}
use operating_systems_fa.Shell.Heap.{Info}
use operating_systems_fa.Shell.Command.{Bytes}

-- What the calls for one process answer: `proc_time` is the array after `fgets`, or `none` where
-- `popen` or `fgets` has failed, after which the code goes on with NULL or with an array that was
-- never set.
pub record PsAnswer : Type 0 where
  pub proc_time : Option Bytes
  pub pclose_works : Bool

-- The loop of `trim_whtspce` from `i` on, with so many rounds left.
unfoldable pub trim_loop : (k i count : ℕ) → Bytes → Option Bytes
trim_loop zero i count arr = some arr
trim_loop (suc k) i count arr = do
  c ← get_elem? arr (i + count)
  arr' ← write_at arr i c
  trim_loop k (i + 1) count arr'

-- `len - 1 - 3` may be negative: then the loop has no round.
unfoldable pub trim_whtspce : Bytes → Option Bytes
unfolding trim_loop
trim_whtspce arr = do
  text ← c_string arr
  arr' ← trim_loop (length text - 4) 0 (length text - 4) arr
  write_at arr' 3 0

-- `%5d` and `%7d`.
abbrev pub right_aligned : ℕ → ℤ → Bytes
right_aligned columns n = replicate (columns - length (decimal_ℤ n)) 32 ++ decimal_ℤ n

-- `sprintf` into `char s[26]`: the text and its NUL must fit.
unfoldable pub ps_line : ℤ → Option Bytes
ps_line pid =
    let line = codes "ps --pid " ++ (decimal_ℤ pid ++ codes " -o cputimes=") in
    if ltb (length line) 26 then some line else none

unfoldable pub job_line : (i : ℕ) → Info → (proc_time : Bytes) → Bytes
job_line i info proc_time =
    codes " "
    ++ (decimal i
        ++ (codes ": "
            ++ (right_aligned 7 info.pid
                ++ (codes " "
                    ++ (info.status
                        ∷ (codes " "
                            ++ (proc_time ++ (codes " " ++ (info.name ++ codes "\n")))))))))

-- What the round `i` prints for a process.
unfoldable pub job : PsAnswer → (i : ℕ) → Info → Option Bytes
unfolding ps_line trim_whtspce job_line
job answer i info = do
  line ← ps_line info.pid
  arr ← answer.proc_time
  trimmed ← trim_whtspce arr
  text ← c_string trimmed
  some (job_line i info text)
