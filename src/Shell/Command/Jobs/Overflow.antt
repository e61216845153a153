-- ===== src/Shell/Command/Jobs/Overflow.antt =====
-- `jobs_cb` of A1/command.c writes behind its array for a process number of four digits.
use operating_systems_fa.Common.{
  Bool, List, [], arith, length-append, none, pos, refl, some, true, ℕ, ◌∷◌, ◌≡◌, ◌≢◌, ◌≤◌,
}
use operating_systems_fa.Common.Decimal.{decimal, decimal_ℤ}
use operating_systems_fa.Common.Decimal.Width.{length-decimal-gt}
use operating_systems_fa.Common.State.{fault}
use operating_systems_fa.Common.Text.{codes}
use operating_systems_fa.Shell.Heap.{Ptr, null, Info, Heap}
use operating_systems_fa.Shell.Heap.Writes.{load-ok}
use operating_systems_fa.Shell.Pcb.{ProcessTable}
use operating_systems_fa.Shell.Pcb.Cells.{Cells, node, last_or, Seg, IsTable}
use operating_systems_fa.Shell.Shutdown.{no_arg}
use operating_systems_fa.Shell.Command.{Bytes}
use operating_systems_fa.Shell.Command.Jobs.{JobsAnswers, jobs_loop, jobs_cb}
use operating_systems_fa.Shell.Command.JobLine.{ps_line, job}

ps_line-overflow : (p : ℕ) → 1000 ≤ p → ps_line (pos p) ≡ none
unfolding ps_line decimal_ℤ
ps_line-overflow p le = ground (
  arith,
  length-decimal-gt 3 p (omega arith) le,
  length-append (decimal p) (codes " -o cputimes="),
)

-- The oldest process.
abbrev pub oldest : Info → Cells → Info
oldest v [] = v
oldest v ((a, w) ∷ xs) = oldest w xs

last-node :
    (h : Heap) (prev a : Ptr) (v : Info) (xs : Cells)
    → Seg h prev null ((a, v) ∷ xs)
    → (before : Ptr) × (last_or a xs ≢ null)
      × (h (last_or a xs) ≡ some (node (oldest v xs) null before))
last-node h prev a v [] (ne, at, out, s) = (prev, ne, at)
last-node h prev a v ((b, w) ∷ xs) (ne, at, out, s) = last-node h a b w xs s

-- `jobs` with no argument, or with an ampersand, writes behind the 26 bytes of its command line if
-- the oldest process of the table has a number of four digits or more.
pub jobs_cb-overflow :
    {h : Heap} {t : ProcessTable} (os : JobsAnswers) (args : List Bytes) (file_output : Bool)
    (a : Ptr) (v : Info) (xs : Cells) (p : ℕ)
    → IsTable h t ((a, v) ∷ xs)
    → no_arg args ≡ true
    → (oldest v xs).pid ≡ pos p
    → 1000 ≤ p
    → jobs_cb os args file_output t h ≡ fault
unfolding jobs_cb jobs_loop job
jobs_cb-overflow {h} {t} os args file_output a v xs p is plain pid le =
    let (before, ne, at) = last-node h null a v xs is.chain in
    rw (jobs_cb, plain, is.counted, is.tail_at, load-ok h ne at, pid, ps_line-overflow p le) refl
