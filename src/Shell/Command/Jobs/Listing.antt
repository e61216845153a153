-- ===== src/Shell/Command/Jobs/Listing.antt =====
-- `jobs_cb` of A1/command.c goes through the table from its tail.
use operating_systems_fa.Common.{
  >>=-some, List, Option, [], ap, arith, false, length, refl, some, some-inj, sym, true, ℕ, ◌++◌,
  ◌+◌, ◌>>=◌, ◌∷◌, ◌≡◌, ◌≢◌,
}
use mathlib.Core.Path.{subst}
use operating_systems_fa.Common.State.{ok}
use operating_systems_fa.Common.Text.{codes}
use operating_systems_fa.Shell.Heap.{Ptr, null, Info, Heap}
use operating_systems_fa.Shell.Heap.Writes.{load-ok}
use operating_systems_fa.Shell.Pcb.{ProcessTable}
use operating_systems_fa.Shell.Pcb.Cells.{Cells, node, last_or, Seg, IsTable}
use operating_systems_fa.Shell.Shutdown.{no_arg}
use operating_systems_fa.Shell.Command.{Bytes, cmd_ok}
use operating_systems_fa.Shell.Command.JobLine.{job}
use operating_systems_fa.Shell.Command.Jobs.{JobsAnswers, jobs_loop, totals, jobs_cb}

-- The processes in the order in which they came, `vs` those behind.
abbrev pub oldest_first : Cells → List Info → List Info
oldest_first [] vs = vs
oldest_first ((a, v) ∷ xs) vs = oldest_first xs (v ∷ vs)

-- The lines of the processes, from the round `i` on.
unfoldable pub job_lines : JobsAnswers → ℕ → List Info → Option (List Bytes)
job_lines os i [] = some []
job_lines os i (v ∷ vs) = do
  line ← job (os.ps i) i v
  lines ← job_lines os (i + 1) vs
  some (line ∷ lines)

-- What `prev` leads to.
abbrev Back : Heap → Ptr → List Info → Type 0
Back h q [] = Unit
Back h q (v ∷ vs) =
    (next : Ptr) × (before : Ptr) × (q ≢ null)
    × (h q ≡ some (node v next before))
    × Back h before vs

Seg-Back :
    (h : Heap) (p n : Ptr) (xs : Cells) (vs : List Info)
    → Seg h p n xs
    → Back h p vs
    → Back h (last_or p xs) (oldest_first xs vs)
Seg-Back h p n [] vs s back = back
Seg-Back h p n ((a, v) ∷ xs) vs (ne, at, out, s) back =
    Seg-Back h a n xs (v ∷ vs) s (_, p, ne, at, back)

jobs_loop-Back :
    (os : JobsAnswers) (h : Heap) (i q : ℕ) (vs : List Info) (lines : List Bytes)
    → ((j : ℕ) → (os.ps j).pclose_works ≡ true)
    → Back h q vs
    → job_lines os i vs ≡ some lines
    → jobs_loop os (length vs) i q cmd_ok h ≡ ok (cmd_ok, lines) h
unfolding jobs_loop job_lines
jobs_loop-Back os h i q [] lines closed back e =
    let same : [] ≡ lines = some-inj e in rw (← same) refl
jobs_loop-Back os h i q (v ∷ vs) lines closed (next, before, ne, at, back) e =
    let (line, first, e1) = >>=-some (job (os.ps i) i v) _ e in
    let (rest, others, made) = >>=-some (job_lines os (i + 1) vs) _ e1 in
    let same : line ∷ rest ≡ lines = some-inj made in
    rw
      (
        load-ok h ne at,
        first,
        closed i,
        jobs_loop-Back os h (i + 1) before vs rest closed back others,
      )
      (ap (λ l. ok (cmd_ok, l) h) same)

length-oldest_first :
    (xs : Cells) (vs : List Info) → length (oldest_first xs vs) ≡ length xs + length vs
length-oldest_first [] vs = omega arith
length-oldest_first ((a, v) ∷ xs) vs = omega (arith, length-oldest_first xs (v ∷ vs))

table-Back :
    (h : Heap) (t : ProcessTable) (xs : Cells) → IsTable h t xs → Back h t.tail (oldest_first xs [])
table-Back h t [] is = tt
table-Back h t ((a, v) ∷ xs) is =
    subst (λ q. Back h q (oldest_first ((a, v) ∷ xs) [])) (sym is.tail_at)
      (Seg-Back h null null ((a, v) ∷ xs) [] is.chain tt)

-- `jobs` with no argument, or with an ampersand, and no file for the output: if the line of each
-- process can be made and each `pclose` works, the lines are printed from the oldest process to the
-- newest, with their number and the times behind them; the code is CMD_OK, and nothing changes.
pub jobs_cb-listed :
    {h : Heap} {t : ProcessTable} (os : JobsAnswers) (args : List Bytes) (xs : Cells)
    (lines : List Bytes)
    → IsTable h t xs
    → no_arg args ≡ true
    → ((j : ℕ) → (os.ps j).pclose_works ≡ true)
    → job_lines os 0 (oldest_first xs []) ≡ some lines
    → jobs_cb os args false t h
      ≡ ok
          (
            cmd_ok,
            codes "\nRunning Processes:\n"
                ∷ codes " #      PID S SEC COMMAND\n"
                ∷ (lines ++ totals os (length xs)),
          )
          h
unfolding jobs_cb
jobs_cb-listed {h} {t} os args xs lines is plain closed e =
    let size : t.num_procs ≡ length (oldest_first xs []) =
      omega (arith, is.counted, length-oldest_first xs []) in
    let size' : length (oldest_first xs []) ≡ length xs =
      omega (arith, length-oldest_first xs []) in
    rw
      (
        jobs_cb,
        plain,
        size,
        jobs_loop-Back os h 0 t.tail (oldest_first xs []) lines closed (table-Back h t xs is) e,
        size',
      )
      refl
