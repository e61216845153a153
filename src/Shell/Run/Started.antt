-- ===== src/Shell/Run/Started.antt =====
-- What `run_cmd` of A1/shell379.c leaves in the process table.
use operating_systems_fa.Common.{
  Bool-cases, List, Option, [], if◌then◌else◌, inl, inr, length, none, refl, some, ℕ, ℤ, ◌<◌, ◌∷◌,
  ◌≡◌, ◌≢◌, ◌≤◌,
}
use operating_systems_fa.Common.State.{Outcome, ok, Returns, returns, and_then}
use operating_systems_fa.Shell.Heap.{null, Heap}
use operating_systems_fa.Shell.Pcb.{ProcessTable, max_pt_entries, line_length}
use operating_systems_fa.Shell.Pcb.Cells.{Cells, IsTable, SameOutside}
use operating_systems_fa.Shell.Pcb.Add.{Added, running, add_process-Added, add_process-full}
use operating_systems_fa.Shell.Args.{eqb_bytes, redirections}
use operating_systems_fa.Shell.Command.{Bytes, Event, waitpid, cmd_ok, sys_wait_fail}
use operating_systems_fa.Shell.Run.{
  RunAnswers, ampersand, last_arg, wait_unless_background, run_cmd,
}

-- The code and the wait behind the start of a process.
abbrev pub wait_result : RunAnswers → ℤ → Bytes → ℕ × List Event
wait_result os pid last =
    if eqb_bytes last ampersand
    then (cmd_ok, [])
    else (if os.waitpid_works then cmd_ok else sys_wait_fail, waitpid pid ∷ [])

-- The process is in front of the others, running, under the whole line, and has been waited for
-- unless it is in the background.
abbrev pub Started :
    RunAnswers
    → ℤ
    → (buf last : Bytes) → Heap
    → Cells
    → ℕ × ProcessTable × List Event
    → Heap
    → Type 0
Started os pid buf last h xs (code, t, events) g =
    (◌≡◌ {A = ℕ × List Event} (code, events) (wait_result os pid last))
    × IsTable g t ((os.fresh, running pid buf) ∷ xs)
    × SameOutside ((os.fresh, running pid buf) ∷ xs) h g

wait-Started :
    {h : Heap} {xs : Cells} (os : RunAnswers) (pid : ℤ) (buf last : Bytes)
    {run : Outcome Heap (ℕ × ProcessTable)}
    → Returns (Added h os.fresh (running pid buf) xs) run
    → Returns
        (Started os pid buf last h xs)
        (and_then run (λ (added, t'). wait_unless_background os pid last t'))
unfolding wait_unless_background
wait-Started os pid buf last (returns p) = elim (Bool-cases (eqb_bytes last ampersand)) [
  | inl e ↦ rw e (returns (rw e refl, p.1, p.2))
  | inr e ↦ rw e (returns (rw e refl, p.1, p.2))
]

module _ {h : Heap} {t : ProcessTable} (os : RunAnswers) (pid : ℤ) (args : List Bytes)
    (num_args : ℕ) (buf : Bytes) {output_file input_file : Option Bytes} {left : List Bytes} {n : ℕ}
    (last : Bytes) (files : redirections args num_args ≡ some (output_file, input_file, left, n))
    (forked : os.fork ≡ some pid) (last_at : last_arg left n ≡ some last) where
  -- A command whose arguments are in order, with its files taken out, and a `fork` that works: with
  -- room in the table and fresh memory for the node, the new process is put in front of the others
  -- as a running one, with the whole line for its name; the shell waits for it, unless the last
  -- argument is "&".
  pub run_cmd-Started :
      {xs : Cells}
      → IsTable h t xs
      → length xs < max_pt_entries
      → os.fresh ≢ null
      → h os.fresh ≡ none
      → length buf < line_length
      → Returns (Started os pid buf last h xs) (run_cmd os args num_args buf t h)
  unfolding run_cmd
  run_cmd-Started is room ne unused short =
      let added = add_process-Added os.fresh pid buf is room ne unused short in
      rw (run_cmd, files, forked, last_at) (wait-Started os pid buf last added)

  -- With a full table the process runs all the same, and the shell says nothing of it: the code is
  -- that of the wait, and the process is not in the table.
  pub run_cmd-untracked :
      max_pt_entries ≤ t.num_procs
      → run_cmd os args num_args buf t h
        ≡ ok ((wait_result os pid last).0, t, (wait_result os pid last).1) h
  unfolding run_cmd wait_unless_background
  run_cmd-untracked full = elim (Bool-cases (eqb_bytes last ampersand)) [
    | inl e ↦
        rw (run_cmd, files, forked, add_process-full h t os.fresh pid buf full, last_at, e) refl
    | inr e ↦
        rw (run_cmd, files, forked, add_process-full h t os.fresh pid buf full, last_at, e) refl
  ]
