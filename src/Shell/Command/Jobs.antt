-- ===== src/Shell/Command/Jobs.antt =====
-- `jobs_cb` of A1/command.c: the lines that it prints, from the oldest process to the newest.
pub mod Listing
pub mod Overflow
use operating_systems_fa.Common.{
  Bool, List, Option, [], if◌then◌else◌, none, pos, some, suc, zero, ℕ, ℤ, ◌++◌, ◌+◌, ◌∷◌,
}
use operating_systems_fa.Common.State.{ok, fault, pure, ◌>>=◌}
use operating_systems_fa.Common.Text.{codes}
use operating_systems_fa.Shell.Heap.{Ptr, Cmd, load}
use operating_systems_fa.Shell.Pcb.{ProcessTable}
use operating_systems_fa.Shell.Shutdown.{no_arg}
use operating_systems_fa.Shell.Command.{Bytes, cmd_ok, cmd_args_err, sys_pclose_fail}
use operating_systems_fa.Shell.Command.JobLine.{PsAnswer, right_aligned, job}

abbrev pub sys_dup2_fail : ℕ
sys_dup2_fail = 14

abbrev pub sys_close_fail : ℕ
sys_close_fail = 15

abbrev pub sys_dup_fail : ℕ
sys_dup_fail = 16

-- What the calls around the loop answer, and the times that `getrusage` gives.
pub record JobsAnswers : Type 0 where
  pub dup_works : Bool
  pub dup2_works : Bool
  pub close_works : Bool
  pub ps : ℕ → PsAnswer
  pub utime : ℤ
  pub stime : ℤ
  pub dup2_works_again : Bool
  pub close_works_again : Bool

-- The code after a call: a failure takes the place of what was there.
abbrev pub unless : Bool → ℕ → ℕ → ℕ
unless works failure ret = if works then ret else failure

abbrev pub checked : {A : Type 0} → Option A → Cmd A
checked none = λ _. fault
checked (some a) = pure a

-- The loop from `proc` on, with so many rounds left: the code and the lines.
unfoldable pub jobs_loop : JobsAnswers → (k i : ℕ) → Ptr → (ret : ℕ) → Cmd (ℕ × List Bytes)
jobs_loop os zero i proc ret = pure (ret, [])
jobs_loop os (suc k) i proc ret = do
  c ← load proc
  line ← checked (job (os.ps i) i c.info)
  (code, lines) ← jobs_loop os k (i + 1) c.prev (unless (os.ps i).pclose_works sys_pclose_fail ret)
  pure (code, line ∷ lines)

-- What is printed behind the lines of the processes.
unfoldable pub totals : JobsAnswers → ℕ → List Bytes
totals os num_procs =
    (codes "Processes = " ++ (right_aligned 5 (pos num_procs) ++ codes " active\n"))
    ∷ codes "Completed Processes:\n"
    ∷ (codes "User time = " ++ (right_aligned 5 os.utime ++ codes " seconds\n"))
    ∷ (codes "Sys  time = " ++ (right_aligned 5 os.stime ++ codes " seconds\n\n"))
    ∷ []

-- `file_output` says whether the output goes to a file; what is printed is the same.
unfoldable pub jobs_cb :
    JobsAnswers → List Bytes → (file_output : Bool) → ProcessTable → Cmd (ℕ × List Bytes)
unfolding jobs_loop totals
jobs_cb os args file_output t =
    if no_arg args
    then (do
      let ret =
          if file_output
          then unless os.close_works sys_close_fail
              (unless os.dup2_works sys_dup2_fail (unless os.dup_works sys_dup_fail cmd_ok))
          else cmd_ok
      (code, lines) ← jobs_loop os t.num_procs 0 t.tail ret
      let last =
          if file_output
          then unless os.close_works_again sys_close_fail
              (unless os.dup2_works_again sys_dup2_fail code)
          else code
      pure (
        last,
        codes "\nRunning Processes:\n"
            ∷ codes " #      PID S SEC COMMAND\n"
            ∷ (lines ++ totals os t.num_procs),
      ))
    else pure (cmd_args_err, [])
