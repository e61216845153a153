-- ===== src/Shell/Run/Examples.antt =====
-- The theorems on the dispatch and on `jobs` at a table of two processes.
use operating_systems_fa.Common.{[], arith, false, none, pos, refl, some, true, ◌++◌, ◌∷◌, ◌≡◌}
use operating_systems_fa.Common.Decimal.{decimal, decimal_loop, decimal_ℤ}
use operating_systems_fa.Common.State.{ok, fault}
use operating_systems_fa.Common.Text.{codes, c_string}
use operating_systems_fa.Shell.Heap.{null, Info, Heap, write}
use operating_systems_fa.Shell.Pcb.{ProcessTable}
use operating_systems_fa.Shell.Pcb.Cells.{Cells, node, IsTable}
use operating_systems_fa.Shell.Shutdown.{no_arg}
use operating_systems_fa.Shell.Command.{Bytes, cmd_ok}
use operating_systems_fa.Shell.Command.JobLine.{
  PsAnswer, job, job_line, ps_line, trim_whtspce, trim_loop,
}
use operating_systems_fa.Shell.Command.Jobs.{JobsAnswers, jobs_cb, totals}
use operating_systems_fa.Shell.Command.Jobs.Listing.{job_lines, jobs_cb-listed}
use operating_systems_fa.Shell.Command.Jobs.Overflow.{jobs_cb-overflow}
use operating_systems_fa.Shell.Run.{ShellAnswers}

abbrev make : Info
make = record { pid = pos 77; status = b'R'; name = codes "make" }

abbrev vim : Info
vim = record { pid = pos 8; status = b'S'; name = codes "vim x" }

abbrev memory : Heap
memory = write (write (λ _. none) 8 (some (node vim null 16))) 16 (some (node make 8 null))

abbrev table : ProcessTable
table = record { process_list = 16; tail = 8; num_procs = 2 }

abbrev cells : Cells
cells = (16, make) ∷ (8, vim) ∷ []

table-IsTable : IsTable memory table cells
unfolding write
table-IsTable = record {
  chain = (omega arith, refl, refl, (omega arith, refl, refl, tt));
  head_at = refl;
  tail_at = refl;
  counted = refl;
}

-- `ps` prints the seconds in eight columns.
abbrev ps : PsAnswer
ps = record { proc_time = some (codes "      12\n" ++ 0 ∷ []); pclose_works = true }

abbrev jobs : JobsAnswers
jobs = record {
  dup_works = true;
  dup2_works = true;
  close_works = true;
  ps = λ _. ps;
  utime = pos 3;
  stime = pos 0;
  dup2_works_again = true;
  close_works_again = true;
}

abbrev vim_line : Bytes
vim_line = codes " 0:       8 S  12 vim x\n"

abbrev make_line : Bytes
make_line = codes " 1:      77 R  12 make\n"

jobs_cb-listed_example :
    jobs_cb jobs [] false table memory
    ≡ ok
        (
          cmd_ok,
          codes "\nRunning Processes:\n"
              ∷ codes " #      PID S SEC COMMAND\n"
              ∷ ((vim_line ∷ make_line ∷ []) ++ totals jobs 2),
        )
        memory
unfolding no_arg job_lines job job_line ps_line trim_whtspce trim_loop decimal decimal_loop
    decimal_ℤ c_string
jobs_cb-listed_example =
    jobs_cb-listed jobs [] cells (vim_line ∷ make_line ∷ []) table-IsTable refl (λ _. refl) refl

-- The same table with 1234 for the oldest process.
abbrev late : Info
late = record { pid = pos 1234; status = b'S'; name = codes "vim" }

abbrev late_memory : Heap
late_memory = write (write (λ _. none) 8 (some (node late null 16))) 16 (some (node make 8 null))

late-IsTable : IsTable late_memory table ((16, make) ∷ (8, late) ∷ [])
unfolding write
late-IsTable = record {
  chain = (omega arith, refl, refl, (omega arith, refl, refl, tt));
  head_at = refl;
  tail_at = refl;
  counted = refl;
}

jobs_cb-overflow_example : jobs_cb jobs [] false table late_memory ≡ fault
unfolding no_arg
jobs_cb-overflow_example =
    jobs_cb-overflow jobs [] false 16 make ((8, late) ∷ []) 1234 late-IsTable refl refl
      (omega arith)

abbrev answers : ShellAnswers
answers = record {
  jobs = jobs;
  signals = record {
    popen_works = true;
    pclose_works = true;
    kill_works = true;
    waitpid_works = true;
  };
  sleeps = 0 ∷ [];
}
