-- ===== src/Shell/Main/Examples.antt =====
-- The round of the shell that starts "gcc a &" with one process in the table.
use operating_systems_fa.Common.{List, [], arith, none, pos, refl, some, true, ◌++◌, ◌∷◌}
use operating_systems_fa.Common.State.{Returns}
use operating_systems_fa.Common.Text.{codes}
use operating_systems_fa.Shell.Heap.{null, Info, Heap, write}
use operating_systems_fa.Shell.Pcb.{ProcessTable}
use operating_systems_fa.Shell.Pcb.Cells.{node, IsTable}
use operating_systems_fa.Shell.Args.{is_shell_cmd, is_one_of}
use operating_systems_fa.Shell.Command.{Bytes}
use operating_systems_fa.Shell.Line.{newline}
use operating_systems_fa.Shell.Line.Join.{join, AllWords}
use operating_systems_fa.Shell.Run.{RunAnswers, ShellAnswers}
use operating_systems_fa.Shell.Main.{round}
use operating_systems_fa.Shell.Main.Line.{RoundStarted, round-Started}

abbrev vim : Info
vim = record { pid = pos 8; status = b'S'; name = codes "vim x" }

abbrev memory : Heap
memory = write (λ _. none) 8 (some (node vim null null))

abbrev table : ProcessTable
table = record { process_list = 8; tail = 8; num_procs = 1 }

table-IsTable : IsTable memory table ((8, vim) ∷ [])
unfolding write
table-IsTable = record {
  chain = (omega arith, refl, refl, tt);
  head_at = refl;
  tail_at = refl;
  counted = refl;
}

abbrev child : RunAnswers
child = record { fork = some (pos 90); fresh = 24; waitpid_works = true }

abbrev answers : ShellAnswers
answers = record {
  jobs = record {
    dup_works = true;
    dup2_works = true;
    close_works = true;
    ps = λ _. record { proc_time = none; pclose_works = true };
    utime = pos 0;
    stime = pos 0;
    dup2_works_again = true;
    close_works_again = true;
  };
  signals = record {
    popen_works = true;
    pclose_works = true;
    kill_works = true;
    waitpid_works = true;
  };
  sleeps = [];
}

abbrev others : List Bytes
others = codes "a" ∷ codes "&" ∷ []

words : AllWords (codes "gcc" ∷ others)
words = (
  record { some_byte = omega arith; short = omega arith; is_clean = refl; is_spaceless = refl },
  (
    record { some_byte = omega arith; short = omega arith; is_clean = refl; is_spaceless = refl },
    (
      record { some_byte = omega arith; short = omega arith; is_clean = refl; is_spaceless = refl },
      tt,
    ),
  ),
)

round-Started_example :
    Returns
      (RoundStarted child
        (pos 90)
        (join (codes "gcc" ∷ others))
        (codes "&")
        []
        memory
        ((8, vim) ∷ []))
      (round answers child (join (codes "gcc" ∷ others) ++ newline ∷ []) table memory)
unfolding is_shell_cmd is_one_of write
round-Started_example =
    round-Started answers child (pos 90) (codes "gcc") others (codes "&") [] words (omega arith)
      (omega arith) refl refl refl refl refl table-IsTable (omega arith) (omega arith) refl
