-- ===== src/Shell/Life/Examples.antt =====
-- The shell that starts "ls &" in its first round, and the end of that process.
use operating_systems_fa.Common.{
  List, [], ap, arith, none, pos, refl, some, true, ℕ, ◌++◌, ◌∙◌, ◌∷◌, ◌≡◌, ◌⊎◌,
}
use operating_systems_fa.Common.State.{fault, ok, Sound, Returns, Returns-ok}
use operating_systems_fa.Common.Decimal.{decimal}
use operating_systems_fa.Common.Text.{codes}
use operating_systems_fa.Shell.Heap.{Ptr, Info, null, Heap}
use operating_systems_fa.Shell.Pcb.{ProcessTable}
use operating_systems_fa.Shell.Pcb.Cells.{Cells, IsTable}
use operating_systems_fa.Shell.Pcb.Cleanup.{Poll, gone, AllStay, printed}
use operating_systems_fa.Shell.Args.{is_shell_cmd, is_one_of}
use operating_systems_fa.Shell.Command.{Bytes, cmd_args_err}
use operating_systems_fa.Shell.Errors.{err_strings, error_line, check_cmd_err}
use operating_systems_fa.Shell.Command.Evolved.{IsSmall}
use operating_systems_fa.Shell.Line.{newline}
use operating_systems_fa.Shell.Line.Join.{join, AllWords}
use operating_systems_fa.Shell.Run.{RunAnswers, ShellAnswers}
use operating_systems_fa.Shell.Main.{round}
use operating_systems_fa.Shell.Main.Line.{round-Started}
use operating_systems_fa.Shell.Life.{proc_exit, Shell, initial, rounded, ShellReach, here, later}
use operating_systems_fa.Shell.Life.Kept.{
  RoundKept, round-Sound, ShellReach-IsTable, ShellReach-proc_exit,
}
use operating_systems_fa.Shell.Life.Reported.{RoundReported, round-Reported}
use operating_systems_fa.Shell.Life.Reaped.{FaultsBefore, started-faults}

abbrev memory : Heap
memory = λ _. none

abbrev table : ProcessTable
table = record { process_list = null; tail = null; num_procs = 0 }

table-IsTable : IsTable memory table []
table-IsTable = record { chain = tt; head_at = refl; tail_at = tt; counted = refl }

abbrev child : RunAnswers
child = record { fork = some (pos 90); fresh = 24; waitpid_works = true }

abbrev answers : ShellAnswers
answers = record {
  jobs = record {
    dup_works = true;
    dup2_works = true;
    close_works = true;
    ps = λ _. record { proc_time = none; pclose_works = true };
    utime = pos 0;
    stime = pos 0;
    dup2_works_again = true;
    close_works_again = true;
  };
  signals = record {
    popen_works = true;
    pclose_works = true;
    kill_works = true;
    waitpid_works = true;
  };
  sleeps = [];
}

abbrev others : List Bytes
others = codes "&" ∷ []

words : AllWords (codes "ls" ∷ others)
words = (
  record { some_byte = omega arith; short = omega arith; is_clean = refl; is_spaceless = refl },
  (
    record { some_byte = omega arith; short = omega arith; is_clean = refl; is_spaceless = refl },
    tt,
  ),
)

abbrev line : List ℕ
line = join (codes "ls" ∷ others) ++ newline ∷ []

reaped_is_gone : gone Poll.reaped ≡ true
unfolding gone
reaped_is_gone = refl

started-faults_example :
    Returns (FaultsBefore (λ i pid. Poll.reaped) []) (round answers child line table memory)
unfolding is_shell_cmd is_one_of
started-faults_example =
    started-faults answers child (pos 90) (codes "ls") others (codes "&") [] (λ i pid. Poll.reaped)
      words (omega arith) (omega arith) refl refl refl refl refl table-IsTable (omega arith)
      (omega arith) refl reaped_is_gone

round-Sound_example : Sound (RoundKept table []) (round answers child line table memory)
round-Sound_example = round-Sound table-IsTable answers child line refl

first_round : (s : Shell) × ShellReach (initial memory null line) s
unfolding initial is_shell_cmd is_one_of
first_round =
    let started =
      round-Started answers child (pos 90) (codes "ls") others (codes "&") [] words (omega arith)
        (omega arith) refl refl refl refl refl table-IsTable (omega arith) (omega arith) refl in
    let (r, g, e, (code, t, events, f, p)) = Returns-ok started in
    (_, later here (rounded answers child refl (e ∙ ap (λ k. ok k g) f)))

ShellReach-IsTable_example :
    (xs : Cells) × IsTable first_round.0.memory first_round.0.pcb xs × IsSmall xs
ShellReach-IsTable_example = ShellReach-IsTable memory null line first_round.1

ShellReach-proc_exit_example :
    (xs : Cells) × IsTable first_round.0.memory first_round.0.pcb xs
    × ((AllStay (λ i pid. Poll.reaped) 0 xs
          × (proc_exit (λ i pid. Poll.reaped) first_round.0.pcb first_round.0.memory
              ≡ ok (first_round.0.pcb, printed (λ i pid. Poll.reaped) 0 xs) first_round.0.memory))
        ⊎ ((ys : Cells) × (a : Ptr) × (v : Info) × (zs : Cells) × (xs ≡ ys ++ (a, v) ∷ zs)
            × AllStay (λ i pid. Poll.reaped) 0 ys
            × (gone Poll.reaped ≡ true)
            × (proc_exit (λ i pid. Poll.reaped) first_round.0.pcb first_round.0.memory ≡ fault)))
ShellReach-proc_exit_example =
    ShellReach-proc_exit memory null line (λ i pid. Poll.reaped) first_round.1

-- A "wait" without its argument, which is reported.
abbrev wait_line : List ℕ
wait_line = codes "wait" ++ newline ∷ []

round-Reported_example :
    Sound (RoundReported wait_line) (round answers child wait_line table memory)
unfolding initial
round-Reported_example = round-Reported memory null wait_line here answers child refl

wait_line-reported :
    check_cmd_err cmd_args_err
    ≡ some (codes "Runtime error: ret returned 3  -> Too many arguments for this command\n" ∷ [])
unfolding check_cmd_err err_strings error_line decimal
wait_line-reported = refl
