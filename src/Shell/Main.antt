-- ===== src/Shell/Main.antt =====
-- One round of the loop of `main` of A1/shell379.c: a line is read and carried out.
pub mod Line
pub mod Codes
mod Examples
use operating_systems_fa.Common.{List, [], if◌then◌else◌, none, some, ℕ, ◌==◌, ◌∷◌}
use operating_systems_fa.Common.State.{pure, fault, ◌>>=◌}
use operating_systems_fa.Shell.Heap.{Cmd}
use operating_systems_fa.Shell.Pcb.{ProcessTable}
use operating_systems_fa.Shell.Args.{is_shell_cmd}
use operating_systems_fa.Shell.Command.{Bytes, Event, cmd_ok}
use operating_systems_fa.Shell.Line.{Reading, read_input}
use operating_systems_fa.Shell.Run.{
  RunAnswers, ShellAnswers, Finish, finished, ended, run_cmd, run_shell_cmd,
}

-- The call of `read_input` never returns; the shell has ended; or the next round follows, on what
-- is left of the input. A code other than CMD_OK is reported.
pub data Round : Type 0 where
  hangs : Round
  over : List Event → Round
  next : (code : ℕ) → List Event → (printed : List Bytes) → ProcessTable → (input : List ℕ) → Round

abbrev pub next_or_over : ProcessTable → List ℕ → Finish → Round
next_or_over t rest (finished code events printed) = next code events printed t rest
next_or_over t rest (ended events) = over events

-- A line with the code CMD_OK. `args[0]` is NULL for an empty line, and is given to `strcmp`.
unfoldable pub execute :
    ShellAnswers → RunAnswers → Reading → (rest : List ℕ) → ProcessTable → Cmd Round
execute os child reading rest t = elim reading.args [
  | [] ↦ λ _. fault
  | name ∷ more ↦
      if is_shell_cmd name
      then (do
        finish ← run_shell_cmd os reading.args reading.num_args t
        pure (next_or_over t rest finish))
      else (do
        (code, t', events) ← run_cmd child reading.args reading.num_args reading.buf t
        pure (next code events [] t' rest))
]

unfoldable pub round : ShellAnswers → RunAnswers → List ℕ → ProcessTable → Cmd Round
unfolding execute
round os child input t = elim (read_input input) [
  | none ↦ pure hangs
  | some (reading, rest) ↦
      if reading.code == cmd_ok
      then execute os child reading rest t
      else pure (next reading.code [] [] t rest)
]
