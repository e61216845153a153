-- ===== src/Shell/Life.antt =====
-- The life of the shell of A1: `main` of A1/shell379.c with its loop, and the handler of SIGCHLD,
-- `proc_exit`, which may run between two rounds.
pub mod Kept
pub mod Reaped
pub mod Reported
mod Examples
use operating_systems_fa.Common.{List, ℕ, ℤ, ◌≡◌, none}
use operating_systems_fa.Common.State.{ok}
use operating_systems_fa.Shell.Heap.{Ptr, null, Heap, Cmd}
use operating_systems_fa.Shell.Pcb.{ProcessTable}
use operating_systems_fa.Shell.Pcb.Cleanup.{Poll, Errors, table_cleanup}
use operating_systems_fa.Shell.Command.{Bytes, Event}
use operating_systems_fa.Shell.Run.{RunAnswers, ShellAnswers}
use operating_systems_fa.Shell.Main.{Round, next, round}

-- The memory with the nodes, `pcb`, and the bytes that are still to be read.
pub record Shell : Type 0 where
  pub memory : Heap
  pub pcb : ProcessTable
  pub input : List ℕ

-- `main` in front of its loop; `tail` is not set.
unfoldable pub initial : Heap → (tail : Ptr) → List ℕ → Shell
initial memory tail input = record {
  memory = memory;
  pcb = record { process_list = null; tail = tail; num_procs = 0 };
  input = input;
}

-- The handler of SIGCHLD, with the answers of `waitpid`.
unfoldable pub proc_exit : (waitpid : ℕ → ℤ → Poll) → ProcessTable → Cmd (ProcessTable × Errors)
proc_exit waitpid pcb = table_cleanup waitpid pcb

-- A round of the loop that ends with the next one, where `malloc` returns memory that is not in
-- use; or a run of the handler. Runs that are faults are no steps: what follows them is undefined.
pub data ShellStep (s : Shell) : Shell → Type 0 where
  rounded :
      (os : ShellAnswers) (child : RunAnswers) {code : ℕ} {events : List Event}
      {printed : List Bytes} {pcb : ProcessTable} {input : List ℕ} {memory : Heap}
      → s.memory child.fresh ≡ none
      → round os child s.input s.pcb s.memory ≡ ok (next code events printed pcb input) memory
      → ShellStep s (record { memory = memory; pcb = pcb; input = input })
  handled :
      (waitpid : ℕ → ℤ → Poll) {pcb : ProcessTable} {errors : Errors} {memory : Heap}
      → proc_exit waitpid s.pcb s.memory ≡ ok (pcb, errors) memory
      → ShellStep s (record { memory = memory; pcb = pcb; input = s.input })

pub data ShellReach (s : Shell) : Shell → Type 0 where
  here : ShellReach s s
  later : {t u : Shell} → ShellReach s t → ShellStep t u → ShellReach s u
