-- ===== src/Shell/Run.antt =====
-- `run_cmd` and `run_shell_cmd` of A1/shell379.c: a command line becomes a process of its own, or
-- the call of one of the callbacks.
pub mod Started
pub mod Called
pub mod Kept
pub mod Codes
mod Examples
use operating_systems_fa.Common.{
  Bool, List, Option, [], false, get_elem?, if◌then◌else◌, negsuc, none, not, pos, some, suc, true,
  zero, ℕ, ℤ, ◌||◌, ◌∷◌,
}
use operating_systems_fa.Common.State.{ok, fault, pure, ◌>>=◌}
use operating_systems_fa.Shell.Heap.{Ptr, Cmd}
use operating_systems_fa.Shell.Pcb.{ProcessTable, add_process}
use operating_systems_fa.Shell.Args.{eqb_bytes, redirections, str2int}
use operating_systems_fa.Shell.Shutdown.{Ending, returned, exited, exit_cb}
use operating_systems_fa.Shell.Command.{
  Bytes, Answers, Event, Result, waitpid, cmd_ok, sys_wait_fail, kill_cb, resume_cb, suspend_cb,
  wait_cb, sleep_cb,
}
use operating_systems_fa.Shell.Command.Jobs.{JobsAnswers, jobs_cb}

abbrev pub sys_fork_fail : ℕ
sys_fork_fail = 11

-- What the new process does: it ends, or runs the program `args[0]` with its arguments, the output
-- and the input in files where they are given.
pub data Child : Type 0 where
  exits : Child
  executes : (output_file input_file : Option Bytes) → (args : List Bytes) → Child

-- `output_works` and `input_works` say whether `open`, `dup2` and `close` all work.
unfoldable pub child_process :
    (output_works input_works : Bool)
    → (output_file input_file : Option Bytes) → (args : List Bytes) → Child
child_process output_works input_works output_file input_file args =
    if fails output_works output_file || fails input_works input_file
    then exits
    else executes output_file input_file args
  where
    fails : Bool → Option Bytes → Bool
    fails works none = false
    fails works (some file) = not works

-- What the system answers to the shell: the number of the new process (`none` for -1), the memory
-- for its node, and whether `waitpid` works.
pub record RunAnswers : Type 0 where
  pub fork : Option ℤ
  pub fresh : Ptr
  pub waitpid_works : Bool

abbrev pub ampersand : Bytes
ampersand = b'&' ∷ []

-- `args[num_args-1]`, which must not be NULL.
abbrev pub last_arg : List Bytes → ℕ → Option Bytes
last_arg args zero = none
last_arg args (suc n) = get_elem? args n

-- Behind `add_process`, whose result is not looked at.
unfoldable pub wait_unless_background :
    RunAnswers → (pid : ℤ) → (last : Bytes) → ProcessTable → Cmd (ℕ × ProcessTable × List Event)
wait_unless_background os pid last t =
    if eqb_bytes last ampersand
    then pure (cmd_ok, t, [])
    else pure (if os.waitpid_works then cmd_ok else sys_wait_fail, t, waitpid pid ∷ [])

-- The shell's side of `run_cmd`. `buf` is the whole line.
unfoldable pub run_cmd :
    RunAnswers
    → List Bytes
    → (num_args : ℕ) → (buf : Bytes) → ProcessTable
    → Cmd (ℕ × ProcessTable × List Event)
unfolding wait_unless_background
run_cmd os args num_args buf t = elim (redirections args num_args) [
  | none ↦ λ _. fault
  | some (output_file, input_file, left, n) ↦ elim os.fork [
    | none ↦ pure (sys_fork_fail, t, [])
    | some pid ↦ do
      (added, t') ← add_process os.fresh t pid buf
      elim (last_arg left n) [
        | none ↦ λ _. fault
        | some last ↦ wait_unless_background os pid last t'
      ]
  ]
]

-- How a command of the shell ends: with a code, after these events and these printed lines, or
-- with the end of the shell.
pub data Finish : Type 0 where
  finished : ℕ → List Event → (printed : List Bytes) → Finish
  ended : List Event → Finish

pub record ShellAnswers : Type 0 where
  pub jobs : JobsAnswers
  pub signals : Answers
  pub sleeps : List ℕ

abbrev pub with_events : Cmd Result → Cmd Finish
with_events body = do (code, events) ← body; pure (finished code events [])

abbrev pub has_file : Option Bytes → Bool
has_file none = false
has_file (some file) = true

-- A callback takes `args[1]` and what follows, and whether there is a file for the output.
abbrev pub Callback : Type 0
Callback = List Bytes → Option Bytes → ProcessTable → Cmd Finish

unfoldable pub run_jobs : JobsAnswers → Callback
run_jobs os args output_file t = do
  (code, lines) ← jobs_cb os args (has_file output_file) t
  pure (finished code [] lines)

unfoldable pub run_exit : Callback
run_exit args output_file t = do
  ending ← exit_cb args t
  elim ending [ returned code ↦ pure (finished code [] []) | exited events ↦ pure (ended events) ]

-- A sleep that does not come to its end is a fault here.
unfoldable pub run_sleep : List ℕ → Callback
run_sleep remaining args output_file t = elim (sleep_cb remaining args) [
  | none ↦ λ _. fault
  | some (code, events) ↦ pure (finished code events [])
]

unfoldable pub shell_cmd_cbs : ShellAnswers → List Callback
unfolding run_jobs run_exit run_sleep
shell_cmd_cbs os =
    run_jobs os.jobs
    ∷ run_exit
    ∷ (λ args output_file t. with_events (kill_cb os.signals args t))
    ∷ (λ args output_file t. with_events (resume_cb os.signals args t))
    ∷ (λ args output_file t. with_events (suspend_cb os.signals args t))
    ∷ (λ args output_file t. with_events (wait_cb os.signals args t))
    ∷ run_sleep os.sleeps
    ∷ []

-- The call of the callback with the index of `args[0]`. An index outside the array is a fault.
unfoldable pub dispatch : ShellAnswers → List Bytes → Option Bytes → ProcessTable → Cmd Finish
unfolding shell_cmd_cbs
dispatch os [] output_file t = λ _. fault
dispatch os (name ∷ rest) output_file t = elim (str2int name) [
  | negsuc n ↦ λ _. fault
  | pos i ↦ elim (get_elem? (shell_cmd_cbs os) i) [
    | none ↦ λ _. fault
    | some callback ↦ callback rest output_file t
  ]
]

unfoldable pub run_shell_cmd :
    ShellAnswers → List Bytes → (num_args : ℕ) → ProcessTable → Cmd Finish
unfolding dispatch
run_shell_cmd os args num_args t = elim (redirections args num_args) [
  | none ↦ λ _. fault
  | some (output_file, input_file, left, n) ↦ dispatch os left output_file t
]
