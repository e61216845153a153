-- ===== src/Shell/Command.antt =====
-- A1/command.c: the commands of the shell that signal a process of the table. An argument is the
-- list of its bytes; `args` is `args[1]` and what follows, up to NULL, and is read in this order
-- and never behind NULL. `open`, `dup2` and the files of a redirection occur only in `jobs_cb`,
-- which is in Jobs.
pub mod Status
pub mod Signals
pub mod Refusals
pub mod Sleep
pub mod JobLine
pub mod Jobs
pub mod Evolved
pub mod Kept
pub mod Codes
mod Examples
use operating_systems_fa.Common.{
  Bool, List, Option, [], false, if◌then◌else◌, length, ltb, map, none, pos, some, suc, zero, ℕ, ℤ,
  ◌++◌, ◌==◌, ◌∷◌,
}
use mathlib.Core.Option
use operating_systems_fa.Common.State.{pure, fault, ◌>>=◌, ◌>>◌}
use operating_systems_fa.Common.Atoi.{atoi}
use operating_systems_fa.Shell.Heap.{Ptr, null, Cmd, load, set_status}
use operating_systems_fa.Shell.Pcb.{ProcessTable, find_proc}

-- The return codes of shell_error.h.
abbrev pub cmd_ok : ℕ
cmd_ok = 0

abbrev pub cmd_args_err : ℕ
cmd_args_err = 3

abbrev pub cmd_proc_not_fnd : ℕ
cmd_proc_not_fnd = 4

abbrev pub cmd_proc_not_susp : ℕ
cmd_proc_not_susp = 5

abbrev pub cmd_proc_not_run : ℕ
cmd_proc_not_run = 6

abbrev pub sys_pclose_fail : ℕ
sys_pclose_fail = 10

abbrev pub sys_wait_fail : ℕ
sys_wait_fail = 13

abbrev pub sys_kill_fail : ℕ
sys_kill_fail = 17

-- `MAX_LENGTH` of command.h.
abbrev pub max_length : ℕ
max_length = 20

abbrev pub Bytes : Type 0
Bytes = List ℕ

-- What the system calls of one command answer.
pub record Answers : Type 0 where
  pub popen_works : Bool
  pub pclose_works : Bool
  pub kill_works : Bool
  pub waitpid_works : Bool

-- What a command does outside the shell: a command line given to `popen`, a SIGKILL, a wait, and
-- a sleep for so many seconds.
pub data Event : Type 0 where
  popen : Bytes → Event
  sigkill : ℤ → Event
  waitpid : ℤ → Event
  sleep : ℤ → Event

abbrev pub Result : Type 0
Result = ℕ × List Event

-- The test of the arguments, the same in all these commands: one argument, or one and then "&".
abbrev is_ampersand : Bytes → Bool
is_ampersand (c ∷ []) = c == b'&'
is_ampersand _ = false

pub one_arg : List Bytes → Option Bytes
one_arg [] = none
one_arg (a ∷ []) = some a
one_arg (a ∷ b ∷ []) = if is_ampersand b then some a else none
one_arg (a ∷ b ∷ c ∷ rest) = none

-- `sprintf(s, "kill ... %s", args[1])` into `char s[MAX_LENGTH]`: the text and its NUL must fit.
pub command_line : Bytes → Bytes → Cmd Bytes
command_line front a h =
    let line = front ++ a in if ltb (length line) max_length then pure line h else fault

-- `popen`, the change of the status if it works, and `pclose`, which is called for NULL too: there
-- it is undefined.
pub signal_through_shell : Answers → Bytes → Cmd (Unit {0}) → Cmd Result
signal_through_shell os line change =
    if os.popen_works
    then (do change; pure (if os.pclose_works then cmd_ok else sys_pclose_fail, popen line ∷ []))
    else (λ _. fault)

-- "kill ", "kill -s 18 " and "kill -s 19 ", with the numbers of SIGCONT and SIGSTOP on Linux.
abbrev pub kill_text : Bytes
kill_text = b'k' ∷ b'i' ∷ b'l' ∷ b'l' ∷ 32 ∷ []

abbrev pub cont_text : Bytes
cont_text = kill_text ++ b'-' ∷ b's' ∷ 32 ∷ b'1' ∷ b'8' ∷ 32 ∷ []

abbrev pub stop_text : Bytes
stop_text = kill_text ++ b'-' ∷ b's' ∷ 32 ∷ b'1' ∷ b'9' ∷ 32 ∷ []

-- The bodies of the commands, behind the test of the arguments. `kill_cb` does not ask whether
-- the process has been found: for NULL the read of `status` is a fault.
kill_body : Answers → ProcessTable → Bytes → Cmd Result
kill_body os t a = do
  p ← find_proc t (atoi a)
  c ← load p
  if c.info.status == b'S'
      then pure (if os.kill_works then cmd_ok else sys_kill_fail, sigkill c.info.pid ∷ [])
      else (do line ← command_line kill_text a; signal_through_shell os line (pure tt))

resume_body : Answers → ProcessTable → Bytes → Cmd Result
resume_body os t a = do
  p ← find_proc t (atoi a)
  if p == null then pure (cmd_proc_not_fnd, []) else (do
    c ← load p
    if c.info.status == b'S'
        then (do line ← command_line cont_text a; signal_through_shell os line (set_status p b'R'))
        else pure (cmd_proc_not_susp, []))

suspend_body : Answers → ProcessTable → Bytes → Cmd Result
suspend_body os t a = do
  p ← find_proc t (atoi a)
  if p == null then pure (cmd_proc_not_fnd, []) else (do
    c ← load p
    if c.info.status == b'R'
        then (do line ← command_line stop_text a; signal_through_shell os line (set_status p b'S'))
        else pure (cmd_proc_not_run, []))

wait_body : Answers → Bytes → Cmd Result
wait_body os a = pure (if os.waitpid_works then cmd_ok else sys_wait_fail, waitpid (atoi a) ∷ [])

-- `remaining` is what the calls of `sleep` return, one after the other: the seconds that are left
-- when a signal ends one. Another call is made until none are left; without an answer the command
-- does not come to an end, which the events show by `none`.
pub deep_sleep : List ℕ → ℤ → Option (List Event)
deep_sleep [] seconds = none
deep_sleep (zero ∷ remaining) seconds = some (sleep seconds ∷ [])
deep_sleep (suc r ∷ remaining) seconds =
    Option.map (λ es. sleep seconds ∷ es) (deep_sleep remaining (pos (suc r)))

with_one_arg : List Bytes → (Bytes → Cmd Result) → Cmd Result
with_one_arg args body = elim (one_arg args) [ none ↦ pure (cmd_args_err, []) | some a ↦ body a ]

pub kill_cb : Answers → List Bytes → ProcessTable → Cmd Result
kill_cb os args t = with_one_arg args (kill_body os t)

pub resume_cb : Answers → List Bytes → ProcessTable → Cmd Result
resume_cb os args t = with_one_arg args (resume_body os t)

pub suspend_cb : Answers → List Bytes → ProcessTable → Cmd Result
suspend_cb os args t = with_one_arg args (suspend_body os t)

pub wait_cb : Answers → List Bytes → ProcessTable → Cmd Result
unfolding with_one_arg wait_body one_arg
wait_cb os args t = with_one_arg args (wait_body os)

-- `none` if the sleep does not come to an end.
pub sleep_cb : List ℕ → List Bytes → Option Result
unfolding one_arg deep_sleep
sleep_cb remaining args = elim (one_arg args) [
  | none ↦ some (cmd_args_err, [])
  | some a ↦ Option.map (λ es. (cmd_ok, es)) (deep_sleep remaining (atoi a))
]
