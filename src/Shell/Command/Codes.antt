-- ===== src/Shell/Command/Codes.antt =====
-- The codes that the commands of A1/command.c answer: all below NUM_SHELL_ERRORS.
use operating_systems_fa.Common.{
  Bool, Bool-cases, List, Option, [], arith, false, if◌then◌else◌, inl, inr, none, some, some-inj,
  suc, true, zero, ℕ, ◌+◌, ◌<◌, ◌==◌, ◌≡◌,
}
use mathlib.Core.Option
use mathlib.Core.Path.{subst}
use operating_systems_fa.Common.State.{
  Upon, at_fault, at_end, Upon-and_then, Upon-bind, pure, ◌>>=◌,
}
use operating_systems_fa.Common.Atoi.{atoi}
use operating_systems_fa.Shell.Heap.{Ptr, null, Heap, Cmd, load, set_status}
use operating_systems_fa.Shell.Pcb.{ProcessTable, find_proc}
use operating_systems_fa.Shell.Shutdown.{no_arg}
use operating_systems_fa.Shell.Command.{
  Bytes, Answers, Result, one_arg, command_line, signal_through_shell, cont_text, stop_text,
  kill_text, kill_body, resume_body, suspend_body, with_one_arg, wait_cb, kill_cb, resume_cb,
  suspend_cb, wait_body, cmd_args_err, cmd_ok, Event, deep_sleep, sleep_cb,
}
use operating_systems_fa.Shell.Command.Jobs.{JobsAnswers, jobs_loop, jobs_cb, checked, unless}
use operating_systems_fa.Shell.Command.JobLine.{job}

-- `NUM_SHELL_ERRORS` of shell_error.h.
abbrev pub num_shell_errors : ℕ
num_shell_errors = 18

-- The code of a result.
abbrev pub Coded : Result → Heap → Type 0
Coded (code, events) g = code < num_shell_errors

abbrev pub CodedLines : ℕ × List Bytes → Heap → Type 0
CodedLines (code, lines) g = code < num_shell_errors

pub unless-lt :
    (works : Bool) (failure ret : ℕ)
    → failure < num_shell_errors
    → ret < num_shell_errors
    → unless works failure ret < num_shell_errors
unless-lt true failure ret f r = r
unless-lt false failure ret f r = f

signal-Coded :
    (os : Answers) (line : Bytes) (change : Cmd Unit) (h : Heap)
    → Upon Coded (signal_through_shell os line change h)
unfolding signal_through_shell
signal-Coded os line change h = elim (Bool-cases os.popen_works) [
  | inr f ↦ rw f at_fault
  | inl f ↦ rw f (
      Upon-and_then (change h)
        (λ u g. at_end (unless-lt os.pclose_works 10 0 (omega arith) (omega arith))))
]

kill_body-Coded :
    (os : Answers) (t : ProcessTable) (a : Bytes) (h : Heap) → Upon Coded (kill_body os t a h)
unfolding kill_body
kill_body-Coded os t a h = Upon-and_then (find_proc t (atoi a) h) (λ p g.
    Upon-and_then (load p g) (λ c f. elim (Bool-cases (c.info.status == b'S')) [
      | inl e ↦ rw e (at_end (unless-lt os.kill_works 17 0 (omega arith) (omega arith)))
      | inr e ↦
          rw e (Upon-and_then (command_line kill_text a f) (λ line d. signal-Coded os line _ d))
    ]))

-- The part of `resume_cb` and `suspend_cb` behind the search.
restate-Coded :
    (os : Answers) (front a : Bytes) (p : Ptr) (from to missing refused : ℕ) (h : Heap)
    → missing < num_shell_errors
    → refused < num_shell_errors
    → Upon Coded (
        (if p == null then pure (missing, []) else (do
          c ← load p
          if c.info.status == from
              then (do line ← command_line front a; signal_through_shell os line (set_status p to))
              else pure (refused, [])))
          h)
restate-Coded os front a p from to missing refused h m r = elim (Bool-cases (p == null)) [
  | inl e ↦ rw e (at_end m)
  | inr e ↦ rw e (
      Upon-and_then (load p h) (λ c g. elim (Bool-cases (c.info.status == from)) [
        | inr f ↦ rw f (at_end r)
        | inl f ↦ rw f (Upon-and_then (command_line front a g) (λ line d. signal-Coded os line _ d))
      ]))
]

body-Coded :
    (args : List Bytes) (body : Bytes → Cmd Result) (h : Heap)
    → ((a : Bytes) → Upon Coded (body a h))
    → Upon Coded (with_one_arg args body h)
unfolding with_one_arg
body-Coded args body h codes =
    elim (one_arg args)
      as (λ arg.
        Upon Coded
          (elim arg as (λ _. Cmd Result) [ none ↦ pure (cmd_args_err, []) | some a ↦ body a ] h)) [
            | none ↦ at_end (omega arith)
            | some a ↦ codes a
          ]

module _ (os : Answers) (args : List Bytes) (t : ProcessTable) (h : Heap) where
  pub kill_cb-Coded : Upon Coded (kill_cb os args t h)
  unfolding kill_cb
  kill_cb-Coded = body-Coded args (kill_body os t) h (λ a. kill_body-Coded os t a h)

  pub resume_cb-Coded : Upon Coded (resume_cb os args t h)
  unfolding resume_cb resume_body
  resume_cb-Coded = body-Coded args (resume_body os t) h (λ a.
      Upon-and_then (find_proc t (atoi a) h)
        (λ p g. restate-Coded os cont_text a p b'S' b'R' 4 5 g (omega arith) (omega arith)))

  pub suspend_cb-Coded : Upon Coded (suspend_cb os args t h)
  unfolding suspend_cb suspend_body
  suspend_cb-Coded = body-Coded args (suspend_body os t) h (λ a.
      Upon-and_then (find_proc t (atoi a) h)
        (λ p g. restate-Coded os stop_text a p b'R' b'S' 4 6 g (omega arith) (omega arith)))

  pub wait_cb-Coded : Upon Coded (wait_cb os args t h)
  unfolding wait_cb wait_body
  wait_cb-Coded =
      body-Coded args (wait_body os) h
        (λ a. at_end (unless-lt os.waitpid_works 13 0 (omega arith) (omega arith)))

pub sleep_cb-Coded :
    (remaining : List ℕ) (args : List Bytes) {r : Result}
    → sleep_cb remaining args ≡ some r
    → r.0 < num_shell_errors
unfolding sleep_cb
sleep_cb-Coded remaining args {r} = answered (one_arg args)
  where
    slept :
        (events : Option (List Event))
        → Option.map (λ es. (cmd_ok, es)) events ≡ some r
        → r.0 < num_shell_errors
    slept none e = absurd (cc)
    slept (some es) e = subst (λ x. x.0 < num_shell_errors) (some-inj e) (omega arith)

    answered :
        (arg : Option Bytes)
        → elim arg as (λ _. Option Result) [
          | none ↦ some (cmd_args_err, [])
          | some a ↦ Option.map (λ es. (cmd_ok, es)) (deep_sleep remaining (atoi a))
        ]
          ≡ some r
        → r.0 < num_shell_errors
    answered none e = subst (λ x. x.0 < num_shell_errors) (some-inj e) (omega arith)
    answered (some a) e = slept (deep_sleep remaining (atoi a)) e

jobs_loop-Coded :
    (os : JobsAnswers) (k i : ℕ) (p : Ptr) (ret : ℕ) (h : Heap)
    → ret < num_shell_errors
    → Upon CodedLines (jobs_loop os k i p ret h)
unfolding jobs_loop
jobs_loop-Coded os zero i p ret h lt = at_end lt
jobs_loop-Coded os (suc k) i p ret h lt = Upon-and_then (load p h) (λ c g.
    Upon-and_then (checked (job (os.ps i) i c.info) g) (λ line f.
      Upon-bind
        (jobs_loop-Coded os k (i + 1) c.prev _ f
          (unless-lt (os.ps i).pclose_works 10 ret (omega arith) lt))
        (λ rest d coded. at_end coded)))

-- What is closed, copied and closed again when the output goes to a file.
to_file-lt :
    (file_output : Bool) (ret other : ℕ)
    → ret < num_shell_errors
    → other < num_shell_errors
    → (if file_output then ret else other) < num_shell_errors
to_file-lt true ret other r o = r
to_file-lt false ret other r o = o

pub jobs_cb-Coded :
    (os : JobsAnswers) (args : List Bytes) (file_output : Bool) (t : ProcessTable) (h : Heap)
    → Upon CodedLines (jobs_cb os args file_output t h)
unfolding jobs_cb
jobs_cb-Coded os args file_output t h = elim (Bool-cases (no_arg args)) [
  | inr e ↦ rw e (at_end (omega arith))
  | inl e ↦ rw e (
      Upon-bind
        (jobs_loop-Coded os t.num_procs 0 t.tail _ h (
          to_file-lt file_output _ 0
            (unless-lt os.close_works 15 _ (omega arith) (
              unless-lt os.dup2_works 14 _ (omega arith)
                (unless-lt os.dup_works 16 0 (omega arith) (omega arith))))
            (omega arith)))
        (λ (code, lines) g coded. at_end (
          to_file-lt file_output _ code
            (unless-lt os.close_works_again 15 _ (omega arith)
              (unless-lt os.dup2_works_again 14 code (omega arith) coded))
            coded)))
]
