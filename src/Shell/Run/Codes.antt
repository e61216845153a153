-- ===== src/Shell/Run/Codes.antt =====
-- The codes of `run_shell_cmd` and `run_cmd` of A1/shell379.c: all below NUM_SHELL_ERRORS.
use operating_systems_fa.Common.{
  Bool-cases, Each, Each-get, List, Option, [], arith, get_elem?, inl, inr, negsuc, none, pos, some,
  ℕ, ℤ, ◌<◌, ◌∷◌,
}
use operating_systems_fa.Common.State.{
  fault, Upon, at_fault, at_end, Upon-and_then, Upon-bind, Upon-option, pure, ◌>>=◌,
}
use operating_systems_fa.Shell.Heap.{Heap, Cmd}
use operating_systems_fa.Shell.Pcb.{ProcessTable, add_process}
use operating_systems_fa.Shell.Args.{eqb_bytes, redirections, str2int}
use operating_systems_fa.Shell.Shutdown.{Ending, returned, exited}
use operating_systems_fa.Shell.Shutdown.Codes.{CodedEnding, exit_cb-Coded}
use operating_systems_fa.Shell.Command.{
  Bytes, Result, Event, sleep_cb, kill_cb, resume_cb, suspend_cb, wait_cb,
}
use operating_systems_fa.Shell.Command.Codes.{
  num_shell_errors, Coded, unless-lt, jobs_cb-Coded, kill_cb-Coded, resume_cb-Coded,
  suspend_cb-Coded, wait_cb-Coded, sleep_cb-Coded,
}
use operating_systems_fa.Shell.Run.{
  RunAnswers, ShellAnswers, Finish, finished, ended, Callback, ampersand, last_arg, has_file,
  with_events, wait_unless_background, run_cmd, run_jobs, run_exit, run_sleep, shell_cmd_cbs,
  dispatch, run_shell_cmd, sys_fork_fail,
}

-- The code of a command of the shell that comes back, and of any other command.
abbrev pub CodedFinish : Finish → Heap → Type 0
CodedFinish (finished code events printed) g = code < num_shell_errors
CodedFinish (ended events) g = Unit

abbrev pub CodedRun : ℕ × ProcessTable × List Event → Heap → Type 0
CodedRun (code, t, events) g = code < num_shell_errors

module _ (t : ProcessTable) (h : Heap) where
  abbrev Answers : Callback → Type 0
  Answers callback =
      (args : List Bytes) (file : Option Bytes) → Upon CodedFinish (callback args file t h)

  with_events-Coded :
      (body : Cmd Result) → Upon Coded (body h) → Upon CodedFinish (with_events body h)
  with_events-Coded body coded = Upon-bind coded (λ r g lt. at_end lt)

  run_exit-Coded : Answers run_exit
  unfolding run_exit
  run_exit-Coded args file =
      Upon-bind (exit_cb-Coded args t h) (λ ending g coded. finish ending g coded)
    where
      finish :
          (ending : Ending) (g : Heap)
          → CodedEnding ending g
          → Upon CodedFinish (
              elim ending as (λ _. Cmd Finish) [
                | returned code ↦ pure (finished code [] [])
                | exited events ↦ pure (ended events)
              ]
                g)
      finish (returned code) g coded = at_end coded
      finish (exited events) g coded = at_end tt

  cbs-Coded : (os : ShellAnswers) → Each Answers (shell_cmd_cbs os)
  unfolding shell_cmd_cbs run_jobs run_sleep
  cbs-Coded os = (
    (λ args file. Upon-bind (jobs_cb-Coded os.jobs args (has_file file) t h) (λ r g lt. at_end lt)),
    (
      run_exit-Coded,
      (
        (λ args file.
            with_events-Coded (kill_cb os.signals args t) (kill_cb-Coded os.signals args t h)),
        (
          (λ args file.
              with_events-Coded (resume_cb os.signals args t)
                (resume_cb-Coded os.signals args t h)),
          (
            (λ args file.
                with_events-Coded (suspend_cb os.signals args t)
                  (suspend_cb-Coded os.signals args t h)),
            (
              (λ args file.
                  with_events-Coded (wait_cb os.signals args t)
                    (wait_cb-Coded os.signals args t h)),
              (
                (λ args file.
                    Upon-option (sleep_cb os.sleeps args)
                      (λ (code, events). pure (finished code events [])) h
                      (λ r e. at_end (sleep_cb-Coded os.sleeps args e))),
                tt,
              ),
            ),
          ),
        ),
      ),
    ),
  )

  dispatch-Coded : (os : ShellAnswers) → Answers (λ args file. dispatch os args file)
  unfolding dispatch
  dispatch-Coded os [] file = at_fault
  dispatch-Coded os (name ∷ rest) file =
      elim (str2int name)
        as (λ k. Upon CodedFinish (
          elim k as (λ _. Cmd Finish) [
            | negsuc n ↦ λ _. fault
            | pos i ↦ elim (get_elem? (shell_cmd_cbs os) i) [
              | none ↦ λ _. fault
              | some callback ↦ callback rest file t
            ]
          ]
            h)) [
              | negsuc n ↦ at_fault
              | pos i ↦
                  Upon-option (get_elem? (shell_cmd_cbs os) i) (λ callback. callback rest file t) h
                    (λ callback at.
                      Each-get Answers (shell_cmd_cbs os) i (cbs-Coded os) at rest file)
            ]

  pub run_shell_cmd-Coded :
      (os : ShellAnswers) (args : List Bytes) (num_args : ℕ)
      → Upon CodedFinish (run_shell_cmd os args num_args t h)
  unfolding run_shell_cmd
  run_shell_cmd-Coded os args num_args =
      Upon-option (redirections args num_args)
        (λ (output_file, input_file, left, n). dispatch os left output_file t) h
        (λ r e. dispatch-Coded os r.2 r.0)

  wait-CodedRun :
      (os : RunAnswers) (pid : ℤ) (last : Bytes) (t' : ProcessTable) (g : Heap)
      → Upon CodedRun (wait_unless_background os pid last t' g)
  unfolding wait_unless_background
  wait-CodedRun os pid last t' g = elim (Bool-cases (eqb_bytes last ampersand)) [
    | inl e ↦ rw e (at_end (omega arith))
    | inr e ↦ rw e (at_end (unless-lt os.waitpid_works 13 0 (omega arith) (omega arith)))
  ]

  pub run_cmd-Coded :
      (os : RunAnswers) (args : List Bytes) (num_args : ℕ) (buf : Bytes)
      → Upon CodedRun (run_cmd os args num_args buf t h)
  unfolding run_cmd
  run_cmd-Coded os args num_args buf =
      Upon-option (redirections args num_args)
        (λ (output_file, input_file, left, n). elim os.fork [
          | none ↦ pure (sys_fork_fail, t, [])
          | some pid ↦ do
            (ret, t') ← add_process os.fresh t pid buf
            elim (last_arg left n) [
              | none ↦ λ _. fault
              | some last ↦ wait_unless_background os pid last t'
            ]
        ])
        h (λ r e. forked os.fork (last_arg r.2 r.3))
    where
      forked :
          (fork : Option ℤ) (last : Option Bytes)
          → Upon CodedRun (
              elim fork as (λ _. Cmd (ℕ × ProcessTable × List Event)) [
                | none ↦ pure (sys_fork_fail, t, [])
                | some pid ↦ do
                  (ret, t') ← add_process os.fresh t pid buf
                  elim last [
                    | none ↦ λ _. fault
                    | some last ↦ wait_unless_background os pid last t'
                  ]
              ]
                h)
      forked none last = at_end (omega arith)
      forked (some pid) last = Upon-and_then (add_process os.fresh t pid buf h) (λ (ret, t') g.
          Upon-option last (λ l. wait_unless_background os pid l t') g
            (λ l e. wait-CodedRun os pid l t' g))
