-- ===== src/Shell/Run/Kept.antt =====
-- `run_shell_cmd` and `run_cmd` of A1/shell379.c on a process table: each comes to an end or is a
-- fault, and the memory then holds a table again.
use operating_systems_fa.Common.{
  Bool-cases, Each, Each-get, List, Option, [], get_elem?, inl, inr, negsuc, none, pos, refl, some,
  ℕ, ℤ, ◌∷◌, ◌≡◌,
}
use operating_systems_fa.Common.State.{
  fault, Sound, faulty, sound, Sound-and_then, and_then, pure, ◌>>=◌, Sound-option,
}
use operating_systems_fa.Shell.Heap.{Heap, Cmd}
use operating_systems_fa.Shell.Pcb.{ProcessTable, add_process}
use operating_systems_fa.Shell.Pcb.Cells.{Cells, IsTable}
use operating_systems_fa.Shell.Pcb.Add.{add_process-Sound}
use operating_systems_fa.Shell.Shutdown.{returned, exited}
use operating_systems_fa.Shell.Shutdown.Kept.{exit_cb-Sound}
use operating_systems_fa.Shell.Args.{eqb_bytes, redirections, str2int}
use operating_systems_fa.Shell.Command.{
  Bytes, Result, Event, sleep_cb, kill_cb, resume_cb, suspend_cb, wait_cb,
}
use operating_systems_fa.Shell.Command.Jobs.{JobsAnswers}
use operating_systems_fa.Shell.Command.Evolved.{added, Kept, unchanged-Kept}
use operating_systems_fa.Shell.Command.Kept.{
  Leaves-Kept, jobs_cb-Sound, kill_cb-Sound, resume_cb-Sound, suspend_cb-Sound, wait_cb-Sound,
}
use operating_systems_fa.Shell.Run.{
  RunAnswers, ShellAnswers, Finish, finished, ended, Callback, ampersand, last_arg, has_file,
  with_events, wait_unless_background, run_cmd, run_jobs, run_exit, run_sleep, shell_cmd_cbs,
  dispatch, run_shell_cmd, sys_fork_fail,
}

module _ {h : Heap} {t : ProcessTable} {xs : Cells} (is : IsTable h t xs) where
  with_events-Sound :
      (body : Cmd Result) → Sound (Kept t xs) (body h) → Sound (Kept t xs) (with_events body h)
  with_events-Sound body keeps = Sound-and_then keeps (λ r g kept. sound kept)

  run_jobs-Sound :
      (os : JobsAnswers) (args : List Bytes) (file : Option Bytes)
      → Sound (Kept t xs) (run_jobs os args file t h)
  unfolding run_jobs
  run_jobs-Sound os args file =
      Sound-and_then (Leaves-Kept is (jobs_cb-Sound os args (has_file file) t h))
        (λ r g kept. sound kept)

  run_exit-Sound :
      (args : List Bytes) (file : Option Bytes) → Sound (Kept t xs) (run_exit args file t h)
  unfolding run_exit
  run_exit-Sound args file =
      Sound-and_then (Leaves-Kept is (exit_cb-Sound args t h)) (λ ending g kept.
        elim ending
          as (λ e. Sound (Kept t xs) (
            elim e as (λ _. Cmd Finish) [
              | returned code ↦ pure (finished code [] [])
              | exited events ↦ pure (ended events)
            ]
              g)) [ returned code ↦ sound kept | exited events ↦ sound kept ])

  run_sleep-Sound :
      (remaining : List ℕ) (args : List Bytes) (file : Option Bytes)
      → Sound (Kept t xs) (run_sleep remaining args file t h)
  unfolding run_sleep
  run_sleep-Sound remaining args file =
      Sound-option (sleep_cb remaining args) (λ (code, events). pure (finished code events [])) h
        (λ r e. sound (unchanged-Kept is))

  abbrev Keeps : Callback → Type 0
  Keeps callback =
      (args : List Bytes) (file : Option Bytes) → Sound (Kept t xs) (callback args file t h)

  cbs-Keeps : (os : ShellAnswers) → Each Keeps (shell_cmd_cbs os)
  unfolding shell_cmd_cbs
  cbs-Keeps os = (
    run_jobs-Sound os.jobs,
    (
      run_exit-Sound,
      (
        (λ args file.
            with_events-Sound (kill_cb os.signals args t) (kill_cb-Sound is os.signals args)),
        (
          (λ args file.
              with_events-Sound (resume_cb os.signals args t) (resume_cb-Sound is os.signals args)),
          (
            (λ args file.
                with_events-Sound (suspend_cb os.signals args t)
                  (suspend_cb-Sound is os.signals args)),
            (
              (λ args file.
                  with_events-Sound (wait_cb os.signals args t) (wait_cb-Sound is os.signals args)),
              (run_sleep-Sound os.sleeps, tt),
            ),
          ),
        ),
      ),
    ),
  )

  dispatch-Sound :
      (os : ShellAnswers) (args : List Bytes) (file : Option Bytes)
      → Sound (Kept t xs) (dispatch os args file t h)
  unfolding dispatch
  dispatch-Sound os [] file = faulty
  dispatch-Sound os (name ∷ rest) file =
      elim (str2int name)
        as (λ k. Sound (Kept t xs) (
          elim k as (λ _. Cmd Finish) [
            | negsuc n ↦ λ _. fault
            | pos i ↦ elim (get_elem? (shell_cmd_cbs os) i) [
              | none ↦ λ _. fault
              | some callback ↦ callback rest file t
            ]
          ]
            h)) [
              | negsuc n ↦ faulty
              | pos i ↦
                  Sound-option (get_elem? (shell_cmd_cbs os) i) (λ callback. callback rest file t) h
                    (λ callback at. Each-get Keeps (shell_cmd_cbs os) i (cbs-Keeps os) at rest file)
            ]

  -- A command of the shell, of any words.
  pub run_shell_cmd-Sound :
      (os : ShellAnswers) (args : List Bytes) (num_args : ℕ)
      → Sound (Kept t xs) (run_shell_cmd os args num_args t h)
  unfolding run_shell_cmd
  run_shell_cmd-Sound os args num_args =
      Sound-option (redirections args num_args)
        (λ (output_file, input_file, left, n). dispatch os left output_file t) h
        (λ r e. dispatch-Sound os r.2 r.0)

  -- What holds of the table that `run_cmd` returns.
  abbrev pub KeptIn : ℕ × ProcessTable × List Event → Heap → Type 0
  KeptIn (code, t', events) g = Kept t' xs tt g

  wait-KeptIn :
      (os : RunAnswers) (pid : ℤ) (last : Bytes) (t' : ProcessTable) (g : Heap)
      → Kept t' xs tt g
      → Sound KeptIn (wait_unless_background os pid last t' g)
  unfolding wait_unless_background
  wait-KeptIn os pid last t' g keeps = elim (Bool-cases (eqb_bytes last ampersand)) [
    | inl e ↦ rw e (sound keeps)
    | inr e ↦ rw e (sound keeps)
  ]

  start-KeptIn :
      (os : RunAnswers) (pid : ℤ) (buf : Bytes) (last : Option Bytes)
      → h os.fresh ≡ none
      → Sound KeptIn (
          and_then (add_process os.fresh t pid buf h) (λ (ret, t'). elim last [
            | none ↦ λ _. fault
            | some last ↦ wait_unless_background os pid last t'
          ]))
  start-KeptIn os pid buf last unused =
      Sound-and_then (add_process-Sound os.fresh pid buf is unused) (λ (ret, t') g p.
        Sound-option last (λ l. wait_unless_background os pid l t') g
          (λ l e. wait-KeptIn os pid l t' g (elim p [
            | inl (same, left) ↦ rw (same, left) (unchanged-Kept is)
            | inr (room, new) ↦ (_, added os.fresh pid buf refl room, new.1)
          ])))

  -- Any other command, of any words, where the memory for the node was free.
  pub run_cmd-Sound :
      (os : RunAnswers) (args : List Bytes) (num_args : ℕ) (buf : Bytes)
      → h os.fresh ≡ none
      → Sound KeptIn (run_cmd os args num_args buf t h)
  unfolding run_cmd
  run_cmd-Sound os args num_args buf unused =
      Sound-option (redirections args num_args)
        (λ (output_file, input_file, left, n). elim os.fork [
          | none ↦ pure (sys_fork_fail, t, [])
          | some pid ↦ do
            (ret, t') ← add_process os.fresh t pid buf
            elim (last_arg left n) [
              | none ↦ λ _. fault
              | some last ↦ wait_unless_background os pid last t'
            ]
        ])
        h (λ r e. forked os.fork (last_arg r.2 r.3))
    where
      forked :
          (fork : Option ℤ) (last : Option Bytes)
          → Sound KeptIn (
              elim fork as (λ _. Cmd (ℕ × ProcessTable × List Event)) [
                | none ↦ pure (sys_fork_fail, t, [])
                | some pid ↦ do
                  (ret, t') ← add_process os.fresh t pid buf
                  elim last [
                    | none ↦ λ _. fault
                    | some last ↦ wait_unless_background os pid last t'
                  ]
              ]
                h)
      forked none last = sound (unchanged-Kept is)
      forked (some pid) last = start-KeptIn os pid buf last unused
