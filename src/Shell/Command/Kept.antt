-- ===== src/Shell/Command/Kept.antt =====
-- The commands of A1/command.c on a process table: each comes to an end or is a fault, and the
-- memory then holds a table again.
use operating_systems_fa.Common.{
  Bool, Bool-cases, List, Option, [], arith, if◌then◌else◌, inl, inr, length, ltb, none, refl, some,
  suc, zero, ℕ, ℤ, ◌++◌, ◌+◌, ◌==◌, ◌∙◌,
}
use operating_systems_fa.Common.State.{
  Outcome, Sound, faulty, sound, Sound-and_then, and_then, pure, ◌>>=◌,
}
use operating_systems_fa.Common.Atoi.{atoi}
use operating_systems_fa.Shell.Heap.{Ptr, null, Heap, Cmd, load, set_status}
use operating_systems_fa.Shell.Heap.Reads.{Leaves, load-Sound}
use operating_systems_fa.Shell.Pcb.{ProcessTable}
use operating_systems_fa.Shell.Pcb.Cells.{Cells, IsTable}
use operating_systems_fa.Shell.Pcb.Find.{first_with, find_proc-first_with}
use operating_systems_fa.Shell.Shutdown.{no_arg}
use operating_systems_fa.Shell.Command.{
  Bytes, Answers, Result, max_length, one_arg, command_line, signal_through_shell, cont_text,
  stop_text, kill_text, kill_body, resume_body, suspend_body, with_one_arg, wait_cb, kill_cb,
  resume_cb, suspend_cb, wait_body, cmd_args_err, cmd_proc_not_fnd, cmd_proc_not_susp,
  cmd_proc_not_run,
}
use operating_systems_fa.Shell.Command.Jobs.{JobsAnswers, jobs_loop, jobs_cb, checked}
use operating_systems_fa.Shell.Command.JobLine.{job}
use operating_systems_fa.Shell.Command.Evolved.{IsStatus, Kept, unchanged-Kept, set_status-Kept}

checked-Sound : (line : Option Bytes) (g : Heap) → Sound (Leaves g) (checked line g)
checked-Sound none g = faulty
checked-Sound (some line) g = sound refl

jobs_loop-Sound :
    (os : JobsAnswers) (k i : ℕ) (p : Ptr) (ret : ℕ) (h : Heap)
    → Sound (Leaves h) (jobs_loop os k i p ret h)
unfolding jobs_loop
jobs_loop-Sound os zero i p ret h = sound refl
jobs_loop-Sound os (suc k) i p ret h = Sound-and_then (load-Sound p h) (λ c g e.
    Sound-and_then (checked-Sound (job (os.ps i) i c.info) g) (λ line f e'.
      Sound-and_then (jobs_loop-Sound os k (i + 1) c.prev _ f)
        (λ rest d e''. sound (e'' ∙ e' ∙ e))))

pub jobs_cb-Sound :
    (os : JobsAnswers) (args : List Bytes) (file_output : Bool) (t : ProcessTable) (h : Heap)
    → Sound (Leaves h) (jobs_cb os args file_output t h)
unfolding jobs_cb
jobs_cb-Sound os args file_output t h = elim (Bool-cases (no_arg args)) [
  | inl e ↦
      rw e (Sound-and_then (jobs_loop-Sound os t.num_procs 0 t.tail _ h) (λ r g same. sound same))
  | inr e ↦ rw e (sound refl)
]

module _ {h : Heap} {t : ProcessTable} {xs : Cells} (is : IsTable h t xs) where
  pub Leaves-Kept :
      {A : Type 0} {run : Outcome Heap A} → Sound (Leaves h) run → Sound (Kept t xs) run
  Leaves-Kept faulty = faulty
  Leaves-Kept (sound e) = sound (rw e (unchanged-Kept is))

  -- A command line for the shell, and what is changed if the shell starts.
  signal-Sound :
      (os : Answers) (front a : Bytes) (change : Cmd Unit)
      → Sound (Kept t xs) (change h)
      → Sound
          (Kept t xs)
          (and_then (command_line front a h) (λ line. signal_through_shell os line change))
  unfolding command_line signal_through_shell
  signal-Sound os front a change changed =
      elim (Bool-cases (ltb (length (front ++ a)) max_length)) [
        | inr e ↦ rw e faulty
        | inl e ↦ rw e (elim (Bool-cases os.popen_works) [
          | inr f ↦ rw f faulty
          | inl f ↦ rw f (Sound-and_then changed (λ u g kept. sound kept))
        ])
      ]

  kill_body-Sound : (os : Answers) (a : Bytes) → Sound (Kept t xs) (kill_body os t a h)
  unfolding kill_body
  kill_body-Sound os a =
      rw (kill_body, find_proc-first_with (atoi a) is)
        (Sound-and_then (load-Sound (first_with (atoi a) xs) h) (λ c g e.
          rw e (elim (Bool-cases (c.info.status == b'S')) [
            | inl f ↦ rw f (sound (unchanged-Kept is))
            | inr f ↦ rw f (signal-Sound os kill_text a _ (sound (unchanged-Kept is)))
          ])))

  -- The part of `resume_cb` and `suspend_cb` behind the search.
  restate-Sound :
      (os : Answers) (front a : Bytes) (pid : ℤ) (from to refused : ℕ)
      → IsStatus to
      → Sound (Kept t xs) (
          (if first_with pid xs == null then pure (cmd_proc_not_fnd, []) else (do
            c ← load (first_with pid xs)
            if c.info.status == from
                then (do
                  line ← command_line front a
                  signal_through_shell os line (set_status (first_with pid xs) to))
                else pure (refused, [])))
            h)
  restate-Sound os front a pid from to refused is_to =
      elim (Bool-cases (first_with pid xs == null)) [
        | inl e ↦ rw e (sound (unchanged-Kept is))
        | inr e ↦ rw e (
            Sound-and_then (load-Sound (first_with pid xs) h) (λ c g same.
              rw same (elim (Bool-cases (c.info.status == from)) [
                | inr f ↦ rw f (sound (unchanged-Kept is))
                | inl f ↦ rw f (
                    signal-Sound os front a (set_status (first_with pid xs) to)
                      (set_status-Kept is pid to (ground (arith, e)) is_to))
              ])))
      ]

  body-Sound :
      (args : List Bytes) (body : Bytes → Cmd Result)
      → ((a : Bytes) → Sound (Kept t xs) (body a h))
      → Sound (Kept t xs) (with_one_arg args body h)
  unfolding with_one_arg
  body-Sound args body keeps =
      elim (one_arg args)
        as (λ arg.
          Sound (Kept t xs) (
            elim arg as (λ _. Cmd Result) [ none ↦ pure (cmd_args_err, []) | some a ↦ body a ] h)) [
              | none ↦ sound (unchanged-Kept is)
              | some a ↦ keeps a
            ]

  pub kill_cb-Sound : (os : Answers) (args : List Bytes) → Sound (Kept t xs) (kill_cb os args t h)
  unfolding kill_cb
  kill_cb-Sound os args = body-Sound args (kill_body os t) (kill_body-Sound os)

  pub resume_cb-Sound :
      (os : Answers) (args : List Bytes) → Sound (Kept t xs) (resume_cb os args t h)
  unfolding resume_cb resume_body
  resume_cb-Sound os args = body-Sound args (resume_body os t) (λ a.
      rw (resume_body, find_proc-first_with (atoi a) is)
        (restate-Sound os cont_text a (atoi a) b'S' b'R' cmd_proc_not_susp (inl refl)))

  pub suspend_cb-Sound :
      (os : Answers) (args : List Bytes) → Sound (Kept t xs) (suspend_cb os args t h)
  unfolding suspend_cb suspend_body
  suspend_cb-Sound os args = body-Sound args (suspend_body os t) (λ a.
      rw (suspend_body, find_proc-first_with (atoi a) is)
        (restate-Sound os stop_text a (atoi a) b'R' b'S' cmd_proc_not_run (inr refl)))

  pub wait_cb-Sound : (os : Answers) (args : List Bytes) → Sound (Kept t xs) (wait_cb os args t h)
  unfolding wait_cb wait_body
  wait_cb-Sound os args = body-Sound args (wait_body os) (λ a. sound (unchanged-Kept is))
