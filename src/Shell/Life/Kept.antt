-- ===== src/Shell/Life/Kept.antt =====
-- What holds of the process table as long as the shell of A1 runs.
use operating_systems_fa.Common.{
  Bool-cases, List, [], ap, arith, if◌then◌else◌, inl, inr, length, none, refl, some, true, ℕ, ℤ,
  ◌++◌, ◌+◌, ◌==◌, ◌∷◌, ◌≡◌, ◌⊎◌,
}
use mathlib.Core.Path.{subst}
use operating_systems_fa.Common.State.{
  ok, pure, ◌>>=◌, fault, Sound, faulty, sound, Sound-and_then, Sound-ok,
}
use operating_systems_fa.Shell.Heap.{Ptr, Heap, Info, Cmd}
use operating_systems_fa.Shell.Pcb.{ProcessTable}
use operating_systems_fa.Shell.Pcb.Cells.{Cells, IsTable}
use operating_systems_fa.Shell.Pcb.Cleanup.{
  Poll, gone, AllStay, printed, table_cleanup-stay, table_cleanup-use_after_free,
}
use operating_systems_fa.Shell.Args.{is_shell_cmd}
use operating_systems_fa.Shell.Line.{Reading, read_input}
use operating_systems_fa.Shell.Command.{cmd_ok}
use operating_systems_fa.Shell.Command.Evolved.{
  Evolved, IsSmall, Evolved-IsSmall, Kept, unchanged-Kept,
}
use operating_systems_fa.Shell.Run.{
  RunAnswers, ShellAnswers, Finish, finished, ended, run_cmd, run_shell_cmd,
}
use operating_systems_fa.Shell.Run.Kept.{run_shell_cmd-Sound, run_cmd-Sound}
use operating_systems_fa.Shell.Main.{Round, hangs, over, next, next_or_over, execute, round}
use operating_systems_fa.Shell.Life.{
  Shell, initial, proc_exit, ShellStep, rounded, handled, ShellReach, here, later,
}

-- After a round: the table that the next one starts with, or that there was at the end.
abbrev pub RoundKept : ProcessTable → Cells → Round → Heap → Type 0
RoundKept t xs hangs g = Kept t xs tt g
RoundKept t xs (over events) g = Kept t xs tt g
RoundKept t xs (next code events printed t' rest) g = Kept t' xs tt g

finish-RoundKept :
    {t : ProcessTable} {xs : Cells} (rest : List ℕ) (finish : Finish) (g : Heap)
    → Kept t xs tt g
    → RoundKept t xs (next_or_over t rest finish) g
finish-RoundKept rest (finished code events printed) g keeps = keeps
finish-RoundKept rest (ended events) g keeps = keeps

gone_at :
    (waitpid : ℕ → ℤ → Poll) (pid : ℤ) {i j : ℕ}
    → i ≡ j
    → gone (waitpid i pid) ≡ true
    → gone (waitpid j pid) ≡ true
gone_at waitpid pid e left = subst (λ k. gone (waitpid k pid) ≡ true) e left

-- Either none of the processes is gone, or there is a first one that is.
first-gone :
    (waitpid : ℕ → ℤ → Poll) (i : ℕ) (xs : Cells)
    → AllStay waitpid i xs
      ⊎ ((ys : Cells) × (a : Ptr) × (v : Info) × (zs : Cells) × (xs ≡ ys ++ (a, v) ∷ zs)
          × AllStay waitpid i ys
          × (gone (waitpid (i + length ys) v.pid) ≡ true))
first-gone waitpid i [] = inl tt
first-gone waitpid i ((a, v) ∷ xs) = elim (Bool-cases (gone (waitpid i v.pid))) [
  | inl left ↦ inr ([], a, v, xs, refl, tt, gone_at waitpid v.pid (omega arith) left)
  | inr stays ↦ elim (first-gone waitpid (i + 1) xs) [
    | inl all ↦ inl (stays, all)
    | inr (ys, b, w, zs, e, all, left) ↦ inr (
      (a, v) ∷ ys,
      b,
      w,
      zs,
      ap (λ l. (a, v) ∷ l) e,
      (stays, all),
      gone_at waitpid w.pid (omega arith) left,
    )
  ]
]

module _ {h : Heap} {t : ProcessTable} {xs : Cells} (is : IsTable h t xs) where
  execute-Sound :
      (os : ShellAnswers) (child : RunAnswers) (reading : Reading) (rest : List ℕ)
      → h child.fresh ≡ none
      → Sound (RoundKept t xs) (execute os child reading rest t h)
  unfolding execute
  execute-Sound os child reading rest unused =
      elim reading.args
        as (λ args. Sound (RoundKept t xs) (
          elim args as (λ _. Cmd Round) [
            | [] ↦ λ _. fault
            | name ∷ more ↦
                if is_shell_cmd name
                then (do
                  finish ← run_shell_cmd os reading.args reading.num_args t
                  pure (next_or_over t rest finish))
                else (do
                  (code, t', events) ← run_cmd child reading.args reading.num_args reading.buf t
                  pure (next code events [] t' rest))
          ]
            h)) [
              | [] ↦ faulty
              | name ∷ more ↦ elim (Bool-cases (is_shell_cmd name)) [
                | inl e ↦ rw e (
                    Sound-and_then (run_shell_cmd-Sound is os reading.args reading.num_args)
                      (λ finish g keeps. sound (finish-RoundKept rest finish g keeps)))
                | inr e ↦ rw e (
                    Sound-and_then
                      (run_cmd-Sound is child reading.args reading.num_args reading.buf unused)
                      (λ r g keeps. sound keeps))
              ]
            ]

  -- A round of the loop on any input, whatever the system answers, is a fault or comes to one of
  -- its ends, and no loop on the table runs out of rounds. In the memory at the end the table (the
  -- one that the next round starts with, if there is one) stands for the processes as they were,
  -- but that one may have another status, or that a running one may be new in front.
  pub round-Sound :
      (os : ShellAnswers) (child : RunAnswers) (input : List ℕ)
      → h child.fresh ≡ none
      → Sound (RoundKept t xs) (round os child input t h)
  unfolding round
  round-Sound os child input unused =
      elim (read_input input)
        as (λ r. Sound (RoundKept t xs) (
          elim r as (λ _. Cmd Round) [
            | none ↦ pure hangs
            | some (reading, rest) ↦
                if reading.code == cmd_ok
                then execute os child reading rest t
                else pure (next reading.code [] [] t rest)
          ]
            h)) [
              | none ↦ sound (unchanged-Kept is)
              | some (reading, rest) ↦ elim (Bool-cases (reading.code == cmd_ok)) [
                | inl e ↦ rw e (execute-Sound os child reading rest unused)
                | inr e ↦ rw e (sound (unchanged-Kept is))
              ]
            ]

  proc_exit-Sound :
      (waitpid : ℕ → ℤ → Poll) → Sound (λ (t', es) g. (t' ≡ t) × (g ≡ h)) (proc_exit waitpid t h)
  unfolding proc_exit
  proc_exit-Sound waitpid = elim (first-gone waitpid 0 xs) [
    | inl stay ↦ rw (table_cleanup-stay waitpid is stay) (sound (refl, refl))
    | inr (ys, a, v, zs, e, stay, left) ↦
        rw
          (table_cleanup-use_after_free waitpid ys a v zs (subst (IsTable h t) e is) stay
            (gone_at waitpid v.pid (omega arith) left))
          faulty
  ]

-- A step evolves the list of the processes.
Step-Kept :
    {s u : Shell} {xs : Cells}
    → ShellStep s u
    → IsTable s.memory s.pcb xs
    → (ws : Cells) × Evolved xs ws × IsTable u.memory u.pcb ws
Step-Kept {s} (rounded os child unused e) is = Sound-ok (round-Sound is os child s.input unused) e
Step-Kept (handled waitpid e) is =
    let (same, left) = Sound-ok (proc_exit-Sound is waitpid) e in
    rw (same, left) (unchanged-Kept is)

-- In every state of the shell, after any number of rounds and of runs of the SIGCHLD handler, the
-- table is a proper doubly linked list, of at most 32 processes, each running or suspended.
pub ShellReach-IsTable :
    (memory : Heap) (tail : Ptr) (input : List ℕ) {s : Shell}
    → ShellReach (initial memory tail input) s
    → (xs : Cells) × IsTable s.memory s.pcb xs × IsSmall xs
unfolding initial
ShellReach-IsTable memory tail input here = (
  [],
  record { chain = tt; head_at = refl; tail_at = tt; counted = refl },
  record { few = omega arith; statuses = tt },
)
ShellReach-IsTable memory tail input (later r st) =
    let (xs, is, small) = ShellReach-IsTable memory tail input r in
    let (ws, evolved, is') = Step-Kept st is in (ws, is', Evolved-IsSmall evolved small)

-- In every state of the shell, after any number of rounds and of runs of the SIGCHLD handler, and
-- whatever `waitpid` answers, the handler does one of two things. If no process of the table is
-- gone it leaves the table and the memory as they are and prints the errors but ECHILD; if there
-- is a first one that is, wherever it stands, the handler is undefined. So there is no state in
-- which it removes a process and goes on.
pub ShellReach-proc_exit :
    (memory : Heap) (tail : Ptr) (input : List ℕ) {s : Shell} (waitpid : ℕ → ℤ → Poll)
    → ShellReach (initial memory tail input) s
    → (xs : Cells) × IsTable s.memory s.pcb xs
      × ((AllStay waitpid 0 xs
            × (proc_exit waitpid s.pcb s.memory ≡ ok (s.pcb, printed waitpid 0 xs) s.memory))
          ⊎ ((ys : Cells) × (a : Ptr) × (v : Info) × (zs : Cells) × (xs ≡ ys ++ (a, v) ∷ zs)
              × AllStay waitpid 0 ys
              × (gone (waitpid (length ys) v.pid) ≡ true)
              × (proc_exit waitpid s.pcb s.memory ≡ fault)))
unfolding proc_exit
ShellReach-proc_exit memory tail input {s} waitpid reach =
    let (xs, is, small) = ShellReach-IsTable memory tail input reach in
    (
      xs,
      is,
      elim (first-gone waitpid 0 xs) [
        | inl stay ↦ inl (stay, table_cleanup-stay waitpid is stay)
        | inr (ys, a, v, zs, e, stay, left) ↦
            let left' = gone_at waitpid v.pid (omega arith) left in
            inr (
              ys,
              a,
              v,
              zs,
              e,
              stay,
              left',
              table_cleanup-use_after_free waitpid ys a v zs (subst (IsTable s.memory s.pcb) e is)
                  stay left',
            )
      ],
    )
