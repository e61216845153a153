-- ===== src/Shell/Life/Reaped.antt =====
-- The two parts of the shell of A1 together: a round that starts a process, and the handler of
-- SIGCHLD once that process has ended.
use operating_systems_fa.Common.{
  List, [], false, get_elem?, length, none, some, true, ℕ, ℤ, ◌++◌, ◌<◌, ◌∷◌, ◌≡◌, ◌≢◌, ◌≤◌,
}
use operating_systems_fa.Common.State.{fault, Returns, weaken_post}
use operating_systems_fa.Shell.Heap.{null, Heap}
use operating_systems_fa.Shell.Pcb.{ProcessTable, max_pt_entries}
use operating_systems_fa.Shell.Pcb.Cells.{Cells, IsTable}
use operating_systems_fa.Shell.Pcb.Cleanup.{Poll, gone, table_cleanup-use_after_free}
use operating_systems_fa.Shell.Args.{is_shell_cmd}
use operating_systems_fa.Shell.Args.Redirect.{unmarked}
use operating_systems_fa.Shell.Command.{Bytes, Event}
use operating_systems_fa.Shell.Line.{max_args, newline}
use operating_systems_fa.Shell.Line.Join.{join, AllWords}
use operating_systems_fa.Shell.Run.{RunAnswers, ShellAnswers}
use operating_systems_fa.Shell.Main.{Round, next, round}
use operating_systems_fa.Shell.Life.{proc_exit}
use operating_systems_fa.Shell.Main.Line.{round-Started}

-- The next round follows, but the handler with these answers is undefined in front of it.
abbrev pub FaultsBefore : (ℕ → ℤ → Poll) → (rest : List ℕ) → Round → Heap → Type 0
FaultsBefore waitpid rest r g =
    (code : ℕ) × (events : List Event) × (t : ProcessTable) × (r ≡ next code events [] t rest)
    × (proc_exit waitpid t g ≡ fault)

-- A line that starts a process, with the conditions of `round-Started`, brings the shell to a state
-- in which the handler of SIGCHLD is undefined as soon as it finds this process gone: reaped by its
-- own call of `waitpid`, or no child any more since the shell has waited for it.
pub started-faults :
    {h : Heap} {t : ProcessTable} {xs : Cells} (os : ShellAnswers) (child : RunAnswers) (pid : ℤ)
    (w : Bytes) (ws : List Bytes) (last : Bytes) (rest : List ℕ) (waitpid : ℕ → ℤ → Poll)
    → AllWords (w ∷ ws)
    → length (w ∷ ws) ≤ max_args
    → length (join (w ∷ ws)) < 99
    → is_shell_cmd w ≡ false
    → unmarked b'>' ws ≡ true
    → unmarked b'<' ws ≡ true
    → get_elem? (w ∷ ws) (length ws) ≡ some last
    → child.fork ≡ some pid
    → IsTable h t xs
    → length xs < max_pt_entries
    → child.fresh ≢ null
    → h child.fresh ≡ none
    → gone (waitpid 0 pid) ≡ true
    → Returns (FaultsBefore waitpid rest) (round os child (join (w ∷ ws) ++ newline ∷ rest) t h)
unfolding proc_exit
started-faults {xs} os child pid w ws last rest waitpid words few short unknown out inp last_at
      forked is room ne unused left =
    weaken_post
      (λ r g (code, t', events, e, started).
        (code, events, t', e, table_cleanup-use_after_free waitpid [] _ _ xs started.1 tt left))
      (round-Started os child pid w ws last rest words few short unknown out inp last_at forked is
        room ne unused)
