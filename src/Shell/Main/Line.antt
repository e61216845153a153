-- ===== src/Shell/Main/Line.antt =====
-- From the bytes of a line to the process that it starts.
use operating_systems_fa.Common.{
  List, [], arith, false, get_elem?, length, none, refl, some, true, ℕ, ℤ, ◌++◌, ◌<◌, ◌∷◌, ◌≡◌, ◌≢◌,
  ◌≤◌,
}
use operating_systems_fa.Common.State.{Outcome, fault, pure, Returns, returns, and_then}
use operating_systems_fa.Common.Text.{to_nul}
use operating_systems_fa.Shell.Heap.{null, Heap}
use operating_systems_fa.Shell.Pcb.{ProcessTable, max_pt_entries}
use operating_systems_fa.Shell.Pcb.Cells.{Cells, IsTable}
use operating_systems_fa.Shell.Args.{is_shell_cmd}
use operating_systems_fa.Shell.Args.Redirect.{unmarked, redirections-unmarked}
use operating_systems_fa.Shell.Command.{Bytes, Event}
use operating_systems_fa.Shell.Line.{
  max_args, newline, read_input, fill, tokens, cut, cons_part, fill_args,
}
use operating_systems_fa.Shell.Line.Join.{join, AllWords, read_input-join}
use operating_systems_fa.Shell.Run.{RunAnswers, ShellAnswers}
use operating_systems_fa.Shell.Run.Started.{Started, run_cmd-Started}
use operating_systems_fa.Shell.Main.{Round, next, execute, round}

-- The round has started the process, and the next one goes on with the rest of the input.
abbrev pub RoundStarted :
    RunAnswers → ℤ → (buf last : Bytes) → (rest : List ℕ) → Heap → Cells → Round → Heap → Type 0
RoundStarted child pid buf last rest h xs r g =
    (code : ℕ) × (t : ProcessTable) × (events : List Event) × (r ≡ next code events [] t rest)
    × Started child pid buf last h xs (code, t, events) g

next-RoundStarted :
    {h : Heap} {xs : Cells} (child : RunAnswers) (pid : ℤ) (buf last : Bytes) (rest : List ℕ)
    {run : Outcome Heap (ℕ × ProcessTable × List Event)}
    → Returns (Started child pid buf last h xs) run
    → Returns
        (RoundStarted child pid buf last rest h xs)
        (and_then run (λ (code, t', events). pure (next code events [] t' rest)))
next-RoundStarted child pid buf last rest (returns p) = returns (_, _, _, refl, p)

-- A line of one to seven words of at most 20 bytes, with one space between them and less than 99
-- bytes in all, whose first word is no command of the shell and whose other words name no files:
-- with a `fork` that works, room in the table and fresh memory, the round puts the new process in
-- front of the others, named by the line, waits for it unless the last word is "&", and goes on
-- behind the newline.
pub round-Started :
    {h : Heap} {t : ProcessTable} {xs : Cells} (os : ShellAnswers) (child : RunAnswers) (pid : ℤ)
    (w : Bytes) (ws : List Bytes) (last : Bytes) (rest : List ℕ)
    → AllWords (w ∷ ws)
    → length (w ∷ ws) ≤ max_args
    → length (join (w ∷ ws)) < 99
    → is_shell_cmd w ≡ false
    → unmarked b'>' ws ≡ true
    → unmarked b'<' ws ≡ true
    → get_elem? (w ∷ ws) (length ws) ≡ some last
    → child.fork ≡ some pid
    → IsTable h t xs
    → length xs < max_pt_entries
    → child.fresh ≢ null
    → h child.fresh ≡ none
    → Returns
        (RoundStarted child pid (join (w ∷ ws)) last rest h xs)
        (round os child (join (w ∷ ws) ++ newline ∷ rest) t h)
unfolding round
round-Started {h} {t} os child pid w ws last rest words few short unknown out inp last_at forked is
      room ne unused =
    let line = join (w ∷ ws) in
    let started =
      run_cmd-Started child pid (w ∷ ws) (length (w ∷ ws)) line last
        (redirections-unmarked w ws out inp) forked last_at is room ne unused (omega arith) in
    rw (round, read_input-join w ws rest words few short, unknown)
      (next-RoundStarted child pid line last rest started)

-- An empty line makes the shell read through NULL.
pub round-empty :
    (os : ShellAnswers) (child : RunAnswers) (rest : List ℕ) (t : ProcessTable) (h : Heap)
    → round os child (newline ∷ rest) t h ≡ fault
unfolding round execute read_input fill to_nul tokens cut cons_part fill_args
round-empty os child rest t h = refl
