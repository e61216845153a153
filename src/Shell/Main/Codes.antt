-- ===== src/Shell/Main/Codes.antt =====
-- The code of a round of `main` of A1/shell379.c: below NUM_SHELL_ERRORS.
use operating_systems_fa.Common.{
  Bool-cases, List, Option, [], arith, if◌then◌else◌, inl, inr, length, ltb, none, refl, some, suc,
  zero, ℕ, ◌-◌, ◌<◌, ◌==◌, ◌∷◌, ◌≡◌,
}
use mathlib.Core.Option
use operating_systems_fa.Common.State.{fault, Upon, at_fault, at_end, Upon-bind, pure, ◌>>=◌}
use operating_systems_fa.Common.Text.{to_nul}
use operating_systems_fa.Shell.Heap.{Heap, Cmd}
use operating_systems_fa.Shell.Pcb.{ProcessTable, line_length}
use operating_systems_fa.Shell.Args.{is_shell_cmd}
use operating_systems_fa.Shell.Command.{Bytes, cmd_ok, max_length}
use operating_systems_fa.Shell.Command.Codes.{num_shell_errors}
use operating_systems_fa.Shell.Line.{
  Reading, read_input, fill, skip_line, fill_args, max_args, tokens, parse,
}
use operating_systems_fa.Shell.Run.{
  RunAnswers, ShellAnswers, Finish, finished, ended, run_cmd, run_shell_cmd,
}
use operating_systems_fa.Shell.Run.Codes.{CodedFinish, run_shell_cmd-Coded, run_cmd-Coded}
use operating_systems_fa.Shell.Main.{Round, hangs, over, next, next_or_over, execute, round}

fill_args-lt : (k : ℕ) (parts : List Bytes) → (fill_args k parts).0 < num_shell_errors
unfolding fill_args
fill_args-lt k [] = omega arith
fill_args-lt zero (a ∷ rest) = omega arith
fill_args-lt (suc k) (a ∷ rest) = elim (Bool-cases (ltb max_length (length a))) [
  | inl e ↦ rw e (omega arith)
  | inr e ↦ rw e (fill_args-lt k rest)
]

parse-lt : (line : Bytes) → (parse line).code < num_shell_errors
parse-lt line = fill_args-lt max_args (tokens line)

-- The code of `read_input`, on any input.
abbrev CodedReading : Option (Reading × List ℕ) → Type 0
CodedReading none = Unit
CodedReading (some (reading, rest)) = reading.code < num_shell_errors

skipped-Coded :
    (line : Bytes) (left : Option (List ℕ))
    → CodedReading (Option.map (λ rest. (parse line, rest)) left)
skipped-Coded line none = tt
skipped-Coded line (some rest) = parse-lt line

read_input-Coded : (input : List ℕ) → CodedReading (read_input input)
unfolding read_input
read_input-Coded input =
    let (line, rest, overflow) = fill (line_length - 1) input in
    elim (Bool-cases overflow) [
      | inl e ↦ rw e (skipped-Coded (to_nul line) (skip_line rest))
      | inr e ↦ rw e (parse-lt (to_nul line))
    ]

-- A round on this input goes on with one of the codes, ends the shell, or never comes back from
-- `read_input`.
abbrev pub CodedRound : List ℕ → Round → Heap → Type 0
CodedRound input (next code events printed t rest) g = code < num_shell_errors
CodedRound input hangs g = read_input input ≡ none
CodedRound input (over events) g = Unit

finish-CodedRound :
    (input : List ℕ) (t : ProcessTable) (rest : List ℕ) (finish : Finish) (g : Heap)
    → CodedFinish finish g
    → CodedRound input (next_or_over t rest finish) g
finish-CodedRound input t rest (finished code events printed) g lt = lt
finish-CodedRound input t rest (ended events) g lt = tt

module _ (os : ShellAnswers) (child : RunAnswers) (t : ProcessTable) (h : Heap)
    (input : List ℕ) where
  execute-Coded :
      (reading : Reading) (rest : List ℕ)
      → Upon (CodedRound input) (execute os child reading rest t h)
  unfolding execute
  execute-Coded reading rest =
      elim reading.args
        as (λ args. Upon (CodedRound input) (
          elim args as (λ _. Cmd Round) [
            | [] ↦ λ _. fault
            | name ∷ more ↦
                if is_shell_cmd name
                then (do
                  finish ← run_shell_cmd os reading.args reading.num_args t
                  pure (next_or_over t rest finish))
                else (do
                  (code, t', events) ← run_cmd child reading.args reading.num_args reading.buf t
                  pure (next code events [] t' rest))
          ]
            h)) [
              | [] ↦ at_fault
              | name ∷ more ↦ elim (Bool-cases (is_shell_cmd name)) [
                | inl e ↦ rw e (
                    Upon-bind (run_shell_cmd-Coded t h os reading.args reading.num_args)
                      (λ finish g coded. at_end (finish-CodedRound input t rest finish g coded)))
                | inr e ↦ rw e (
                    Upon-bind (run_cmd-Coded t h child reading.args reading.num_args reading.buf)
                      (λ r g lt. at_end lt))
              ]
            ]

  -- Whatever a round does, the code that it goes on with is one of the NUM_SHELL_ERRORS.
  pub round-Coded : Upon (CodedRound input) (round os child input t h)
  unfolding round
  round-Coded =
      elim (read_input input)
          as (λ r.
            read_input input ≡ r
            → CodedReading r
            → Upon (CodedRound input) (
                elim r as (λ _. Cmd Round) [
                  | none ↦ pure hangs
                  | some (reading, rest) ↦
                      if reading.code == cmd_ok
                      then execute os child reading rest t
                      else pure (next reading.code [] [] t rest)
                ]
                  h)) [
                    | none ↦ λ e coded. at_end e
                    | some (reading, rest) ↦ λ same coded.
                        elim (Bool-cases (reading.code == cmd_ok)) [
                          | inl e ↦ rw e (execute-Coded reading rest)
                          | inr e ↦ rw e (at_end coded)
                        ]
                  ]
        refl (read_input-Coded input)
