-- ===== src/Shell/Life/Reported.antt =====
-- What the shell of A1 prints on stderr behind a round: CHECK_CMD_ERR of A1/shell_error.h.
use operating_systems_fa.Common.{
  Bool-cases, List, [], arith, get_elem?, if◌then◌else◌, inl, inr, length, none, refl, some, suc,
  zero, ℕ, ◌<◌, ◌==◌, ◌∷◌, ◌≡◌,
}
use operating_systems_fa.Common.State.{Sound, Upon-Sound}
use operating_systems_fa.Shell.Heap.{Ptr, Heap}
use operating_systems_fa.Shell.Errors.{err_strings, error_line, check_cmd_err}
use operating_systems_fa.Shell.Command.{Bytes, cmd_ok}
use operating_systems_fa.Shell.Command.Codes.{num_shell_errors}
use operating_systems_fa.Shell.Line.{read_input}
use operating_systems_fa.Shell.Run.{RunAnswers, ShellAnswers}
use operating_systems_fa.Shell.Main.{Round, hangs, over, next, round}
use operating_systems_fa.Shell.Main.Codes.{CodedRound, round-Coded}
use operating_systems_fa.Shell.Life.{Shell, initial, ShellReach}
use operating_systems_fa.Shell.Life.Kept.{round-Sound, ShellReach-IsTable}

get_elem?-below :
    (xs : List Bytes) (i : ℕ) → i < length xs → (x : Bytes) × (get_elem? xs i ≡ some x)
get_elem?-below [] i lt = absurd (omega arith)
get_elem?-below (x ∷ xs) zero lt = (x, refl)
get_elem?-below (x ∷ xs) (suc i) lt = get_elem?-below xs i (omega arith)

err_strings-length : length err_strings ≡ num_shell_errors
unfolding err_strings
err_strings-length = refl

-- What is printed for a code: nothing for CMD_OK, else a line with the text of that code.
abbrev pub Reported : ℕ → Type 0
Reported ret =
    (msg : Bytes) × (get_elem? err_strings ret ≡ some msg)
    × (check_cmd_err ret ≡ some (if ret == cmd_ok then [] else error_line ret msg ∷ []))

below-Reported : (ret : ℕ) → ret < num_shell_errors → Reported ret
unfolding check_cmd_err
below-Reported ret lt =
    let (msg, at) = get_elem?-below err_strings ret (omega (arith, err_strings-length)) in
    (msg, at, elim (Bool-cases (ret == cmd_ok)) [ inl e ↦ rw e refl | inr e ↦ rw (e, at) refl ])

-- The code of a round that goes on is one that CHECK_CMD_ERR has a text for.
abbrev pub RoundReported : List ℕ → Round → Heap → Type 0
RoundReported input (next code events printed t rest) g = Reported code
RoundReported input hangs g = read_input input ≡ none
RoundReported input (over events) g = Unit

CodedRound-RoundReported :
    (input : List ℕ) (r : Round) (g : Heap) → CodedRound input r g → RoundReported input r g
CodedRound-RoundReported input (next code events printed t rest) g lt = below-Reported code lt
CodedRound-RoundReported input hangs g e = e
CodedRound-RoundReported input (over events) g done = tt

-- In every state of the shell, after any number of rounds and of runs of the SIGCHLD handler, and
-- whatever the system answers, a round where the memory for a node was free is a fault, or
-- `read_input` never returns on what is left of the input, or the shell ends, or it goes on with a code that is an index of
-- `err_strings`, for which CHECK_CMD_ERR prints nothing for CMD_OK, and else one line with that
-- code and its text.
pub round-Reported :
    (memory : Heap) (tail : Ptr) (input : List ℕ) {s : Shell}
    → ShellReach (initial memory tail input) s
    → (os : ShellAnswers) (child : RunAnswers) → s.memory child.fresh ≡ none
    → Sound (RoundReported s.input) (round os child s.input s.pcb s.memory)
round-Reported memory tail input {s} reach os child unused =
    let (xs, is, small) = ShellReach-IsTable memory tail input reach in
    Upon-Sound (λ r g. CodedRound-RoundReported s.input r g)
      (round-Sound is os child s.input unused) (round-Coded os child s.pcb s.memory s.input)
