-- ===== src/Shell/Line.antt =====
-- `read_input` and `count_args` of A1/shell379.c: one line of the input, cut into arguments. The
-- input is the list of the bytes that `getchar` still returns.
pub mod Join
use operating_systems_fa.Common.{
  Bool, List, Option, [], false, if◌then◌else◌, length, ltb, map, none, some, suc, true, zero, ℕ,
  ◌+◌, ◌-◌, ◌==◌, ◌∷◌,
}
use mathlib.Core.Option
use operating_systems_fa.Common.Text.{to_nul}
use operating_systems_fa.Shell.Pcb.{line_length}
use operating_systems_fa.Shell.Command.{Bytes, cmd_ok, max_length}

-- A bound of command.h, and the codes of shell_error.h.
abbrev pub max_args : ℕ
max_args = 7

abbrev pub cmd_max_length_err : ℕ
cmd_max_length_err = 1

abbrev pub cmd_max_arg_err : ℕ
cmd_max_arg_err = 2

abbrev pub newline : ℕ
newline = 10

abbrev pub space : ℕ
space = 32

-- The first loop, with so many bytes left until `i == LINE_LENGTH-1`: what it stores, what of the
-- input is left, and `overflow`. At the end of the input `getchar` returns EOF, which is stored as
-- the byte 255.
unfoldable pub fill : ℕ → List ℕ → Bytes × List ℕ × Bool
fill zero input = ([], input, true)
fill (suc k) [] = let (line, rest, overflow) = fill k [] in (255 ∷ line, rest, overflow)
fill (suc k) (c ∷ cs) =
    let (line, rest, overflow) = fill k cs in
    if c == newline then ([], cs, false) else (c ∷ line, rest, overflow)

-- The second loop, whose `i` never changes: it ends at a newline, and never (`none`) at the end of
-- the input.
unfoldable pub skip_line : List ℕ → Option (List ℕ)
skip_line [] = none
skip_line (c ∷ cs) = let rest = skip_line cs in if c == newline then some cs else rest

unfoldable pub count_args : Bytes → ℕ
count_args [] = 1
count_args (c ∷ cs) = let rest = count_args cs in if c == space then rest + 1 else rest

-- What calls of `strtok` with " " return, one after the other: the parts between the spaces, but
-- no empty ones. `cut` gives the part at the front, which may be empty, and those behind it.
unfoldable pub cons_part : Bytes → List Bytes → List Bytes
cons_part [] parts = parts
cons_part (c ∷ cs) parts = (c ∷ cs) ∷ parts

unfoldable pub cut : Bytes → Bytes × List Bytes
cut [] = ([], [])
cut (c ∷ cs) =
    let (part, parts) = cut cs in
    if c == space then ([], cons_part part parts) else (c ∷ part, parts)

unfoldable pub tokens : Bytes → List Bytes
tokens line = let (part, parts) = cut line in cons_part part parts

-- The loop over the arguments, with so many entries left before MAX_ARGS: the code, and `args` up
-- to its NULL (up to the bad argument, if there is one).
unfoldable pub fill_args : ℕ → List Bytes → ℕ × List Bytes
fill_args k [] = (cmd_ok, [])
fill_args zero (a ∷ rest) = (cmd_max_arg_err, [])
fill_args (suc k) (a ∷ rest) =
    let (code, args) = fill_args k rest in
    if ltb max_length (length a) then (cmd_max_length_err, []) else (code, a ∷ args)

-- `buf`, `args`, `num_args` and the return code.
pub record Reading : Type 0 where
  pub buf : Bytes
  pub args : List Bytes
  pub num_args : ℕ
  pub code : ℕ

abbrev pub parse : Bytes → Reading
parse line =
    let (code, args) = fill_args max_args (tokens line) in
    record { buf = line; args = args; num_args = count_args line; code = code }

-- The result with what is left of the input; `none` if the call never returns.
unfoldable pub read_input : List ℕ → Option (Reading × List ℕ)
unfolding fill skip_line to_nul count_args cons_part cut tokens fill_args
read_input input =
    let (line, rest, overflow) = fill (line_length - 1) input in
    let reading = parse (to_nul line) in
    if overflow then Option.map (λ left. (reading, left)) (skip_line rest) else some (reading, rest)
