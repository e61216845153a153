-- ===== src/Shell/Args.antt =====
-- A1/shell379.c between `read_input` and a command: which arguments name a file for the input or
-- the output, and which command a name stands for. `args` is the list of the arguments up to NULL.
pub mod Redirect
pub mod Names
use operating_systems_fa.Common.{
  Bool, List, Option, [], false, if◌then◌else◌, leb, length, ltb, map, negsuc, none, pos, some, suc,
  true, zero, ℕ, ℤ, ◌&&◌, ◌+◌, ◌-◌, ◌==◌, ◌>>=◌, ◌||◌, ◌∷◌,
}
use mathlib.Core.Option
use operating_systems_fa.Shell.Command.{Bytes, max_length}
use operating_systems_fa.Shell.Line.{max_args}

-- `args[i][0]`, which is NUL in an empty argument, and `args[i]+1`.
abbrev pub first_byte : Bytes → ℕ
first_byte [] = 0
first_byte (c ∷ cs) = c

abbrev pub name_behind : Bytes → Bytes
name_behind [] = []
name_behind (c ∷ cs) = cs

-- The loop from `args[i]` on, with so many rounds left: the name behind the first mark, and the
-- arguments without it. `none`: the entry is NULL, and its first byte is read; or the
-- name does not fit its MAX_LENGTH bytes, with its NUL.
unfoldable pub take_mark : ℕ → ℕ → List Bytes → Option (Option Bytes × List Bytes)
take_mark mark zero args = some (none, args)
take_mark mark (suc k) [] = none
take_mark mark (suc k) (a ∷ rest) =
    let later = take_mark mark k rest in
    if first_byte a == mark
    then (if ltb (length (name_behind a)) max_length
        then some (some (name_behind a), rest)
        else none)
    else Option.map (λ (name, left). (name, a ∷ left)) later

-- The name, if there is one, the arguments and `num_args` after the call. The entries behind the
-- mark move to the front, up to `args[num_args-1]`, which must be one of the MAX_ARGS + 1.
unfoldable pub check_for_file : ℕ → List Bytes → ℕ → Option (Option Bytes × List Bytes × ℕ)
unfolding take_mark
check_for_file mark [] num_args = if leb num_args 1 then some (none, [], num_args) else none
check_for_file mark (a ∷ rest) num_args = do
  (name, left) ← take_mark mark (num_args - 1) rest
  elim name [
    | none ↦ some (none, a ∷ left, num_args)
    | some n ↦ if leb num_args (max_args + 1) then some (some n, a ∷ left, num_args - 1) else none
  ]

-- With the marks '>' and '<'.
unfoldable pub check_for_output_file : List Bytes → ℕ → Option (Option Bytes × List Bytes × ℕ)
check_for_output_file = check_for_file b'>'

unfoldable pub check_for_input_file : List Bytes → ℕ → Option (Option Bytes × List Bytes × ℕ)
check_for_input_file = check_for_file b'<'

-- What `run_shell_cmd` and `run_cmd` begin with: the output first, then the input.
unfoldable pub redirections : List Bytes → ℕ → Option (Option Bytes × Option Bytes × List Bytes × ℕ)
redirections args num_args = do
  (output_file, args, num_args) ← check_for_output_file args num_args
  (input_file, args, num_args) ← check_for_input_file args num_args
  some (output_file, input_file, args, num_args)

-- `strcmp(a, b) == 0`.
abbrev pub eqb_bytes : Bytes → Bytes → Bool
eqb_bytes [] [] = true
eqb_bytes [] (d ∷ ds) = false
eqb_bytes (c ∷ cs) [] = false
eqb_bytes (c ∷ cs) (d ∷ ds) = c == d && eqb_bytes cs ds

abbrev pub shell_cmd_names : List Bytes
shell_cmd_names =
    (b'j' ∷ b'o' ∷ b'b' ∷ b's' ∷ [])
    ∷ (b'e' ∷ b'x' ∷ b'i' ∷ b't' ∷ [])
    ∷ (b'k' ∷ b'i' ∷ b'l' ∷ b'l' ∷ [])
    ∷ (b'r' ∷ b'e' ∷ b's' ∷ b'u' ∷ b'm' ∷ b'e' ∷ [])
    ∷ (b's' ∷ b'u' ∷ b's' ∷ b'p' ∷ b'e' ∷ b'n' ∷ b'd' ∷ [])
    ∷ (b'w' ∷ b'a' ∷ b'i' ∷ b't' ∷ [])
    ∷ (b's' ∷ b'l' ∷ b'e' ∷ b'e' ∷ b'p' ∷ [])
    ∷ []

abbrev pub conversion : List (ℕ × Bytes)
conversion =
    (0, b'j' ∷ b'o' ∷ b'b' ∷ b's' ∷ [])
    ∷ (1, b'e' ∷ b'x' ∷ b'i' ∷ b't' ∷ [])
    ∷ (2, b'k' ∷ b'i' ∷ b'l' ∷ b'l' ∷ [])
    ∷ (3, b'r' ∷ b'e' ∷ b's' ∷ b'u' ∷ b'm' ∷ b'e' ∷ [])
    ∷ (4, b's' ∷ b'u' ∷ b's' ∷ b'p' ∷ b'e' ∷ b'n' ∷ b'd' ∷ [])
    ∷ (5, b'w' ∷ b'a' ∷ b'i' ∷ b't' ∷ [])
    ∷ (6, b's' ∷ b'l' ∷ b'e' ∷ b'e' ∷ b'p' ∷ [])
    ∷ []

unfoldable pub is_one_of : List Bytes → Bytes → Bool
is_one_of [] arg = false
is_one_of (name ∷ names) arg = eqb_bytes name arg || is_one_of names arg

unfoldable pub is_shell_cmd : Bytes → Bool
unfolding is_one_of
is_shell_cmd arg = is_one_of shell_cmd_names arg

unfoldable pub lookup : List (ℕ × Bytes) → Bytes → ℤ
lookup [] str = negsuc 0
lookup ((val, name) ∷ rest) str = if eqb_bytes str name then pos val else lookup rest str

unfoldable pub str2int : Bytes → ℤ
unfolding lookup
str2int str = lookup conversion str
