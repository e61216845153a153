-- ===== src/Shell/Examples.antt =====
-- Tests of the lines, the arguments and the end of the shell, and their theorems at small inputs.
use operating_systems_fa.Common.{[], arith, none, pos, refl, replicate, some, ◌++◌, ◌∷◌, ◌≡◌}
use operating_systems_fa.Common.State.{ok}
use operating_systems_fa.Shell.Heap.{null, Info, Heap, write}
use operating_systems_fa.Shell.Pcb.{ProcessTable}
use operating_systems_fa.Shell.Pcb.Cells.{Cells, node, IsTable}
use operating_systems_fa.Shell.Command.{Bytes, sigkill, cmd_ok}
use operating_systems_fa.Shell.Line.{
  cmd_max_length_err, cmd_max_arg_err, cons_part, count_args, cut, fill, fill_args, newline, parse,
  read_input, skip_line, tokens,
}
use operating_systems_fa.Shell.Line.Join.{join, IsWord, read_input-join}
use operating_systems_fa.Shell.Args.{redirections}
use operating_systems_fa.Shell.Args.Redirect.{redirections-both}
use operating_systems_fa.Shell.Shutdown.{shell_sigint, shell_sigint-head}

abbrev ls : Bytes
ls = b'l' ∷ b's' ∷ []

abbrev flag : Bytes
flag = b'-' ∷ b'a' ∷ []

abbrev wait : Bytes
wait = b'w' ∷ b'a' ∷ b'i' ∷ b't' ∷ []

ls-IsWord : IsWord ls
ls-IsWord = record {
  some_byte = omega arith;
  short = omega arith;
  is_clean = refl;
  is_spaceless = refl;
}

flag-IsWord : IsWord flag
flag-IsWord = record {
  some_byte = omega arith;
  short = omega arith;
  is_clean = refl;
  is_spaceless = refl;
}

-- Two spaces between two words: two arguments, counted as three.
parse-two_spaces :
    parse (ls ++ 32 ∷ 32 ∷ flag)
    ≡ record { buf = ls ++ 32 ∷ 32 ∷ flag; args = ls ∷ flag ∷ []; num_args = 3; code = cmd_ok }
unfolding count_args tokens cut cons_part fill_args
parse-two_spaces = refl

-- Twenty-one bytes are too long for an argument, and eight arguments are too many.
fill_args-examples :
    (fill_args 7 (replicate 21 b'a' ∷ []) ≡ (cmd_max_length_err, []))
    × (fill_args 7 (replicate 20 b'a' ∷ []) ≡ (cmd_ok, replicate 20 b'a' ∷ []))
    × (fill_args 7 (replicate 8 ls) ≡ (cmd_max_arg_err, replicate 7 ls))
unfolding fill_args
fill_args-examples = (refl, refl, refl)

-- A newline is awaited for ever behind the end of the input.
read_input-end : read_input [] ≡ none
unfolding read_input skip_line fill
read_input-end = refl

read_input-join_example :
    read_input (join (ls ∷ flag ∷ []) ++ newline ∷ wait)
    ≡ some (
      record { buf = join (ls ∷ flag ∷ []); args = ls ∷ flag ∷ []; num_args = 2; code = cmd_ok },
      wait,
    )
read_input-join_example =
    read_input-join ls (flag ∷ []) wait (ls-IsWord, (flag-IsWord, tt)) (omega arith) (omega arith)

-- `ls -a >o <i &`.
redirections-both_example :
    redirections (ls ∷ flag ∷ (b'>' ∷ b'o' ∷ []) ∷ (b'<' ∷ b'i' ∷ []) ∷ (b'&' ∷ []) ∷ []) 5
    ≡ some (some (b'o' ∷ []), some (b'i' ∷ []), ls ∷ flag ∷ (b'&' ∷ []) ∷ [], 3)
redirections-both_example =
    redirections-both 5 ls (flag ∷ []) (b'o' ∷ []) [] (b'i' ∷ []) ((b'&' ∷ []) ∷ []) refl refl refl
      (omega arith) (omega arith) refl (omega arith)

abbrev old : Info
old = record { pid = pos 5; status = b'R'; name = [] }

abbrev new : Info
new = record { pid = pos 6; status = b'R'; name = [] }

abbrev memory : Heap
memory = write (write (λ _. none) 8 (some (node old null 16))) 16 (some (node new 8 null))

abbrev table : ProcessTable
table = record { process_list = 16; tail = 8; num_procs = 2 }

abbrev cells : Cells
cells = (16, new) ∷ (8, old) ∷ []

table-IsTable : IsTable memory table cells
unfolding write
table-IsTable = record {
  chain = (omega arith, refl, refl, (omega arith, refl, refl, tt));
  head_at = refl;
  tail_at = refl;
  counted = refl;
}

shell_sigint-head_example :
    shell_sigint (pos 1) table memory
    ≡ ok (sigkill (pos 6) ∷ sigkill (pos 6) ∷ sigkill (pos 1) ∷ []) memory
shell_sigint-head_example = shell_sigint-head (pos 1) 16 new ((8, old) ∷ []) table-IsTable
