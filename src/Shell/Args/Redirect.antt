-- ===== src/Shell/Args/Redirect.antt =====
-- `check_for_output_file` and `check_for_input_file` of A1/shell379.c.
use operating_systems_fa.Common.{
  Bool, List, Option, [], arith, length, length-append, none, not, refl, some, suc, sym, true, zero,
  ℕ, ◌&&◌, ◌++◌, ◌+◌, ◌-◌, ◌<◌, ◌==◌, ◌∙◌, ◌∷◌, ◌≡◌, ◌≤◌,
}
use mathlib.Core.List.{append_assoc}
use operating_systems_fa.Shell.Command.{Bytes}
use operating_systems_fa.Shell.Line.{max_args}
use operating_systems_fa.Shell.Args.{
  first_byte, take_mark, check_for_file, check_for_output_file, check_for_input_file, redirections,
}

-- No argument begins with the mark.
abbrev pub unmarked : ℕ → List Bytes → Bool
unmarked mark [] = true
unmarked mark (a ∷ rest) = not (first_byte a == mark) && unmarked mark rest

unmarked-append :
    (mark : ℕ) (xs ys : List Bytes)
    → unmarked mark xs ≡ true
    → unmarked mark ys ≡ true
    → unmarked mark (xs ++ ys) ≡ true
unmarked-append mark [] ys a b = b
unmarked-append mark (x ∷ xs) ys a b = ground (arith, unmarked-append mark xs ys (ground arith) b)

take_mark-unmarked :
    (mark : ℕ) (xs : List Bytes)
    → unmarked mark xs ≡ true
    → take_mark mark (length xs) xs ≡ some (none, xs)
unfolding take_mark
take_mark-unmarked mark [] free = refl
take_mark-unmarked mark (a ∷ xs) free =
    rw (take_mark-unmarked mark xs (ground arith)) (ground arith)

-- Behind the last argument stands NULL.
take_mark-null :
    (mark k : ℕ) (xs : List Bytes)
    → unmarked mark xs ≡ true
    → length xs < k
    → take_mark mark k xs ≡ none
unfolding take_mark
take_mark-null mark zero xs free lt = absurd (omega arith)
take_mark-null mark (suc k) [] free lt = refl
take_mark-null mark (suc k) (a ∷ xs) free lt =
    rw (take_mark-null mark k xs (ground arith) (omega arith)) (ground arith)

take_mark-marked :
    (mark k : ℕ) (xs : List Bytes) (name : Bytes) (ys : List Bytes)
    → unmarked mark xs ≡ true
    → length name < 20
    → length xs < k
    → take_mark mark k (xs ++ ((mark ∷ name) ∷ ys)) ≡ some (some name, xs ++ ys)
unfolding take_mark
take_mark-marked mark zero xs name ys free fits lt = absurd (omega arith)
take_mark-marked mark (suc k) [] name ys free fits lt = ground arith
take_mark-marked mark (suc k) (a ∷ xs) name ys free fits lt =
    rw (take_mark-marked mark k xs name ys (ground arith) fits (omega arith)) (ground arith)

-- More spaces in the line than between its arguments, and no mark: the loop comes to the NULL
-- behind the arguments and reads through it.
pub check_for_file-null :
    (mark num_args : ℕ) (cmd : Bytes) (xs : List Bytes)
    → unmarked mark xs ≡ true
    → length (cmd ∷ xs) < num_args
    → check_for_file mark (cmd ∷ xs) num_args ≡ none
unfolding check_for_file
check_for_file-null mark num_args cmd xs free more =
    rw (take_mark-null mark (num_args - 1) xs free (omega arith)) refl

check_for_file-marked :
    (mark num_args : ℕ) (cmd : Bytes) (xs : List Bytes) (name : Bytes) (ys : List Bytes)
    → unmarked mark xs ≡ true
    → length name < 20
    → length xs + 1 < num_args
    → num_args ≤ max_args + 1
    → check_for_file mark (cmd ∷ (xs ++ ((mark ∷ name) ∷ ys))) num_args
      ≡ some (some name, cmd ∷ (xs ++ ys), num_args - 1)
unfolding check_for_file
check_for_file-marked mark num_args cmd xs name ys free fits lt few =
    rw (take_mark-marked mark (num_args - 1) xs name ys free fits (omega arith)) (ground arith)

redirections-steps :
    (args : List Bytes) (n : ℕ) {args' args'' : List Bytes} {n' n'' : ℕ}
    {output_file input_file : Option Bytes}
    → check_for_output_file args n ≡ some (output_file, args', n')
    → check_for_input_file args' n' ≡ some (input_file, args'', n'')
    → redirections args n ≡ some (output_file, input_file, args'', n'')
unfolding redirections
redirections-steps args n e e' = rw (e, e') refl

-- A command with one argument '>' and one '<' behind it, each name below 20 bytes, and
-- with the right count of the arguments, at most MAX_ARGS + 1: the two names are found, and the command is left with its other arguments
-- in their order, and their count.
pub redirections-both :
    (num_args : ℕ) (cmd : Bytes) (xs : List Bytes) (out : Bytes) (ys : List Bytes) (inp : Bytes)
    (zs : List Bytes)
    → unmarked b'>' xs ≡ true
    → unmarked b'<' xs ≡ true
    → unmarked b'<' ys ≡ true
    → length out < 20
    → length inp < 20
    → num_args ≡ length xs + length ys + length zs + 3
    → num_args ≤ max_args + 1
    → redirections (cmd ∷ (xs ++ ((b'>' ∷ out) ∷ (ys ++ ((b'<' ∷ inp) ∷ zs))))) num_args
      ≡ some (some out, some inp, cmd ∷ (xs ++ (ys ++ zs)), num_args - 2)
unfolding check_for_output_file check_for_input_file
redirections-both num_args cmd xs out ys inp zs no_out no_inp no_inp' short short' count few =
    let free = unmarked-append b'<' xs ys no_inp no_inp' in
    let len = length-append xs ys in
    let back : num_args - 1 - 1 ≡ num_args - 2 = omega arith in
    redirections-steps _ num_args
      (check_for_file-marked b'>' num_args cmd xs out (ys ++ ((b'<' ∷ inp) ∷ zs)) no_out short
        (omega arith) few)
      (rw (sym (append_assoc xs ys ((b'<' ∷ inp) ∷ zs))) (
        check_for_file-marked b'<' (num_args - 1) cmd (xs ++ ys) inp zs free short' (omega arith)
          (omega arith)
        ∙ rw (append_assoc xs ys zs, back) refl))

pub redirections-unmarked :
    (c : Bytes) (xs : List Bytes)
    → unmarked b'>' xs ≡ true
    → unmarked b'<' xs ≡ true
    → redirections (c ∷ xs) (length (c ∷ xs)) ≡ some (none, none, c ∷ xs, length (c ∷ xs))
unfolding redirections check_for_output_file check_for_input_file check_for_file
redirections-unmarked c xs out inp =
    let same : suc (length xs) - 1 ≡ length xs = omega arith in
    rw (same, take_mark-unmarked b'>' xs out, same, take_mark-unmarked b'<' xs inp) refl
