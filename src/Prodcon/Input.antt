-- ===== src/Prodcon/Input.antt =====
-- `check_input` of A2/prodcon.c. A line is the list of its bytes, as `fgets` has stored it, up to
-- NUL.
use operating_systems_fa.Common.{
  Bool, List, [], false, if◌then◌else◌, negsuc, not, pos, ℕ, ℤ, ◌&&◌, ◌==◌, ◌∷◌,
}
use operating_systems_fa.Common.Atoi.{atoi}

-- What `main` does with a line: it exits with an error, sleeps `n`, or hands out the work `n`.
pub data Command : Type 0 where
  rejected : Command
  sleep : ℤ → Command
  work : ℤ → Command

abbrev is_zero : ℤ → Bool
is_zero (pos n) = n == 0
is_zero (negsuc n) = false

-- `check_input` with the first byte in `c`, and the branch of `main` on `c`: the line without its
-- first byte is read as a number, which must not be 0.
unfoldable pub check_input : List ℕ → Command
unfolding atoi
check_input [] = rejected
check_input (c ∷ rest) =
    if not (c == b'S') && not (c == b'T')
    then rejected
    else if is_zero (atoi rest)
    then rejected
    else if c == b'S'
    then sleep (atoi rest)
    else work (atoi rest)

-- The work that a run over the lines hands out, in order; a rejected line ends the program.
unfoldable pub works : List (List ℕ) → List ℤ
works [] = []
works (line ∷ lines) = elim (check_input line) [
  | rejected ↦ []
  | sleep n ↦ works lines
  | work n ↦ n ∷ works lines
]
