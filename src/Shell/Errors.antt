-- ===== src/Shell/Errors.antt =====
-- The error texts of A1/shell379.c, and what CHECK_CMD_ERR of A1/shell_error.h prints.
use operating_systems_fa.Common.{
  List, Option, [], get_elem?, if◌then◌else◌, some, ℕ, ◌++◌, ◌==◌, ◌>>=◌, ◌∷◌,
}
use operating_systems_fa.Common.Text.{codes}
use operating_systems_fa.Common.Decimal.{decimal}
use operating_systems_fa.Shell.Command.{Bytes, cmd_ok}

unfoldable pub err_strings : List Bytes
err_strings =
    codes "Command success"
    ∷ codes "Too many characters provided in an argument"
    ∷ codes "Too many arguments provided"
    ∷ codes "Too many arguments for this command"
    ∷ codes "Process not found"
    ∷ codes "Cannot resume process because it is not suspended"
    ∷ codes "Cannot suspend process because it is not running"
    ∷ codes "Exit command timed out waiting for processes to finish"
    ∷ codes "Process table full, could not add process"
    ∷ codes "System call 'popen' failed"
    ∷ codes "System call 'pclose' failed"
    ∷ codes "System call 'fork' failed"
    ∷ codes "System call 'exec' failed"
    ∷ codes "System call 'wait' failed"
    ∷ codes "System call 'dup2' failed"
    ∷ codes "System call 'close' failed"
    ∷ codes "System call 'dup' failed"
    ∷ codes "System call 'kill' failed"
    ∷ []

-- The line for a code with a text. The `#errno` of the macro is the name of the variable, "ret".
unfoldable pub error_line : (ret : ℕ) → (msg : Bytes) → Bytes
error_line ret msg =
    codes "Runtime error: ret returned " ++ (decimal ret ++ (codes "  -> " ++ (msg ++ codes "\n")))

-- `CHECK_CMD_ERR(ret, err_strings[ret])`: what is printed on stderr, where `none` is a read outside
-- the array. For CMD_OK the array is not read.
unfoldable pub check_cmd_err : (ret : ℕ) → Option (List Bytes)
unfolding err_strings error_line
check_cmd_err ret =
    if ret == cmd_ok
    then some []
    else (do msg ← get_elem? err_strings ret; some (error_line ret msg ∷ []))
