-- ===== src/Shell/Run/Called.antt =====
-- `run_shell_cmd` of A1/shell379.c calls the callback that belongs to the name.
use operating_systems_fa.Common.{
  List, Option, arith, get_elem?, get_elem?_lt, length, refl, some, true, ℕ, ◌∷◌, ◌≡◌,
}
use operating_systems_fa.Shell.Pcb.{ProcessTable}
use operating_systems_fa.Shell.Args.{redirections, is_shell_cmd, shell_cmd_names}
use operating_systems_fa.Shell.Args.Names.{str2int-is_shell_cmd}
use operating_systems_fa.Shell.Command.{Bytes}
use operating_systems_fa.Shell.Run.{ShellAnswers, Callback, shell_cmd_cbs, dispatch, run_shell_cmd}

length-shell_cmd_cbs : (os : ShellAnswers) → length (shell_cmd_cbs os) ≡ 7
unfolding shell_cmd_cbs
length-shell_cmd_cbs os = refl

-- A line whose arguments are in order, with its files taken out, and whose first argument is the
-- name of a command of the shell: the callback at the place of this name is called with the
-- arguments behind it, and the array is never left.
pub run_shell_cmd-called :
    (os : ShellAnswers) (args : List Bytes) (num_args : ℕ) (t : ProcessTable)
    {output_file input_file : Option Bytes} (name : Bytes) (rest : List Bytes) {n : ℕ}
    → redirections args num_args ≡ some (output_file, input_file, name ∷ rest, n)
    → is_shell_cmd name ≡ true
    → (i : ℕ) × (callback : Callback) × (get_elem? shell_cmd_names i ≡ some name)
      × (get_elem? (shell_cmd_cbs os) i ≡ some callback)
      × (run_shell_cmd os args num_args t ≡ callback rest output_file t)
unfolding run_shell_cmd dispatch
run_shell_cmd-called os args num_args t name rest files known =
    let (i, at, lt, it) = str2int-is_shell_cmd name known in
    let (callback, called) =
      get_elem?_lt (shell_cmd_cbs os) i (omega (arith, length-shell_cmd_cbs os)) in
    (i, callback, it, called, rw (run_shell_cmd, dispatch, files, at, called) refl)
