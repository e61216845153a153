-- ===== src/Shell/Command/Refusals.antt =====
-- What `suspend_cb`, `resume_cb`, `kill_cb`, `wait_cb` and `sleep_cb` of A1/command.c do where they
-- send no signal through a shell.
use operating_systems_fa.Common.{
  Bool-cases, List, Option, [], arith, if◌then◌else◌, inl, inr, none, refl, some, ℕ, ◌++◌, ◌==◌,
  ◌∷◌, ◌≡◌,
}
use operating_systems_fa.Common.State.{ok, fault}
use operating_systems_fa.Common.Atoi.{atoi}
use operating_systems_fa.Shell.Heap.{Ptr, null, Info, Heap, Cmd, load}
use operating_systems_fa.Shell.Heap.Writes.{not_null, load-ok}
use operating_systems_fa.Shell.Pcb.{ProcessTable}
use operating_systems_fa.Shell.Pcb.Cells.{Cells, IsTable}
use operating_systems_fa.Shell.Pcb.Split.{Seg-Split}
use operating_systems_fa.Shell.Pcb.Find.{first_with, find_proc-first_with}
use operating_systems_fa.Shell.Command.{
  Bytes, Answers, Result, sigkill, cmd_ok, cmd_args_err, cmd_proc_not_fnd, cmd_proc_not_run,
  cmd_proc_not_susp, sys_kill_fail, one_arg, with_one_arg, kill_body, resume_body, suspend_body,
  kill_cb, resume_cb, suspend_cb,
}

-- The three commands that find a process.
pub data Finder : Type 0 where
  kill suspend resume : Finder

abbrev pub run : Finder → Answers → List Bytes → ProcessTable → Cmd Result
run kill = kill_cb
run suspend = suspend_cb
run resume = resume_cb

-- The code with which `suspend` and `resume` refuse a process of this status, if they do.
abbrev pub refusal : Finder → Info → Option ℕ
refusal kill v = none
refusal suspend v = if v.status == b'R' then none else some cmd_proc_not_run
refusal resume v = if v.status == b'S' then none else some cmd_proc_not_susp

-- Each of the three commands answers CMD_ARGS_ERR unless its argument is one, or one and "&";
-- nothing is sent and nothing changes.
pub run-args_err :
    (f : Finder) (os : Answers) (args : List Bytes) (t : ProcessTable) (h : Heap)
    → one_arg args ≡ none
    → run f os args t h ≡ ok (cmd_args_err, []) h
unfolding kill_cb suspend_cb resume_cb with_one_arg
run-args_err kill os args t h bad = rw (kill_cb, with_one_arg, bad) refl
run-args_err suspend os args t h bad = rw (suspend_cb, with_one_arg, bad) refl
run-args_err resume os args t h bad = rw (resume_cb, with_one_arg, bad) refl

module _ {h : Heap} {t : ProcessTable} (args : List Bytes) {a : Bytes} (os : Answers) where
  -- A process that is not in the table: `suspend` and `resume` answer CMD_PROC_NOT_FND, send
  -- nothing and change nothing, and `kill` dereferences NULL.
  pub unknown-process :
      (xs : Cells)
      → IsTable h t xs
      → one_arg args ≡ some a
      → first_with (atoi a) xs ≡ null
      → (suspend_cb os args t h ≡ ok (cmd_proc_not_fnd, []) h)
        × (resume_cb os args t h ≡ ok (cmd_proc_not_fnd, []) h)
        × (kill_cb os args t h ≡ fault)
  unfolding kill_cb suspend_cb resume_cb with_one_arg kill_body suspend_body resume_body load
  unknown-process xs is only missing = (
    rw (suspend_cb, with_one_arg, only, suspend_body, find_proc-first_with (atoi a) is, missing)
        refl,
    rw (resume_cb, with_one_arg, only, resume_body, find_proc-first_with (atoi a) is, missing) refl,
    rw (kill_cb, with_one_arg, only, kill_body, find_proc-first_with (atoi a) is, missing) refl,
  )

  -- A process that is found: `kill` of a suspended one sends SIGKILL to its pid and
  -- answers whether that worked; the table and the memory are as before.
  pub kill_cb-suspended :
      (xs : Cells) (p : Ptr) (v : Info) (ys : Cells)
      → IsTable h t (xs ++ (p, v) ∷ ys)
      → one_arg args ≡ some a
      → first_with (atoi a) (xs ++ (p, v) ∷ ys) ≡ p
      → v.status ≡ b'S'
      → kill_cb os args t h
        ≡ ok (if os.kill_works then cmd_ok else sys_kill_fail, sigkill v.pid ∷ []) h
  unfolding kill_cb with_one_arg kill_body
  kill_cb-suspended xs p v ys is only found suspended =
      let parts = Seg-Split h null null xs p v ys is.chain in
      rw
        (
          kill_cb,
          with_one_arg,
          only,
          kill_body,
          find_proc-first_with (atoi a) is,
          found,
          load-ok h parts.ne parts.at,
          suspended,
        )
        refl

  -- `suspend` of a process that is not running and `resume` of one that is not suspended are
  -- refused with the code for it; nothing is sent and nothing changes.
  pub run-refusal :
      (f : Finder) (xs : Cells) (p : Ptr) (v : Info) (ys : Cells) (code : ℕ)
      → IsTable h t (xs ++ (p, v) ∷ ys)
      → one_arg args ≡ some a
      → first_with (atoi a) (xs ++ (p, v) ∷ ys) ≡ p
      → refusal f v ≡ some code
      → run f os args t h ≡ ok (code, []) h
  unfolding suspend_cb resume_cb with_one_arg suspend_body resume_body
  run-refusal kill xs p v ys code is only found refused = absurd (ground arith)
  run-refusal suspend xs p v ys code is only found refused =
      let parts = Seg-Split h null null xs p v ys is.chain in
      elim (Bool-cases (v.status == b'R')) [
        | inl e ↦ absurd (ground arith)
        | inr e ↦
            rw
              (
                suspend_cb,
                with_one_arg,
                only,
                suspend_body,
                find_proc-first_with (atoi a) is,
                found,
                not_null p parts.ne,
                load-ok h parts.ne parts.at,
                e,
              )
              (ground arith)
      ]
  run-refusal resume xs p v ys code is only found refused =
      let parts = Seg-Split h null null xs p v ys is.chain in
      elim (Bool-cases (v.status == b'S')) [
        | inl e ↦ absurd (ground arith)
        | inr e ↦
            rw
              (
                resume_cb,
                with_one_arg,
                only,
                resume_body,
                find_proc-first_with (atoi a) is,
                found,
                not_null p parts.ne,
                load-ok h parts.ne parts.at,
                e,
              )
              (ground arith)
      ]
