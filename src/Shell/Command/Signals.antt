-- ===== src/Shell/Command/Signals.antt =====
-- `suspend_cb`, `resume_cb` and `kill_cb` of A1/command.c on a process table.
use operating_systems_fa.Common.{
  List, [], ap, if◌then◌else◌, length, lt→ltb, refl, some, sym, true, ℕ, ◌++◌, ◌<◌, ◌∙◌, ◌∷◌, ◌≡◌,
}
use mathlib.Core.Path.{subst}
use operating_systems_fa.Common.State.{ok, pure, ◌>>=◌, Returns, returns}
use operating_systems_fa.Common.Atoi.{atoi}
use operating_systems_fa.Shell.Heap.{Ptr, null, Info, Heap, Cmd}
use operating_systems_fa.Shell.Heap.Writes.{not_null, load-ok}
use operating_systems_fa.Shell.Pcb.{ProcessTable}
use operating_systems_fa.Shell.Pcb.Cells.{Cells, IsTable}
use operating_systems_fa.Shell.Pcb.Split.{Seg-Split}
use operating_systems_fa.Shell.Pcb.Find.{first_with, find_proc-first_with}
use operating_systems_fa.Shell.Command.{
  Bytes, Answers, popen, Result, cmd_ok, sys_pclose_fail, max_length, one_arg, command_line,
  signal_through_shell, cont_text, stop_text, resume_body, suspend_body, with_one_arg, resume_cb,
  suspend_cb,
}
use operating_systems_fa.Shell.Command.Status.{with_status, first_with-status, set_status-IsTable}

-- What a command answers that has sent a signal by the line.
abbrev pub sent : Answers → Bytes → Result
sent os line = (if os.pclose_works then cmd_ok else sys_pclose_fail, popen line ∷ [])

-- The process at `p` between `xs` and `ys` is the first one that the argument names, and the
-- command line fits the 20 bytes of the buffer.
pub record Names (h : Heap) (t : ProcessTable) (args : List Bytes) (a : Bytes) (front : Bytes)
    (xs : Cells) (p : Ptr) (v : Info) (ys : Cells) : Type 0 where
  pub is_table : IsTable h t (xs ++ (p, v) ∷ ys)
  pub only_arg : one_arg args ≡ some a
  pub found : first_with (atoi a) (xs ++ (p, v) ∷ ys) ≡ p
  pub fits : length (front ++ a) < max_length

-- The table shows the process with another status, and nothing else has changed.
abbrev pub Restated : ProcessTable → Cells → Ptr → Info → ℕ → Cells → Heap → Type 0
Restated t xs p v s ys g = IsTable g t (xs ++ (p, with_status v s) ∷ ys)

module _ {h : Heap} {t : ProcessTable} {args : List Bytes} {a : Bytes} (os : Answers) {xs : Cells}
    {p : Ptr} {v : Info} {ys : Cells} where
  -- `suspend` of a running process, where the shell of `popen` starts: the command sends SIGSTOP
  -- once, by `kill -s 19`, and the table shows the process with status 'S' and is otherwise as
  -- it was. The code is CMD_OK, or SYS_PCLOSE_FAIL if `pclose` fails.
  pub suspend_cb-Restated :
      Names h t args a stop_text xs p v ys
      → v.status ≡ b'R'
      → os.popen_works ≡ true
      → (g : Heap) × (suspend_cb os args t h ≡ ok (sent os (stop_text ++ a)) g)
        × Restated t xs p v b'S' ys g
  unfolding suspend_cb with_one_arg suspend_body command_line signal_through_shell
  suspend_cb-Restated names running works =
      let parts = Seg-Split h null null xs p v ys names.is_table.chain in
      let (g, e, is) = set_status-IsTable xs p v b'S' ys names.is_table in
      (
        g,
        rw
            (
              suspend_cb,
              with_one_arg,
              names.only_arg,
              suspend_body,
              find_proc-first_with (atoi a) names.is_table,
              names.found,
              not_null p parts.ne,
              load-ok h parts.ne parts.at,
              running,
              lt→ltb (length (stop_text ++ a)) max_length names.fits,
              works,
              e,
            )
            refl,
        is,
      )

  -- `resume` of a suspended process, in the same way: SIGCONT by `kill -s 18`, and status 'R'.
  pub resume_cb-Restated :
      Names h t args a cont_text xs p v ys
      → v.status ≡ b'S'
      → os.popen_works ≡ true
      → (g : Heap) × (resume_cb os args t h ≡ ok (sent os (cont_text ++ a)) g)
        × Restated t xs p v b'R' ys g
  unfolding resume_cb with_one_arg resume_body command_line signal_through_shell
  resume_cb-Restated names suspended works =
      let parts = Seg-Split h null null xs p v ys names.is_table.chain in
      let (g, e, is) = set_status-IsTable xs p v b'R' ys names.is_table in
      (
        g,
        rw
            (
              resume_cb,
              with_one_arg,
              names.only_arg,
              resume_body,
              find_proc-first_with (atoi a) names.is_table,
              names.found,
              not_null p parts.ne,
              load-ok h parts.ne parts.at,
              suspended,
              lt→ltb (length (cont_text ++ a)) max_length names.fits,
              works,
              e,
            )
            refl,
        is,
      )

-- A process that is running is running again after `suspend` and `resume` with the same argument,
-- and the table is the same list as before; SIGSTOP and SIGCONT have been sent, in this order.
abbrev pub suspend_resume : Answers → List Bytes → ProcessTable → Cmd (Result × Result)
suspend_resume os args t = do r ← suspend_cb os args t; s ← resume_cb os args t; pure (r, s)

resumed : (v : Info) → v.status ≡ b'R' → with_status (with_status v b'S') b'R' ≡ v
resumed v running = sym (ap (with_status v) running)

pub suspend_resume-IsTable :
    {h : Heap} {t : ProcessTable} {args : List Bytes} {a : Bytes} (os : Answers) {xs : Cells}
    {p : Ptr} {v : Info} {ys : Cells}
    → Names h t args a stop_text xs p v ys
    → v.status ≡ b'R'
    → os.popen_works ≡ true
    → Returns
        (λ r g.
          (r ≡ (sent os (stop_text ++ a), sent os (cont_text ++ a)))
          × IsTable g t (xs ++ (p, v) ∷ ys))
        (suspend_resume os args t h)
suspend_resume-IsTable {t} {args} {a} os {xs} {p} {v} {ys} names running works =
    let (g, e, is) = suspend_cb-Restated os names running works in
    let names' : Names g t args a cont_text xs p (with_status v b'S') ys = record {
      is_table = is;
      only_arg = names.only_arg;
      found = first_with-status (atoi a) xs p v b'S' ys ∙ names.found;
      fits = names.fits;
    } in
    let (k, e', is') = resume_cb-Restated os names' refl works in
    rw (e, e')
      (returns (refl, subst (λ w. IsTable k t (xs ++ (p, w) ∷ ys)) (resumed v running) is'))
