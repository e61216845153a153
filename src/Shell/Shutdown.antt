-- ===== src/Shell/Shutdown.antt =====
-- How the shell ends: `exit_cb` of A1/command.c and `shell_sigint` of A1/shell379.c, which go over
-- the process table. What the system calls answer is only printed. The handler of SIGCHLD is
-- taken not to run in between.
pub mod Kept
pub mod Codes
use operating_systems_fa.Common.{
  Bool, List, [], false, if◌then◌else◌, length, map, refl, replicate, suc, true, zero, ℕ, ℤ, ◌++◌,
  ◌==◌, ◌∷◌, ◌≡◌,
}
use operating_systems_fa.Common.State.{ok, pure, ◌>>=◌}
use operating_systems_fa.Shell.Heap.{Ptr, null, Info, Heap, Cmd, load}
use operating_systems_fa.Shell.Heap.Writes.{load-ok}
use operating_systems_fa.Shell.Pcb.{ProcessTable}
use operating_systems_fa.Shell.Pcb.Cells.{Cells, first_or, Seg, IsTable}
use operating_systems_fa.Shell.Command.{Bytes, Event, sigkill, waitpid, cmd_args_err}

-- A command comes back with a code, or the process of the shell has ended after these events.
pub data Ending : Type 0 where
  returned : ℕ → Ending
  exited : List Event → Ending

-- No argument, or one "&".
unfoldable pub no_arg : List Bytes → Bool
no_arg [] = true
no_arg ((c ∷ []) ∷ []) = c == b'&'
no_arg _ = false

wait_loop : ℕ → Ptr → Cmd (List Event)
wait_loop zero proc = pure []
wait_loop (suc k) proc = do
  c ← load proc
  events ← wait_loop k c.next
  pure (waitpid c.info.pid ∷ events)

pub exit_cb : List Bytes → ProcessTable → Cmd Ending
exit_cb args t =
    if no_arg args
    then (do events ← wait_loop t.num_procs t.process_list; pure (exited events))
    else pure (returned cmd_args_err)

-- The loop of `shell_sigint` does not move on from `proc`.
sigint_loop : ℕ → Ptr → Cmd (List Event)
sigint_loop zero proc = pure []
sigint_loop (suc k) proc = do
  c ← load proc
  events ← sigint_loop k proc
  pure (sigkill c.info.pid ∷ events)

-- `mypid` is what `getpid` returns.
pub shell_sigint : ℤ → ProcessTable → Cmd (List Event)
shell_sigint mypid t = do
  events ← sigint_loop t.num_procs t.process_list
  pure (events ++ sigkill mypid ∷ [])

wait_loop-Seg :
    {h : Heap} (p : Ptr) (xs : Cells)
    → Seg h p null xs
    → wait_loop (length xs) (first_or xs null) h ≡ ok (map (λ x. waitpid x.1.pid) xs) h
unfolding wait_loop
wait_loop-Seg p [] s = refl
wait_loop-Seg {h} p ((a, v) ∷ xs) (ne, at, out, s) = rw (load-ok h ne at, wait_loop-Seg a xs s) refl

-- `exit` with no argument, or with "&": the shell waits for each process of the table once, from
-- the newest to the oldest, and ends; the memory is as before.
pub exit_cb-waits :
    {h : Heap} {t : ProcessTable} (xs : Cells) (args : List Bytes)
    → IsTable h t xs
    → no_arg args ≡ true
    → exit_cb args t h ≡ ok (exited (map (λ x. waitpid x.1.pid) xs)) h
unfolding exit_cb
exit_cb-waits xs args is none_given =
    rw (exit_cb, none_given, is.counted, is.head_at, wait_loop-Seg null xs is.chain) refl

sigint_loop-head :
    {h : Heap} (p a : Ptr) (v : Info) (xs : Cells) (k : ℕ)
    → Seg h p null ((a, v) ∷ xs)
    → sigint_loop k a h ≡ ok (replicate k (sigkill v.pid)) h
unfolding sigint_loop
sigint_loop-head p a v xs zero s = refl
sigint_loop-head {h} p a v xs (suc k) s = rw (load-ok h s.0 s.1, sigint_loop-head p a v xs k s) refl

-- On SIGINT the newest process gets SIGKILL as many times as there are processes, and the others
-- get none, before the shell kills itself.
pub shell_sigint-head :
    {h : Heap} {t : ProcessTable} (mypid : ℤ) (a : Ptr) (v : Info) (xs : Cells)
    → IsTable h t ((a, v) ∷ xs)
    → shell_sigint mypid t h
      ≡ ok (replicate (length ((a, v) ∷ xs)) (sigkill v.pid) ++ sigkill mypid ∷ []) h
unfolding shell_sigint
shell_sigint-head mypid a v xs is =
    rw
      (
        shell_sigint,
        is.head_at,
        is.counted,
        sigint_loop-head null a v xs (length ((a, v) ∷ xs)) is.chain,
      )
      refl
