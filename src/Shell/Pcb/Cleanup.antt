-- ===== src/Shell/Pcb/Cleanup.antt =====
-- `table_cleanup` of A1/pcb.c, the handler of SIGCHLD: it polls every process of the table with
-- `waitpid(pid, &status, WNOHANG)` and removes those that are gone.
use operating_systems_fa.Common.State.{
  Outcome, ok, fault, out_of_fuel, pure, ◌>>=◌, and_then, Returns, returns, weaken_post,
}
use operating_systems_fa.Common.{
  Bool, Bool-cases, List, [], ap, arith, false, if◌then◌else◌, inl, inr, length, length-append,
  le→not-ltb, ltb, lt→ltb, none, refl, suc, true, zero, ℕ, ℤ, ◌++◌, ◌+◌, ◌<◌, ◌==◌, ◌∙◌, ◌∷◌, ◌≡◌,
}
use mathlib.Core.List.{append-nil, append_assoc}
use operating_systems_fa.Shell.Heap.{Ptr, null, Info, Process, Heap, Cmd, load}
use operating_systems_fa.Shell.Heap.Writes.{load-ok}
use operating_systems_fa.Shell.Pcb.{ProcessTable, remove_process}
use operating_systems_fa.Shell.Pcb.Cells.{Cells, first_or, Seg, IsTable}
use operating_systems_fa.Shell.Pcb.Remove.{remove_process-Removed}

-- What a poll says: the process was reaped (a positive result), runs (0), or `errno`.
pub data Poll : Type 0 where
  reaped : Poll
  running : Poll
  failed : (errno : ℕ) → Poll

-- `errno == 10`, no child process.
abbrev pub echild : ℕ
echild = 10

-- The pids and error numbers that are printed to stderr.
abbrev pub Errors : Type 0
Errors = List (ℤ × ℕ)

-- One poll: `proc` is removed if it is gone, another error is printed.
unfoldable pub handle : Poll → ProcessTable → Ptr → ℤ → Errors → Cmd (ProcessTable × Errors)
handle reaped t proc pid es = do t' ← remove_process t proc; pure (t', es)
handle running t proc pid es = pure (t, es)
handle (failed errno) t proc pid es =
    if errno == echild
    then (do t' ← remove_process t proc; pure (t', es))
    else pure (t, es ++ (pid, errno) ∷ [])

-- `waitpid i pid` is the answer to the poll of round `i`. The bound of the loop is read anew in
-- each round, and so is `proc->next`, at its end.
module _ (waitpid : ℕ → ℤ → Poll) where
  cleanup_loop : ℕ → ℕ → ProcessTable → Ptr → Errors → Cmd (ProcessTable × Errors)
  cleanup_loop zero i t proc es = λ _. out_of_fuel
  cleanup_loop (suc k) i t proc es =
      if ltb i t.num_procs
      then (do
        c ← load proc
        (t', es') ← handle (waitpid i c.info.pid) t proc c.info.pid es
        d ← load proc
        cleanup_loop k (i + 1) t' d.next es')
      else pure (t, es)

  -- `num_procs` does not grow, so one round more than it is enough.
  pub table_cleanup : ProcessTable → Cmd (ProcessTable × Errors)
  unfolding cleanup_loop
  table_cleanup t = cleanup_loop (t.num_procs + 1) 0 t t.process_list []

-- A poll after which the code removes the process.
unfoldable pub gone : Poll → Bool
gone reaped = true
gone running = false
gone (failed errno) = errno == echild

-- The error that a poll adds.
unfoldable pub errors_of : Poll → ℤ → Errors
errors_of (failed errno) pid = (pid, errno) ∷ []
errors_of _ pid = []

module _ (waitpid : ℕ → ℤ → Poll) where
  -- From round `i` on, the processes `xs` are polled in order, and none is gone.
  abbrev pub AllStay : ℕ → Cells → Type 0
  AllStay i [] = Unit
  AllStay i ((a, v) ∷ xs) = (gone (waitpid i v.pid) ≡ false) × AllStay (i + 1) xs

  -- What is printed in these rounds.
  unfoldable pub printed : ℕ → Cells → Errors
  printed i [] = []
  printed i ((a, v) ∷ xs) = errors_of (waitpid i v.pid) v.pid ++ printed (i + 1) xs

handle-stay :
    (r : Poll) (t : ProcessTable) (a : Ptr) (pid : ℤ) (es : Errors) (h : Heap)
    → gone r ≡ false
    → handle r t a pid es h ≡ ok (t, es ++ errors_of r pid) h
unfolding handle gone errors_of
handle-stay reaped t a pid es h stay = cc
handle-stay running t a pid es h stay = rw append-nil
handle-stay (failed errno) t a pid es h stay = rw stay

handle-gone :
    (r : Poll) (t : ProcessTable) (a : Ptr) (pid : ℤ) (es : Errors) (h : Heap)
    → gone r ≡ true
    → handle r t a pid es h ≡ and_then (remove_process t a h) (λ t'. pure (t', es))
unfolding handle gone
handle-gone reaped t a pid es h e = refl
handle-gone running t a pid es h e = cc
handle-gone (failed errno) t a pid es h e = rw e

module _ (waitpid : ℕ → ℤ → Poll) (h : Heap) (t : ProcessTable) where
  cleanup_loop-stay :
      (k i : ℕ) (p : Ptr) (xs : Cells) (es : Errors)
      → Seg h p null xs
      → i + length xs ≡ t.num_procs
      → length xs < k
      → AllStay waitpid i xs
      → cleanup_loop waitpid k i t (first_or xs null) es h ≡ ok (t, es ++ printed waitpid i xs) h
  unfolding cleanup_loop printed
  cleanup_loop-stay zero i p xs es s e fuel stay = absurd (omega arith)
  cleanup_loop-stay (suc k) i p [] es s e fuel stay =
      rw (le→not-ltb i t.num_procs (omega arith), append-nil)
  cleanup_loop-stay (suc k) i p ((a, v) ∷ xs) es (ne, at, out, s) e fuel (stay, stays) =
      rw
        (
          lt→ltb i t.num_procs (omega arith),
          load-ok h ne at,
          handle-stay (waitpid i v.pid) t a v.pid es h stay,
          load-ok h ne at,
        )
        (cleanup_loop-stay k (i + 1) a xs (es ++ errors_of (waitpid i v.pid) v.pid) s (omega arith)
            (omega arith) stays
          ∙ ap (λ q. ok (t, q) h)
              (append_assoc es (errors_of (waitpid i v.pid) v.pid) (printed waitpid (i + 1) xs)))

-- A round that removes its process reads the freed node at its end.
fault-removed :
    {r : Outcome Heap ProcessTable} {a : Ptr} (es : Errors)
    (k : ProcessTable × Errors → Process → Cmd (ProcessTable × Errors))
    → Returns (λ t' g. g a ≡ none) r
    → and_then (and_then r (λ t'. pure (t', es))) (λ t'. load a >>= k t') ≡ fault
unfolding load
fault-removed {a} es k (returns e) = elim (Bool-cases (a == null)) [
  | inl z ↦ rw z
  | inr z ↦ rw (z, e)
]

module _ (waitpid : ℕ → ℤ → Poll) (h : Heap) (t : ProcessTable) where
  cleanup_loop-gone :
      (k i j : ℕ) (p : Ptr) (xs : Cells) (a : Ptr) (v : Info) (ys : Cells) (es : Errors)
      → Seg h p null (xs ++ (a, v) ∷ ys)
      → j ≡ i + length xs
      → j < t.num_procs
      → length xs < k
      → AllStay waitpid i xs
      → gone (waitpid j v.pid) ≡ true
      → Returns (λ t' g. g a ≡ none) (remove_process t a h)
      → cleanup_loop waitpid k i t (first_or (xs ++ (a, v) ∷ ys) null) es h ≡ fault
  unfolding cleanup_loop
  cleanup_loop-gone zero i j p xs a v ys es s at_j e fuel stay g r = absurd (omega arith)
  cleanup_loop-gone (suc k) i j p [] a v ys es (ne, at, out, s) at_j e fuel stay g r =
      let same : i ≡ j = omega arith in
      rw
        (
          lt→ltb i t.num_procs (omega arith),
          load-ok h ne at,
          handle-gone (waitpid i v.pid) t a v.pid es h (ap (λ n. gone (waitpid n v.pid)) same ∙ g),
        )
        (fault-removed es (λ (t', es') d. cleanup_loop waitpid k (i + 1) t' d.next es') r)
  cleanup_loop-gone (suc k) i j p ((b, w) ∷ xs) a v ys es (ne, at, out, s) at_j e fuel (stay, stays)
        g r =
      rw
        (
          lt→ltb i t.num_procs (omega arith),
          load-ok h ne at,
          handle-stay (waitpid i w.pid) t b w.pid es h stay,
          load-ok h ne at,
        )
        (cleanup_loop-gone k (i + 1) j b xs a v ys (es ++ errors_of (waitpid i w.pid) w.pid) s
          (omega arith) e (omega arith) stays g r)

module _ (waitpid : ℕ → ℤ → Poll) {h : Heap} {t : ProcessTable} where
  -- If no process of the table is gone, `table_cleanup` polls each of them once, in order, prints
  -- the errors but ECHILD, and leaves table and memory as they are.
  pub table_cleanup-stay :
      {xs : Cells}
      → IsTable h t xs
      → AllStay waitpid 0 xs
      → table_cleanup waitpid t h ≡ ok (t, printed waitpid 0 xs) h
  unfolding table_cleanup
  table_cleanup-stay {xs} is stay =
      ap (λ q. cleanup_loop waitpid (t.num_procs + 1) 0 t q [] h) is.head_at
      ∙ cleanup_loop-stay waitpid h t (t.num_procs + 1) 0 null xs [] is.chain (omega arith)
          (omega arith) stay

  -- As soon as a process of the table is gone, whatever its place, `table_cleanup` is undefined: it
  -- reads `proc->next` of the node that `remove_process` has freed.
  pub table_cleanup-use_after_free :
      (xs : Cells) (a : Ptr) (v : Info) (ys : Cells)
      → IsTable h t (xs ++ (a, v) ∷ ys)
      → AllStay waitpid 0 xs
      → gone (waitpid (length xs) v.pid) ≡ true
      → table_cleanup waitpid t h ≡ fault
  unfolding table_cleanup
  table_cleanup-use_after_free xs a v ys is stay g =
      ap (λ q. cleanup_loop waitpid (t.num_procs + 1) 0 t q [] h) is.head_at
      ∙ cleanup_loop-gone waitpid h t (t.num_procs + 1) 0 (length xs) null xs a v ys [] is.chain
          (omega arith) in_table (omega (arith, in_table)) stay g
          (weaken_post (λ t' k r. r.1) (remove_process-Removed xs a v ys is))
    where
      in_table : length xs < t.num_procs
      in_table = omega (arith, is.counted, length-append xs ((a, v) ∷ ys))
