-- ===== src/Shell/Pcb/Find.antt =====
-- `find_proc` of A1/pcb.c.
use operating_systems_fa.Common.State.{ok}
use operating_systems_fa.Common.{
  Bool-cases, [], arith, eqb_ℤ, if◌then◌else◌, inl, inr, length, refl, suc, zero, ℕ, ℤ, ◌+◌, ◌<◌,
  ◌∷◌, ◌≡◌,
}
use operating_systems_fa.Shell.Heap.{Ptr, null, Heap}
use operating_systems_fa.Shell.Heap.Writes.{not_null, load-ok}
use operating_systems_fa.Shell.Pcb.{ProcessTable, find_loop, find_proc}
use operating_systems_fa.Shell.Pcb.Cells.{Cells, Seg, first_or, IsTable}

-- The first process of the list that has the pid, NULL if none has.
unfoldable pub first_with : ℤ → Cells → Ptr
first_with pid [] = null
first_with pid ((a, v) ∷ xs) = if eqb_ℤ v.pid pid then a else first_with pid xs

find_loop-first_with :
    {h : Heap} (k : ℕ) (pid : ℤ) (p : Ptr) (xs : Cells)
    → Seg h p null xs
    → length xs < k
    → find_loop k pid (first_or xs null) h ≡ ok (first_with pid xs) h
unfolding find_loop first_with
find_loop-first_with zero pid p xs s fuel = absurd (omega arith)
find_loop-first_with (suc k) pid p [] s fuel = refl
find_loop-first_with {h} (suc k) pid p ((a, v) ∷ xs) (ne, at, out, s) fuel =
    rw (not_null a ne, load-ok h ne at)
      (elim (Bool-cases (eqb_ℤ v.pid pid)) [
        | inl hit ↦ rw hit
        | inr miss ↦ rw miss (find_loop-first_with k pid a xs s (omega arith))
      ])

-- On a table `find_proc` comes to an end, finds the first process with the pid, or NULL if there
-- is none, and changes nothing.
pub find_proc-first_with :
    {h : Heap} {t : ProcessTable} {xs : Cells} (pid : ℤ)
    → IsTable h t xs
    → find_proc t pid h ≡ ok (first_with pid xs) h
unfolding find_proc first_with
find_proc-first_with {xs = []} pid is = rw is.head_at
find_proc-first_with {t} {xs = (a, v) ∷ xs} pid is =
    rw (is.head_at, not_null a is.chain.0)
      (find_loop-first_with (t.num_procs + 1) pid null ((a, v) ∷ xs) is.chain (omega arith))
