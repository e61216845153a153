-- ===== src/Shell/Pcb/Examples.antt =====
-- Tests of the process table, and its theorems at a table of three processes.
use operating_systems_fa.Common.State.{fault, ◌>>=◌, Returns, returns}
use operating_systems_fa.Common.{
  [], arith, if◌then◌else◌, negsuc, none, pos, refl, some, ℕ, ℤ, ◌==◌, ◌∷◌, ◌≡◌,
}
use operating_systems_fa.Shell.Heap.{null, Info, Heap, write, load, store, set_next, set_prev, free}
use operating_systems_fa.Shell.Pcb.{
  ProcessTable, add_process, find_proc, remove_process, unlink_head, unlink_inner,
}
use operating_systems_fa.Shell.Pcb.Cells.{Cells, node, IsTable}
use operating_systems_fa.Shell.Pcb.Add.{running, Added, add_process-Added}
use operating_systems_fa.Shell.Pcb.Remove.{Removed, remove_process-Removed}
use operating_systems_fa.Shell.Pcb.Cleanup.{
  Poll, reaped, running as runs, failed, gone, table_cleanup, table_cleanup-use_after_free,
}

abbrev ls : Info
ls = running (pos 40) (b'l' ∷ b's' ∷ [])

abbrev ps : Info
ps = running (pos 41) (b'p' ∷ b's' ∷ [])

abbrev vi : Info
vi = running (pos 42) (b'v' ∷ b'i' ∷ [])

-- `vi` was started last and stands in front.
abbrev memory : Heap
memory =
    write (write (write (λ _. none) 8 (some (node ls null 16))) 16 (some (node ps 8 24))) 24
      (some (node vi 16 null))

abbrev table : ProcessTable
table = record { process_list = 24; tail = 8; num_procs = 3 }

abbrev cells : Cells
cells = (24, vi) ∷ (16, ps) ∷ (8, ls) ∷ []

table-IsTable : IsTable memory table cells
unfolding write
table-IsTable = record {
  chain = (omega arith, refl, refl, (omega arith, refl, refl, (omega arith, refl, refl, tt)));
  head_at = refl;
  tail_at = refl;
  counted = refl;
}

-- Two processes are added to an empty table, the older one is removed, and the other is found.
add_remove_find :
    Returns
      (λ p g. (p ≡ 16) × (g 8 ≡ none))
      ((do
        (_, t) ←
            add_process 8 (record { process_list = null; tail = null; num_procs = 0 }) (pos 40) []
        (_, t) ← add_process 16 t (pos 41) []
        t ← remove_process t 8
        find_proc t (pos 41))
        (λ _. none))
unfolding add_process remove_process unlink_head unlink_inner find_proc load store set_next set_prev
    free write
add_remove_find = returns (refl, refl)

add_process-Added_example :
    Returns
      (Added memory 32 (running (pos 43) (b'w' ∷ [])) cells)
      (add_process 32 table (pos 43) (b'w' ∷ []) memory)
unfolding write
add_process-Added_example =
    add_process-Added 32 (pos 43) (b'w' ∷ []) table-IsTable (omega arith) (omega arith) refl
      (omega arith)

remove_process-Removed_example :
    Returns (Removed memory ((24, vi) ∷ []) 16 ps ((8, ls) ∷ [])) (remove_process table 16 memory)
remove_process-Removed_example =
    remove_process-Removed ((24, vi) ∷ []) 16 ps ((8, ls) ∷ []) table-IsTable

-- 41 cannot be polled; 40 has ended.
abbrev polls : ℕ → ℤ → Poll
polls i (pos n) = if n == 40 then reaped else if n == 41 then failed 22 else runs
polls i (negsuc n) = runs

abbrev busy : ℕ → ℤ → Poll
busy i (pos n) = if n == 41 then failed 22 else runs
busy i (negsuc n) = runs

table_cleanup-use_after_free_example : table_cleanup polls table memory ≡ fault
unfolding gone
table_cleanup-use_after_free_example =
    table_cleanup-use_after_free polls ((24, vi) ∷ (16, ps) ∷ []) 8 ls [] table-IsTable
      (refl, (refl, tt)) refl
