-- ===== src/Shell/Pcb.antt =====
-- A1/pcb.c: the process table, a doubly linked list of `struct process` with a head, a tail and a
-- count. A `process_table` is reached through one pointer that nobody else holds, so a function
-- that updates it returns the new value.
pub mod Cells
pub mod Split
pub mod Add
pub mod Find
pub mod Remove
pub mod Cleanup
mod Examples
use operating_systems_fa.Common.State.{ok, fault, out_of_fuel, pure, ◌>>=◌, ◌>>◌}
use operating_systems_fa.Common.{
  List, eqb_ℤ, if◌then◌else◌, length, ltb, suc, zero, ℤ, ◌+◌, ◌-◌, ◌==◌,
}
use Prim.Native.Nat.{ℕ}
use operating_systems_fa.Shell.Heap.{Ptr, null, Cmd, load, store, set_next, set_prev, free}

-- `MAX_PT_ENTRIES` and `LINE_LENGTH` of pcb.h.
abbrev pub max_pt_entries : ℕ
max_pt_entries = 32

abbrev pub line_length : ℕ
line_length = 100

-- The return codes of shell_error.h that pcb.c uses.
abbrev pub proc_ok : ℕ
proc_ok = 0

abbrev pub proc_table_full : ℕ
proc_table_full = 8

pub record ProcessTable : Type 0 where
  pub process_list : Ptr
  pub tail : Ptr
  pub num_procs : ℕ

-- `strcpy(proc->name, name)`: the bytes and their NUL must fit `char name[LINE_LENGTH]`.
copy_name : List ℕ → Cmd (List ℕ)
copy_name name h = if ltb (length name) line_length then ok name h else fault

-- `fresh` is what `malloc` returns. The node's fields are written one after the other; `prev` of
-- the old head comes in between, and the new node is complete at the end.
pub add_process : (fresh : Ptr) → ProcessTable → ℤ → List ℕ → Cmd (ℕ × ProcessTable)
unfolding copy_name
add_process fresh t pid name =
    if ltb t.num_procs max_pt_entries
    then (do
      bytes ← copy_name name
      store fresh (record {
        info = record { pid = pid; status = b'R'; name = bytes };
        next = t.process_list;
        prev = null;
      })
      tail ←
          (if t.process_list == null
            then pure fresh
            else (do set_prev t.process_list fresh; pure t.tail))
      pure (proc_ok, record { process_list = fresh; tail = tail; num_procs = t.num_procs + 1 }))
    else pure (proc_table_full, t)

find_loop : ℕ → ℤ → Ptr → Cmd Ptr
find_loop zero pid temp = λ _. out_of_fuel
find_loop (suc k) pid temp =
    if temp == null
    then pure null
    else (do c ← load temp; if eqb_ℤ c.info.pid pid then pure temp else find_loop k pid c.next)

-- One round more than there are processes, to come to the NULL at the end.
pub find_proc : ProcessTable → ℤ → Cmd Ptr
unfolding find_loop
find_proc t pid =
    if t.process_list == null then pure null else find_loop (t.num_procs + 1) pid t.process_list

-- The removal of a process that is not the head: the neighbours are linked to each other.
pub unlink_inner : ProcessTable → Ptr → Cmd ProcessTable
unlink_inner t proc = do
  c ← load proc
  set_next c.prev c.next
  d ← load proc
  t' ←
      (if d.next == null
        then pure (record t { tail = d.prev })
        else (do set_prev d.next d.prev; pure t))
  set_next proc null
  set_prev proc null
  pure t'

-- The removal of the head: the next process is the new head.
pub unlink_head : ProcessTable → Ptr → Cmd ProcessTable
unlink_head t proc = do
  c ← load proc
  if c.next == null
      then pure (record t { process_list = null; tail = null })
      else (do set_prev c.next null; pure (record t { process_list = c.next }))

pub remove_process : ProcessTable → Ptr → Cmd ProcessTable
remove_process t proc = if t.process_list == null then pure t else (do
  t' ← (if t.process_list == proc then unlink_head t proc else unlink_inner t proc)
  free proc
  pure (record t' { num_procs = t'.num_procs - 1 }))
