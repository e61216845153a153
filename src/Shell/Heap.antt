-- ===== src/Shell/Heap.antt =====
-- The memory of A1/pcb.c: `struct process` nodes at addresses, and commands that read and write
-- them. Reading or writing through NULL or through an address that holds no node (never
-- allocated, or freed) is a fault.
pub mod Writes
pub mod Reads
use operating_systems_fa.Common.{List, Option, if◌then◌else◌, none, some, ℤ, ◌==◌}
use operating_systems_fa.Common.State.{Program, ok, fault, and_then}
use Prim.Native.Nat.{ℕ}

abbrev pub Ptr : Type 0
Ptr = ℕ

abbrev pub null : Ptr
null = 0

-- What a node says of its process: `pid`, `status` ('R' or 'S') and `name` (its bytes up to NUL).
pub record Info : Type 0 where
  pub pid : ℤ
  pub status : ℕ
  pub name : List ℕ

-- `struct process`.
pub record Process : Type 0 where
  pub info : Info
  pub next : Ptr
  pub prev : Ptr

abbrev pub Heap : Type 0
Heap = Ptr → Option Process

unfoldable pub write : Heap → Ptr → Option Process → Heap
write h p c a = if a == p then c else h a

-- A command of the program: it runs on the memory.
abbrev pub Cmd : Type 0 → Type 0
Cmd A = Program Heap A

-- `*p`.
unfoldable pub load : Ptr → Cmd Process
load p h = if p == null then fault else elim (h p) [ none ↦ fault | some c ↦ ok c h ]

-- Stores `c` at an address that `malloc` has returned, which is a fault for NULL.
unfoldable pub store : Ptr → Process → Cmd (Unit {0})
store p c h = if p == null then fault else ok tt (write h p (some c))

-- Assignments `p->next = q`, `p->prev = q`, `p->status = s`.
unfoldable pub set_next : Ptr → Ptr → Cmd (Unit {0})
unfolding load
set_next p q h = and_then (load p h) λ c. λ g. ok tt (write g p (some (record c { next = q })))

unfoldable pub set_prev : Ptr → Ptr → Cmd (Unit {0})
unfolding load
set_prev p q h = and_then (load p h) λ c. λ g. ok tt (write g p (some (record c { prev = q })))

unfoldable pub set_status : Ptr → ℕ → Cmd (Unit {0})
unfolding load
set_status p s h =
    and_then (load p h)
      λ c. λ g. ok tt (write g p (some (record c { info = record c.info { status = s } })))

-- `free(p)`, of a node.
unfoldable pub free : Ptr → Cmd (Unit {0})
unfolding load
free p h = and_then (load p h) λ c. λ g. ok tt (write g p none)
