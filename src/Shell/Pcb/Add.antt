-- ===== src/Shell/Pcb/Add.antt =====
-- `add_process` of A1/pcb.c.
use operating_systems_fa.Common.{
  ==→eq, Bool-cases, List, [], arith, dec_lt, false, inl, inr, length, le→not-ltb, ltb, lt→ltb,
  none, refl, some, ℕ, ℤ, ◌+◌, ◌<◌, ◌==◌, ◌∙◌, ◌∷◌, ◌≡◌, ◌≢◌, ◌≤◌, ◌⊎◌,
}
use operating_systems_fa.Common.State.{
  ok, fault, Returns, returns, Returns-Sound, Sound, faulty, sound, weaken-Sound,
}
use operating_systems_fa.Shell.Heap.{Ptr, null, Info, Heap, write, store, set_prev, Process}
use operating_systems_fa.Shell.Heap.Writes.{not_null, write_self, write_other}
use operating_systems_fa.Shell.Pcb.{
  ProcessTable, max_pt_entries, line_length, proc_ok, proc_table_full, add_process,
}
use operating_systems_fa.Shell.Pcb.Cells.{
  Cells, has, node, Seg, IsTable, SameOutside, Seg-write, not-has_of_none, set_prev-first,
}

-- A table with `MAX_PT_ENTRIES` processes is left as it is, and so is the memory.
pub add_process-full :
    (h : Heap) (t : ProcessTable) (fresh : Ptr) (pid : ℤ) (name : List ℕ)
    → max_pt_entries ≤ t.num_procs
    → add_process fresh t pid name h ≡ ok (proc_table_full, t) h
unfolding add_process
add_process-full h t fresh pid name full = rw full_test
  where
    full_test : ltb t.num_procs max_pt_entries ≡ false
    full_test = ground arith

-- The entry of a new process.
abbrev pub running : ℤ → List ℕ → Info
running pid name = record { pid = pid; status = b'R'; name = name }

-- The result is PROC_OK and the table of the old processes behind a new one; no memory but
-- theirs has changed.
abbrev pub Added : Heap → Ptr → Info → Cells → ℕ × ProcessTable → Heap → Type 0
Added h fresh v xs (ret, t) g =
    (ret ≡ proc_ok) × IsTable g t ((fresh, v) ∷ xs) × SameOutside ((fresh, v) ∷ xs) h g

add_process-nil :
    {h : Heap} (fresh : Ptr) (pid : ℤ) (name : List ℕ) (t : ProcessTable)
    → fresh ≢ null
    → length name < line_length
    → IsTable h t []
    → Returns (Added h fresh (running pid name) []) (add_process fresh t pid name h)
unfolding add_process store write
add_process-nil fresh pid name t ne short is =
    rw
      (
        lt→ltb t.num_procs 32 (omega arith),
        lt→ltb (length name) 100 short,
        not_null fresh ne,
        is.head_at,
      )
      (returns (
        refl,
        record {
          chain = (ne, ground arith, refl, tt);
          head_at = refl;
          tail_at = refl;
          counted = omega arith;
        },
        λ b o. ground arith,
      ))

add_process-cons :
    {h : Heap} (fresh : Ptr) (pid : ℤ) (name : List ℕ) (t : ProcessTable) (a : Ptr) (v : Info)
    (xs : Cells)
    → fresh ≢ null
    → h fresh ≡ none
    → length name < line_length
    → IsTable h t ((a, v) ∷ xs)
    → length xs + 1 < max_pt_entries
    → Returns (Added h fresh (running pid name) ((a, v) ∷ xs)) (add_process fresh t pid name h)
unfolding add_process store
add_process-cons {h} fresh pid name t a v xs ne unused short is room =
    rw
      (
        lt→ltb t.num_procs 32 (omega arith),
        lt→ltb (length name) 100 short,
        not_null fresh ne,
        is.head_at,
        not_null a is.chain.0,
        linked.1,
      )
      (returns (
        refl,
        record {
          chain = (ne, linked.3 fresh new ∙ with_node, new, linked.2);
          head_at = refl;
          tail_at = is.tail_at;
          counted = omega arith;
        },
        λ b o. linked.3 b (ground arith) ∙ write_other h fresh b (some n) (ground arith),
      ))
  where
    new : has fresh ((a, v) ∷ xs) ≡ false
    new = not-has_of_none h null null fresh ((a, v) ∷ xs) is.chain unused

    n : Process
    n = node (running pid name) a null

    with_node : write h fresh (some n) fresh ≡ some n
    with_node = write_self h fresh (some n)

    linked :
        (g : Heap) × (set_prev a fresh (write h fresh (some n)) ≡ ok tt g)
        × Seg g fresh null ((a, v) ∷ xs)
        × SameOutside ((a, v) ∷ xs) (write h fresh (some n)) g
    linked =
        set_prev-first null null fresh a v xs
          (Seg-write h null null fresh (some n) ((a, v) ∷ xs) is.chain new)

-- With room in the table and fresh memory, `add_process` returns PROC_OK and puts the new process
-- in front of the others, which it keeps in order, and changes no memory outside the list.
pub add_process-Added :
    {h : Heap} {t : ProcessTable} {xs : Cells} (fresh : Ptr) (pid : ℤ) (name : List ℕ)
    → IsTable h t xs
    → length xs < max_pt_entries
    → fresh ≢ null
    → h fresh ≡ none
    → length name < line_length
    → Returns (Added h fresh (running pid name) xs) (add_process fresh t pid name h)
add_process-Added {t} {xs = []} fresh pid name is room ne unused short =
    add_process-nil fresh pid name t ne short is
add_process-Added {t} {xs = (a, v) ∷ xs} fresh pid name is room ne unused short =
    add_process-cons fresh pid name t a v xs ne unused short is (omega arith)

-- Without memory, or with a name that does not fit, `add_process` is a fault.
add_process-null :
    (h : Heap) (t : ProcessTable) (pid : ℤ) (name : List ℕ)
    → t.num_procs < max_pt_entries
    → length name < line_length
    → add_process null t pid name h ≡ fault
unfolding add_process store
add_process-null h t pid name room short =
    rw (lt→ltb t.num_procs 32 room, lt→ltb (length name) 100 short) refl

add_process-long :
    (h : Heap) (t : ProcessTable) (fresh : Ptr) (pid : ℤ) (name : List ℕ)
    → t.num_procs < max_pt_entries
    → line_length ≤ length name
    → add_process fresh t pid name h ≡ fault
unfolding add_process
add_process-long h t fresh pid name room long =
    rw (lt→ltb t.num_procs 32 room, le→not-ltb (length name) 100 long) refl

-- Whatever `malloc` and the caller give: a fault, a full table, or the new process in front.
pub add_process-Sound :
    {h : Heap} {t : ProcessTable} {xs : Cells} (fresh : Ptr) (pid : ℤ) (name : List ℕ)
    → IsTable h t xs
    → h fresh ≡ none
    → Sound
        (λ (ret, t') g.
          ((t' ≡ t) × (g ≡ h))
          ⊎ ((length xs < max_pt_entries) × Added h fresh (running pid name) xs (ret, t') g))
        (add_process fresh t pid name h)
add_process-Sound {h} {t} {xs} fresh pid name is unused = elim (dec_lt (length xs) max_pt_entries) [
  | no full ↦
      rw (add_process-full h t fresh pid name (omega (arith, is.counted)))
        (sound (inl (refl, refl)))
  | yes room ↦ elim (dec_lt (length name) line_length) [
    | no long ↦
        rw (add_process-long h t fresh pid name (omega (arith, is.counted)) (omega arith)) faulty
    | yes short ↦ elim (Bool-cases (fresh == null)) [
      | inl e ↦
          rw (==→eq fresh null e, add_process-null h t pid name (omega (arith, is.counted)) short)
            faulty
      | inr e ↦
          weaken-Sound (λ (ret, t') g p. inr (room, p))
            (Returns-Sound
              (add_process-Added fresh pid name is room (ground (arith, e)) unused short))
    ]
  ]
]
