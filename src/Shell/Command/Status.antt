-- ===== src/Shell/Command/Status.antt =====
-- The assignment `proc->status = ...` of A1/command.c, on a process of a table.
use operating_systems_fa.Common.{
  ==→eq, Bool-cases, [], ap, arith, inl, inr, length, refl, some, suc, sym, ℕ, ℤ, ◌++◌, ◌==◌, ◌∙◌,
  ◌∷◌, ◌≡◌,
}
use operating_systems_fa.Common.State.{ok}
use operating_systems_fa.Shell.Heap.{Ptr, null, Info, Heap, write, set_status}
use operating_systems_fa.Shell.Heap.Writes.{load-ok, write_self}
use operating_systems_fa.Shell.Pcb.{ProcessTable}
use operating_systems_fa.Shell.Pcb.Cells.{
  Cells, has, first_or, last_or, node, Seg-write, TailAt, IsTable,
}
use operating_systems_fa.Shell.Pcb.Split.{Split, Seg-Split, Seg-join, last_or-append}
use operating_systems_fa.Shell.Pcb.Find.{first_with}

abbrev pub with_status : Info → ℕ → Info
with_status v s = record v { status = s }

-- The first address, the last address and the count are those of the table before.
first_or-content :
    (xs : Cells) (a : Ptr) (v w : Info) (ys : Cells) (n : Ptr)
    → first_or (xs ++ (a, v) ∷ ys) n ≡ first_or (xs ++ (a, w) ∷ ys) n
first_or-content [] a v w ys n = refl
first_or-content (x ∷ xs) a v w ys n = refl

TailAt-content :
    (t : Ptr) (xs : Cells) (a : Ptr) (v w : Info) (ys : Cells)
    → TailAt t (xs ++ (a, v) ∷ ys)
    → TailAt t (xs ++ (a, w) ∷ ys)
TailAt-content t [] a v w ys at = at
TailAt-content t ((b, u) ∷ xs) a v w ys at =
    at ∙ last_or-append b xs a v ys ∙ sym (last_or-append b xs a w ys)

length-content :
    (xs : Cells) (a : Ptr) (v w : Info) (ys : Cells)
    → length (xs ++ (a, v) ∷ ys) ≡ length (xs ++ (a, w) ∷ ys)
length-content [] a v w ys = refl
length-content (x ∷ xs) a v w ys = ap suc (length-content xs a v w ys)

-- A new status does not change which process a pid finds.
pub first_with-status :
    (pid : ℤ) (xs : Cells) (a : Ptr) (v : Info) (s : ℕ) (ys : Cells)
    → first_with pid (xs ++ (a, with_status v s) ∷ ys) ≡ first_with pid (xs ++ (a, v) ∷ ys)
unfolding first_with
first_with-status pid [] a v s ys = refl
first_with-status pid ((b, u) ∷ xs) a v s ys = rw (first_with-status pid xs a v s ys) refl

-- The node `a` holds `w` in place of `v` in the memory `g`, and all else is as in `h`.
pub IsTable-content :
    {h : Heap} {t : ProcessTable} (xs : Cells) (a : Ptr) (v w : Info) (ys : Cells)
    (parts : Split h null null xs a v ys)
    → IsTable h t (xs ++ (a, v) ∷ ys)
    → IsTable (write h a (some (node w (first_or ys null) (last_or null xs)))) t (xs ++ (a, w) ∷ ys)
IsTable-content {h} {t} xs a v w ys parts is = record {
  chain =
      Seg-join _ null null xs ((a, w) ∷ ys)
        (Seg-write h null a a _ xs parts.before parts.not_before)
        (
          parts.ne,
          write_self h a _,
          parts.not_after,
          Seg-write h a null a _ ys parts.after parts.not_after,
        )
        (λ b i. elim (Bool-cases (b == a)) [
          | inl e ↦
              absurd (ground (arith, parts.not_before, ap (λ (k : ℕ). has k xs) (==→eq b a e)))
          | inr e ↦ rw e (parts.apart b i)
        ]);
  head_at = is.head_at ∙ first_or-content xs a v w ys null;
  tail_at = TailAt-content t.tail xs a v w ys is.tail_at;
  counted = is.counted ∙ length-content xs a v w ys;
}

-- What the status of one process is set to, the list of the table shows there and nowhere else.
pub set_status-IsTable :
    {h : Heap} {t : ProcessTable} (xs : Cells) (a : Ptr) (v : Info) (s : ℕ) (ys : Cells)
    → IsTable h t (xs ++ (a, v) ∷ ys)
    → (g : Heap) × (set_status a s h ≡ ok tt g) × IsTable g t (xs ++ (a, with_status v s) ∷ ys)
unfolding set_status
set_status-IsTable {h} xs a v s ys is =
    let parts = Seg-Split h null null xs a v ys is.chain in
    (_, rw (load-ok h parts.ne parts.at) refl, IsTable-content xs a v (with_status v s) ys parts is)
