-- ===== src/Shell/Pcb/Remove.antt =====
-- `remove_process` of A1/pcb.c.
use operating_systems_fa.Common.State.{ok, Returns, returns}
use operating_systems_fa.Common.{
  ==→eq, Bool-cases, [], ap, arith, eq→==, false, inl, inr, length, length-append, none, refl, some,
  sym, ℕ, ◌++◌, ◌-◌, ◌==◌, ◌∙◌, ◌∷◌, ◌≡◌,
}
use operating_systems_fa.Shell.Heap.{Ptr, null, Info, Process, Heap, write}
use mathlib.Core.List.{append-nil}
use operating_systems_fa.Shell.Heap.Writes.{
  not_null, write_other, load-ok, set_next-ok, set_prev-ok, free-ok, wiped, wiped_self, wiped_other,
  write_self,
}
use operating_systems_fa.Shell.Pcb.{ProcessTable, remove_process, unlink_head, unlink_inner}
use operating_systems_fa.Shell.Pcb.Cells.{
  Cells, has, first_or, last_or, node, Seg, IsTable, TailAt, SameOutside, Seg-frame, Seg-write,
  set_prev-first, set_next-last,
}
use operating_systems_fa.Shell.Pcb.Split.{
  Split, Seg-Split, Seg-join, last_or-append, outside, ne_head,
}

-- The table holds the processes before and behind `a`, the node of `a` is freed, and no memory
-- outside the list has changed.
abbrev pub Removed : Heap → Cells → Ptr → Info → Cells → ProcessTable → Heap → Type 0
Removed h xs a v ys t g =
    IsTable g t (xs ++ ys) × (g a ≡ none) × SameOutside (xs ++ (a, v) ∷ ys) h g

-- An empty table is left as it is, and so is the memory.
pub remove_process-empty :
    (h : Heap) (t : ProcessTable) (a : Ptr) → t.process_list ≡ null → remove_process t a h ≡ ok t h
unfolding remove_process
remove_process-empty h t a e = rw e

-- The memory between the relinking of the neighbours of `a` and the release of `a`.
record Relinked (h g : Heap) (xs : Cells) (a : Ptr) (v : Info) (ys : Cells) : Type 0 where
  before : Seg g null (first_or ys null) xs
  after : Seg g (last_or null xs) null ys
  at : g a ≡ some (node v (first_or ys null) (last_or null xs))
  same : SameOutside (xs ++ (a, v) ∷ ys) h g

module _ {h g : Heap} {xs : Cells} {a : Ptr} {v : Info} {ys : Cells}
    (sp : Split h null null xs a v ys) (re : Relinked h g xs a v ys) where
  open re use {before, after, same}

  -- Changes of `a` alone leave the chain without `a`.
  released : (k : Heap) → SameOutside ((a, v) ∷ []) g k → Seg k null null (xs ++ ys)
  released k only =
      Seg-join k null null xs ys
        (Seg-frame null (first_or ys null) xs before λ b i. only b (elim (Bool-cases (b == a)) [
          | inl e ↦ absurd (ground (arith, sp.not_before, ap (λ (q : ℕ). has q xs) (==→eq b a e)))
          | inr e ↦ rw e
        ]))
        (Seg-frame (last_or null xs) null ys after λ b i. only b (elim (Bool-cases (b == a)) [
          | inl e ↦ absurd (ground (arith, sp.not_after, ap (λ (q : ℕ). has q ys) (==→eq b a e)))
          | inr e ↦ rw e
        ]))
        sp.apart

  same_released : (k : Heap) → SameOutside ((a, v) ∷ []) g k → SameOutside (xs ++ (a, v) ∷ ys) h k
  same_released k only b o = only b (rw (outside b xs a v ys o).1) ∙ same b o

-- The chain behind `a` is intact after changes of the nodes before `a`.
after-frame :
    {h g : Heap} {p n : Ptr} {xs : Cells} {a : Ptr} {v : Info} {ys : Cells}
    → Split h p n xs a v ys
    → SameOutside xs h g
    → Seg g a n ys
after-frame {n} {a} {ys} sp same =
    Seg-frame a n ys sp.after λ b i. same b (ground (arith, sp.apart b))

-- The node of `a` as the removal leaves it before `free`.
abbrev isolated : Info → Process
isolated v = node v null null

-- What `unlink_inner` does, when it comes to an end: `g` is the memory after the relinking.
record Unlinked (h g : Heap) (t t' : ProcessTable) (xs : Cells) (a : Ptr) (v : Info) (ys : Cells)
    : Type 0 where
  run :
      unlink_inner t a h
      ≡ ok t' (write (write g a (some (node v null (last_or null xs)))) a (some (isolated v)))
  relinked : Relinked h g xs a v ys
  same_head : t'.process_list ≡ t.process_list
  same_count : t'.num_procs ≡ t.num_procs
  tail_at : TailAt t'.tail (xs ++ ys)

module _ {h : Heap} {t : ProcessTable} {x : Ptr} {u : Info} {xs : Cells} {a : Ptr} {v : Info} where
  unlink_inner-last :
      Split h null null ((x, u) ∷ xs) a v []
      → (g : Heap) × Unlinked h g t (record t { tail = last_or x xs }) ((x, u) ∷ xs) a v []
  unfolding unlink_inner
  unlink_inner-last sp =
      let (g, e, s, same) = set_next-last null a null x u xs sp.before in
      let at : g a ≡ some (node v null (last_or x xs)) = same a sp.not_before ∙ sp.at in
      (
        g,
        record {
          run = rw (
            load-ok h sp.ne sp.at,
            e,
            load-ok g sp.ne at,
            set_next-ok g sp.ne at null,
            set_prev-ok _ sp.ne (write_self g a _) null,
          );
          relinked = record {
            before = s;
            after = tt;
            at = at;
            same = λ b o. same b (outside b ((x, u) ∷ xs) a v [] o).0;
          };
          same_head = refl;
          same_count = refl;
          tail_at = rw append-nil;
        },
      )

  unlink_inner-middle :
      (b : Ptr) (w : Info) (ys : Cells)
      → TailAt t.tail ((x, u) ∷ xs ++ (a, v) ∷ (b, w) ∷ ys)
      → Split h null null ((x, u) ∷ xs) a v ((b, w) ∷ ys)
      → (g : Heap) × Unlinked h g t t ((x, u) ∷ xs) a v ((b, w) ∷ ys)
  unfolding unlink_inner
  unlink_inner-middle b w ys tail sp =
      let (g, e, s, same) = set_next-last null a b x u xs sp.before in
      let at : g a ≡ some (node v b (last_or x xs)) = same a sp.not_before ∙ sp.at in
      let (k, e', s', same') = set_prev-first a null (last_or x xs) b w ys (after-frame sp same) in
      let at' : k a ≡ some (node v b (last_or x xs)) = same' a sp.not_after ∙ at in
      (
        k,
        record {
          run = rw (
            load-ok h sp.ne sp.at,
            e,
            load-ok g sp.ne at,
            not_null b sp.after.0,
            e',
            set_next-ok k sp.ne at' null,
            set_prev-ok _ sp.ne (write_self k a _) null,
          );
          relinked = record {
            before = Seg-frame null b ((x, u) ∷ xs) s λ d i. same' d (sp.apart d i);
            after = s';
            at = at';
            same = λ d o.
                let (not_front, _, not_back) = outside d ((x, u) ∷ xs) a v ((b, w) ∷ ys) o in
                same' d not_back ∙ same d not_front;
          };
          same_head = refl;
          same_count = refl;
          tail_at = tail ∙ last_or-append x xs a v ((b, w) ∷ ys) ∙ sym (last_or-append x xs b w ys);
        },
      )

-- The removal of a process behind the head: the node is freed, and the count goes down.
remove_inner :
    {h g : Heap} {t t' : ProcessTable} {x : Ptr} {u : Info} {xs : Cells} {a : Ptr} {v : Info}
    {ys : Cells}
    → IsTable h t ((x, u) ∷ xs ++ (a, v) ∷ ys)
    → Split h null null ((x, u) ∷ xs) a v ys
    → Unlinked h g t t' ((x, u) ∷ xs) a v ys
    → Returns (Removed h ((x, u) ∷ xs) a v ys) (remove_process t a h)
unfolding remove_process
remove_inner {g} {t} {t'} {x} {u} {xs} {a} {v} {ys} is sp un =
    rw (listed, not_head, un.run, free-ok _ sp.ne (write_self _ a (some (isolated v))))
      (returns (
        record {
          chain = released sp un.relinked final only;
          head_at = un.same_head ∙ is.head_at;
          tail_at = un.tail_at;
          counted = fewer;
        },
        wiped_self g a _ _,
        same_released sp un.relinked final only,
      ))
  where
    listed : (t.process_list == null) ≡ false
    listed = rw is.head_at (not_null x is.chain.0)

    not_head : (t.process_list == a) ≡ false
    not_head = rw is.head_at (ne_head a x u xs sp.not_before)

    final : Heap
    final = wiped g a (node v null (last_or x xs)) (isolated v)

    only : SameOutside ((a, v) ∷ []) g final
    only b o = wiped_other g a b _ _ (ground arith)

    fewer : t'.num_procs - 1 ≡ length ((x, u) ∷ xs ++ ys)
    fewer =
        omega
          (arith, un.same_count, is.counted, length-append xs ((a, v) ∷ ys), length-append xs ys)

-- The removal of the head.
remove_head :
    {h : Heap} {t : ProcessTable} (a : Ptr) (v : Info) (ys : Cells)
    → IsTable h t ((a, v) ∷ ys)
    → Returns (Removed h [] a v ys) (remove_process t a h)
unfolding remove_process unlink_head
remove_head {h} {t} a v [] is =
    rw
      (
        is.head_at,
        not_null a is.chain.0,
        eq→== a a refl,
        load-ok h is.chain.0 is.chain.1,
        free-ok h is.chain.0 is.chain.1,
      )
      (returns (
        record { chain = tt; head_at = refl; tail_at = tt; counted = omega arith },
        write_self h a none,
        λ b o. write_other h a b none (ground arith),
      ))
remove_head {h} {t} a v ((b, w) ∷ ys) is =
    let (ne, at, out, s) = is.chain in
    let (g, e, s', same) = set_prev-first a null null b w ys s in
    let at' : g a ≡ some (node v b null) = same a out ∙ at in
    rw
      (
        is.head_at,
        not_null a ne,
        eq→== a a refl,
        load-ok h ne at,
        not_null b s.0,
        e,
        free-ok g ne at',
      )
      (returns (
        record {
          chain = Seg-write g null null a none ((b, w) ∷ ys) s' out;
          head_at = refl;
          tail_at = is.tail_at;
          counted = omega arith;
        },
        write_self g a none,
        λ d o. write_other g a d none (ground arith) ∙ same d (ground arith),
      ))

-- `remove_process` of any process of a table returns without a fault: the table keeps the other
-- processes in order, with head, tail, both directions of links and the count right, the node is
-- freed, and no memory outside the list has changed.
pub remove_process-Removed :
    {h : Heap} {t : ProcessTable} (xs : Cells) (a : Ptr) (v : Info) (ys : Cells)
    → IsTable h t (xs ++ (a, v) ∷ ys)
    → Returns (Removed h xs a v ys) (remove_process t a h)
remove_process-Removed [] a v ys is = remove_head a v ys is
remove_process-Removed {h} ((x, u) ∷ xs) a v [] is =
    let sp = Seg-Split h null null ((x, u) ∷ xs) a v [] is.chain in
    remove_inner is sp (unlink_inner-last sp).1
remove_process-Removed {h} ((x, u) ∷ xs) a v ((b, w) ∷ ys) is =
    let sp = Seg-Split h null null ((x, u) ∷ xs) a v ((b, w) ∷ ys) is.chain in
    remove_inner is sp (unlink_inner-middle b w ys is.tail_at sp).1
