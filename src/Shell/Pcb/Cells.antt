-- ===== src/Shell/Pcb/Cells.antt =====
-- What a process table stands for: the list of its nodes, and the chain of pointers through them.
use operating_systems_fa.Common.State.{ok}
use operating_systems_fa.Common.{
  ==→eq, Bool, Bool-cases, List, Option, [], ap, arith, false, inl, inr, length, none, refl, some,
  true, ℕ, ◌++◌, ◌==◌, ◌||◌, ◌∙◌, ◌∷◌, ◌≡◌, ◌≢◌,
}
use operating_systems_fa.Shell.Heap.{Ptr, null, Info, Process, Heap, write, set_next, set_prev}
use operating_systems_fa.Shell.Pcb.{ProcessTable}

-- Address and content of each node, from the head on.
abbrev pub Cells : Type 0
Cells = List (Ptr × Info)

abbrev pub has : Ptr → Cells → Bool
has a [] = false
has a ((b, _) ∷ xs) = (a == b) || has a xs

-- Where a chain begins that ends before `q`, and where one ends that begins behind `p`.
abbrev pub first_or : Cells → Ptr → Ptr
first_or [] q = q
first_or ((a, _) ∷ xs) q = a

abbrev pub last_or : Ptr → Cells → Ptr
last_or p [] = p
last_or p ((a, _) ∷ xs) = last_or a xs

abbrev pub node : Info → Ptr → Ptr → Process
node v next prev = record { info = v; next = next; prev = prev }

-- The nodes `xs` are allocated and distinct; forwards they lead to `next`, backwards to `prev`.
abbrev pub Seg : Heap → Ptr → Ptr → Cells → Type 0
Seg h prev next [] = Unit
Seg h prev next ((a, v) ∷ xs) =
    (a ≢ null)
    × (h a ≡ some (node v (first_or xs next) prev))
    × (has a xs ≡ false)
    × Seg h a next xs

-- `tail` is not read while the table is empty, and `main` does not set it.
abbrev pub TailAt : Ptr → Cells → Type 0
TailAt t [] = Unit
TailAt t ((a, _) ∷ xs) = t ≡ last_or a xs

pub record IsTable (h : Heap) (t : ProcessTable) (xs : Cells) : Type 0 where
  pub chain : Seg h null null xs
  pub head_at : t.process_list ≡ first_or xs null
  pub tail_at : TailAt t.tail xs
  pub counted : t.num_procs ≡ length xs

-- `g` differs from `h` at most at the addresses of `xs`.
abbrev pub SameOutside : Cells → Heap → Heap → Type 0
SameOutside xs h g = (b : Ptr) → has b xs ≡ false → g b ≡ h b

abbrev pub Disjoint : Cells → Cells → Type 0
Disjoint xs ys = (b : Ptr) → has b xs ≡ true → has b ys ≡ false

pub has-append : (b : Ptr) (xs ys : Cells) → has b (xs ++ ys) ≡ (has b xs || has b ys)
has-append b [] ys = refl
has-append b ((a, v) ∷ xs) ys = ground (arith, has-append b xs ys)

-- A chain survives any change that spares its nodes.
pub Seg-frame :
    {h g : Heap} (p n : Ptr) (xs : Cells)
    → Seg h p n xs
    → ((b : Ptr) → has b xs ≡ true → g b ≡ h b)
    → Seg g p n xs
Seg-frame p n [] s same = tt
Seg-frame p n ((a, v) ∷ xs) (ne, at, out, s) same =
    (ne, same a (ground arith) ∙ at, out, Seg-frame a n xs s (λ b i. same b (ground arith)))

pub Seg-write :
    (h : Heap) (p n a : Ptr) (c : Option Process) (xs : Cells)
    → Seg h p n xs
    → has a xs ≡ false
    → Seg (write h a c) p n xs
unfolding write
Seg-write h p n a c xs s out = Seg-frame p n xs s (λ b i. elim (Bool-cases (b == a)) [
  | inl e ↦ absurd (ground (arith, ap (λ (k : ℕ). has k xs) (==→eq b a e)))
  | inr e ↦ rw e
])

-- An address that holds no node is no node of the chain.
pub not-has_of_none :
    (h : Heap) (p n a : Ptr) (xs : Cells) → Seg h p n xs → h a ≡ none → has a xs ≡ false
not-has_of_none h p n a [] s e = refl
not-has_of_none h p n a ((b, v) ∷ xs) (ne, at, out, s) e =
    ground (arith, not-has_of_none h b n a xs s e)

-- `first->prev = q` on a chain, and `last->next = q`.
pub set_prev-first :
    {h : Heap} (p n q a : Ptr) (v : Info) (xs : Cells)
    → Seg h p n ((a, v) ∷ xs)
    → (g : Heap) × (set_prev a q h ≡ ok tt g)
      × Seg g q n ((a, v) ∷ xs)
      × SameOutside ((a, v) ∷ xs) h g
unfolding set_prev write
set_prev-first {h} p n q a v xs (ne, at, out, s) = (
  write h a (some (node v (first_or xs n) q)),
  ground arith,
  (ne, ground arith, out, Seg-write h a n a _ xs s out),
  λ b o. ground arith,
)

pub set_next-last :
    {h : Heap} (p n q a : Ptr) (v : Info) (xs : Cells)
    → Seg h p n ((a, v) ∷ xs)
    → (g : Heap) × (set_next (last_or a xs) q h ≡ ok tt g)
      × Seg g p q ((a, v) ∷ xs)
      × SameOutside ((a, v) ∷ xs) h g
unfolding set_next write
set_next-last {h} p n q a v [] (ne, at, out, s) =
    (write h a (some (node v q p)), ground arith, (ne, ground arith, out, tt), λ b o. ground arith)
set_next-last p n q a v ((b, w) ∷ xs) (ne, at, out, s) =
    let (g, e, s', same) = set_next-last a n q b w xs s in
    (g, e, (ne, same a out ∙ at, out, s'), λ d o. same d (ground arith))
