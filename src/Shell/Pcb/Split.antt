-- ===== src/Shell/Pcb/Split.antt =====
-- Chains that are taken apart at a node and joined without it.
use operating_systems_fa.Common.{
  ==→eq, Bool-cases, [], ap, arith, false, inl, inr, refl, some, sym, ◌++◌, ◌==◌, ◌∙◌, ◌∷◌, ◌≡◌,
  ◌≢◌,
}
use operating_systems_fa.Shell.Heap.{Ptr, null, Info, Heap}
use operating_systems_fa.Shell.Pcb.Cells.{
  Cells, has, first_or, last_or, node, Seg, Disjoint, has-append,
}

-- The chain `xs`, then the node `a`, then the chain `ys`.
pub record Split (h : Heap) (p n : Ptr) (xs : Cells) (a : Ptr) (v : Info) (ys : Cells)
    : Type 0 where
  pub before : Seg h p a xs
  pub ne : a ≢ null
  pub at : h a ≡ some (node v (first_or ys n) (last_or p xs))
  pub not_before : has a xs ≡ false
  pub not_after : has a ys ≡ false
  pub after : Seg h a n ys
  pub apart : Disjoint xs ys

first_or-append :
    (xs : Cells) (a : Ptr) (v : Info) (ys : Cells) (n : Ptr)
    → first_or (xs ++ (a, v) ∷ ys) n ≡ first_or xs a
first_or-append [] a v ys n = refl
first_or-append ((b, w) ∷ xs) a v ys n = refl

pub Seg-Split :
    (h : Heap) (p n : Ptr) (xs : Cells) (a : Ptr) (v : Info) (ys : Cells)
    → Seg h p n (xs ++ (a, v) ∷ ys)
    → Split h p n xs a v ys
Seg-Split h p n [] a v ys (ne, at, out, s) = record {
  before = tt;
  ne = ne;
  at = at;
  not_before = refl;
  not_after = out;
  after = s;
  apart = λ b i. cc;
}
Seg-Split h p n ((b, w) ∷ xs) a v ys (ne, at, out, s) =
    let rest = Seg-Split h b n xs a v ys s in
    let apart_b = ◌∙◌ (sym (has-append b xs ((a, v) ∷ ys))) out in
    record {
      before = (ne, rw (← first_or-append xs a v ys n) at, ground (arith, apart_b), rest.before);
      ne = rest.ne;
      at = rest.at;
      not_before = ground (arith, apart_b, rest.not_before);
      not_after = rest.not_after;
      after = rest.after;
      apart = λ d i. elim (Bool-cases (d == b)) [
        | inl e ↦ rw (==→eq d b e) (ground (arith, apart_b))
        | inr e ↦ rest.apart d (ground arith)
      ];
    }

pub Seg-join :
    (h : Heap) (p n : Ptr) (xs ys : Cells)
    → Seg h p (first_or ys n) xs
    → Seg h (last_or p xs) n ys
    → Disjoint xs ys
    → Seg h p n (xs ++ ys)
Seg-join h p n [] ys s t apart = t
Seg-join h p n ((a, v) ∷ xs) ys (ne, at, out, s) t apart = (
  ne,
  at ∙ ap (λ q. some (node v q p)) (sym (first_or-join xs ys n)),
  has-append a xs ys ∙ rw out (apart a (ground arith)),
  Seg-join h a n xs ys s t (λ d i. apart d (ground arith)),
)
  where
    first_or-join : (xs ys : Cells) (n : Ptr) → first_or (xs ++ ys) n ≡ first_or xs (first_or ys n)
    first_or-join [] ys n = refl
    first_or-join ((b, w) ∷ xs) ys n = refl

pub last_or-append :
    (p : Ptr) (xs : Cells) (b : Ptr) (w : Info) (ys : Cells)
    → last_or p (xs ++ (b, w) ∷ ys) ≡ last_or b ys
last_or-append p [] b w ys = refl
last_or-append p ((a, v) ∷ xs) b w ys = last_or-append a xs b w ys

-- An address outside a list of nodes is outside its parts.
pub outside :
    (b : Ptr) (xs : Cells) (a : Ptr) (v : Info) (ys : Cells)
    → has b (xs ++ (a, v) ∷ ys) ≡ false
    → (has b xs ≡ false) × ((b == a) ≡ false) × (has b ys ≡ false)
outside b xs a v ys o = let parts = ◌∙◌ (sym (has-append b xs ((a, v) ∷ ys))) o in ground arith

pub ne_head : (a x : Ptr) (u : Info) (xs : Cells) → has a ((x, u) ∷ xs) ≡ false → (x == a) ≡ false
ne_head a x u xs out = ground arith
