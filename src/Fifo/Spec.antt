-- ===== src/Fifo/Spec.antt =====
-- What fifo.c promises: a first-in first-out queue of at most `size` entries, oldest first.
use operating_systems_fa.Common.{
  Bool, List, Option, [], false, if◌then◌else◌, length, none, some, true, ℕ, ◌++◌, ◌==◌, ◌∷◌,
}

-- A client's calls, and what each returns.
pub data Op {ℓ} (A : Type ℓ) : Type ℓ where
  put : A → Op A
  get : Op A

pub data Reply {ℓ} (A : Type ℓ) : Type ℓ where
  stored : Bool → Reply A
  taken : Option A → Reply A

module _ {ℓ} {A : Type ℓ} where
  unfoldable pub push : ℕ → List A → A → Bool × List A
  push size q x = if length q == size then (false, q) else (true, q ++ x ∷ [])

  unfoldable pub pop : List A → Option A × List A
  pop [] = (none, [])
  pop (x ∷ q) = (some x, q)

  unfoldable pub run : ℕ → List A → List (Op A) → List (Reply A)
  run size q [] = []
  run size q (put x ∷ ops) = let (b, q') = push size q x in stored b ∷ run size q' ops
  run size q (get ∷ ops) = let (out, q') = pop q in taken out ∷ run size q' ops
