-- ===== src/Fifo/Order.antt =====
-- First in, first out, for the queue of work values of A2/fifo.c.
use operating_systems_fa.Common.{
  List, Option, [], arith, length, length-append, refl, some, suc, zero, ℕ, ℤ, ◌++◌, ◌+◌, ◌<◌,
  ◌>>=◌, ◌∷◌, ◌≡◌, ◌≤◌,
}
use mathlib.Core.List.{append_assoc, append-nil}
use operating_systems_fa.Fifo.{Fifo, fifo_init, enqueue}
use operating_systems_fa.Fifo.Holds.{
  Holds, init-Holds, enqueue-room, stored_in-Holds, advanced-Holds,
}
use operating_systems_fa.Fifo.Works.{dequeue, dequeue-front}

-- A client that stores all of a list, and one that takes `n` entries.
pub fill : Fifo ℤ → List ℤ → Option (Fifo ℤ)
fill f [] = some f
fill f (x ∷ xs) = do (b, f') ← enqueue x f; fill f' xs

pub drain : ℕ → Fifo ℤ → Option (List ℤ)
drain zero f = some []
drain (suc n) f = do (x, f') ← dequeue f; xs ← drain n f'; some (x ∷ xs)

fill-Holds :
    (xs : List ℤ) {f : Fifo ℤ} {ys : List ℤ}
    → Holds f ys
    → length ys + length xs ≤ f.size
    → (g : Fifo ℤ) × (fill f xs ≡ some g) × Holds g (ys ++ xs)
unfolding fill
fill-Holds [] {f} v h = (f, refl, rw append-nil v)
fill-Holds (x ∷ xs) {f} {ys} v h =
    let room : length ys < f.size = omega arith in
    let (g, e, w) =
      fill-Holds xs (stored_in-Holds v x room) (omega (arith, length-append ys (x ∷ []))) in
    (g, rw (enqueue-room v x room) e, rw append_assoc at w)

drain-all : (xs : List ℤ) {f : Fifo ℤ} → Holds f xs → drain (length xs) f ≡ some xs
unfolding drain
drain-all [] v = refl
drain-all (x ∷ xs) v = rw (dequeue-front v, drain-all xs (advanced-Holds v))

-- What is stored in a new queue with room for it comes out again, whole and in the same order; the
-- content of the allocated storage does not matter.
pub drain-fill :
    (storage : List ℤ) (size : ℕ) (xs : List ℤ)
    → 0 < size
    → length storage ≡ size
    → length xs ≤ size
    → (fill (fifo_init storage size) xs >>= drain (length xs)) ≡ some xs
unfolding fifo_init
drain-fill storage size xs h e room =
    let (g, filled, w) = fill-Holds xs (init-Holds storage size h e) (omega arith) in
    rw filled (drain-all xs w)
