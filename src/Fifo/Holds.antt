-- ===== src/Fifo/Holds.antt =====
-- The representation relation of fifo.c: the circular array `f` holds the queue `xs`. Every
-- operation keeps it, and under it no operation faults.
use operating_systems_fa.Common.{
  List, [], ap, arith, dec_lt, false, get_elem?, get_elem?-set_ne, get_elem?-set_self, length,
  length-append, length-set, refl, set, some, suc, sym, true, ℕ, ◌%◌, ◌++◌, ◌+◌, ◌-◌, ◌<◌, ◌==◌,
  ◌∙◌, ◌∷◌, ◌≡◌, ◌≢◌, ◌≤◌,
}
use native.Mathlib.Nat.{mod-add-mod, mod-eq_of_lt, mod-eq-sub-mod}
use operating_systems_fa.Fifo.{Fifo, fifo_init, fifo_empty, fifo_full, enqueue, advance}

-- From index `h` on, going round at `size`, the array holds `xs`.
abbrev pub Window {ℓ} : {A : Type ℓ} → List A → ℕ → ℕ → List A → Type ℓ
Window entries size h [] = Unit
Window entries size h (x ∷ xs) =
    (get_elem? entries h ≡ some x) × Window entries size ((h + 1) % size) xs

pub record Holds {ℓ} {A : Type ℓ} (f : Fifo A) (xs : List A) : Type ℓ where
  pub storage : length f.entries ≡ f.size
  pub head_in : f.head < f.size
  pub fits : length xs ≤ f.size
  pub counted : f.count ≡ length xs
  pub tail_at : f.tail ≡ (f.head + length xs) % f.size
  pub window : Window f.entries f.size f.head xs

-- Fewer than `size` steps round the array do not come back to the start.
add-mod-ne : (size h k : ℕ) → h < size → suc k < size → (h + suc k) % size ≢ h
add-mod-ne size h k hh hk = elim (dec_lt (h + suc k) size) [
  | yes p ↦ omega (arith, mod-eq_of_lt p)
  | no p ↦ omega (
    arith,
    mod-eq-sub-mod {n = h + suc k} {m = size} (omega arith),
    mod-eq_of_lt {n = h + suc k - size} {m = size} (omega arith),
  )
]

shift : (size h n : ℕ) → ((h + 1) % size + n) % size ≡ (h + suc n) % size
shift size h n = rw mod-add-mod (ap (λ k. k % size) (omega arith))

module _ {ℓ} {A : Type ℓ} where
  -- A write just past the window extends it by the entry written.
  Window-set :
      (entries : List A) (size t : ℕ) (x : A) (xs : List A) (h : ℕ)
      → length entries ≡ size
      → h < size
      → length xs < size
      → t ≡ (h + length xs) % size
      → Window entries size h xs
      → Window (set entries t x) size h (xs ++ x ∷ [])
  Window-set entries size t x [] h hs hh hn e w =
      (rw at_h (get_elem?-set_self entries h x (omega arith)), tt)
    where
      at_h : t ≡ h
      at_h = e ∙ ap (λ k. k % size) (omega arith) ∙ mod-eq_of_lt hh
  Window-set entries size t x (y ∷ xs) h hs hh hn e (at, w) = (
    get_elem?-set_ne entries x (λ p. add-mod-ne size h (length xs) hh hn (sym e ∙ p)) ∙ at,
    Window-set entries size t x xs ((h + 1) % size) hs (omega arith) (omega arith)
        (e ∙ sym (shift size h (length xs))) w,
  )

  -- The array after `enqueue` has stored `x`, and after `dequeue` has taken an entry.
  abbrev pub stored_in : Fifo A → A → Fifo A
  stored_in f x = record f {
    entries = set f.entries f.tail x;
    count = f.count + 1;
    tail = (f.tail + 1) % f.size;
  }

  abbrev pub advanced : Fifo A → Fifo A
  advanced f = record f { head = (f.head + 1) % f.size; count = f.count - 1 }

  -- A new queue is empty.
  pub init-Holds :
      (storage : List A) (size : ℕ)
      → 0 < size
      → length storage ≡ size
      → Holds (fifo_init storage size) []
  unfolding fifo_init
  init-Holds storage size h e = record {
    storage = e;
    head_in = h;
    fits = omega arith;
    counted = refl;
    tail_at = omega (arith, mod-eq_of_lt h);
    window = tt;
  }

  module _ {f : Fifo A} {xs : List A} (v : Holds f xs) where
    open v use {storage, head_in, fits, counted, tail_at, window}

    pub empty-test : fifo_empty f ≡ (length xs == 0)
    unfolding fifo_empty
    empty-test = rw counted

    pub full-test : fifo_full f ≡ (length xs == f.size)
    unfolding fifo_full
    full-test = rw counted

    tail_in : f.tail < f.size
    tail_in = omega arith

    pub enqueue-full : (x : A) → length xs ≡ f.size → enqueue x f ≡ some (false, f)
    unfolding enqueue
    enqueue-full x e = ground arith

    pub enqueue-room : (x : A) → length xs < f.size → enqueue x f ≡ some (true, stored_in f x)
    unfolding enqueue
    enqueue-room x h = ground (arith, tail_in)

    pub stored_in-Holds : (x : A) → length xs < f.size → Holds (stored_in f x) (xs ++ x ∷ [])
    stored_in-Holds x h = record {
      storage = length-set f.entries f.tail x ∙ storage;
      head_in = head_in;
      fits = omega (arith, length-append xs (x ∷ []));
      counted = omega (arith, length-append xs (x ∷ []));
      tail_at = rw (tail_at, mod-add-mod, length-append) (ap (λ k. k % f.size) (omega arith));
      window = Window-set f.entries f.size f.tail x xs f.head storage head_in h tail_at window;
    }

  module _ {f : Fifo A} {x : A} {xs : List A} (v : Holds f (x ∷ xs)) where
    open v use {storage, head_in, fits, counted, tail_at, window}

    pub advance-front : advance f ≡ some (x, advanced f)
    unfolding advance
    advance-front = rw window.0 (ground arith)

    pub advanced-Holds : Holds (advanced f) xs
    advanced-Holds = record {
      storage = storage;
      head_in = omega arith;
      fits = omega arith;
      counted = omega arith;
      tail_at = tail_at ∙ sym (shift f.size f.head (length xs));
      window = window.1;
    }
