-- ===== src/Common/Family.antt =====
-- Families indexed by thread: a change at one index, and sums over the first `n`.
use Prim.Native.Nat.{ℕ, zero, suc, ◌+◌, ◌*◌, ◌<◌, ◌≤◌}
use mathlib.Core.Path.{◌≡◌, refl, ap, sym, subst}
use mathlib.Core.Logic.{inl, inr, ◌≢◌, ◌⊎◌}
use native.Mathlib.Decide.{ℕ_discrete}
use native.Mathlib.Omega.{arith}
use operating_systems_fa.Common.Tests.{==→eq, Bool-cases, if◌then◌else◌, ◌==◌}

abbrev pub change {ℓ} : {A : Type ℓ} → (ℕ → A) → ℕ → A → ℕ → A
change f i a j = if j == i then a else f j

module _ {ℓ} {A : Type ℓ} (w : A → ℕ) where
  unfoldable pub total : ℕ → (ℕ → A) → ℕ
  total zero f = 0
  total (suc n) f = w (f n) + total n f

  total-change_beyond :
      (n : ℕ) (f : ℕ → A) (i : ℕ) (a : A) → n ≤ i → total n (change f i a) ≡ total n f
  unfolding total
  total-change_beyond zero f i a h = refl
  total-change_beyond (suc n) f i a h = ground (arith, total-change_beyond n f i a)

  -- A change below `n` replaces one summand.
  pub total-change :
      (n : ℕ) (f : ℕ → A) (i : ℕ) (a : A)
      → i < n
      → total n (change f i a) + w (f i) ≡ total n f + w a
  unfolding total
  total-change zero f i a h = absurd (omega arith)
  total-change (suc n) f i a h = elim (Bool-cases (n == i)) [
    | inl e ↦
        let here : n ≡ i = ==→eq n i e in
        rw e
          (omega (arith, total-change_beyond n f i a (omega arith), ap (λ (k : ℕ). w (f k)) here))
    | inr e ↦ ground (arith, total-change n f i a)
  ]

  pub total-eq-zero : (n : ℕ) (f : ℕ → A) → ((i : ℕ) → i < n → w (f i) ≡ 0) → total n f ≡ 0
  unfolding total
  total-eq-zero zero f h = refl
  total-eq-zero (suc n) f h =
      omega (arith, h n (omega arith), total-eq-zero n f (λ i below. h i (omega arith)))

-- Two families that agree but at one index; and one that is at most `k` above another.
module _ {ℓ} {A : Type ℓ} (w : A → ℕ) where
  total-same :
      (n : ℕ) (f g : ℕ → A) → ((i : ℕ) → i < n → w (g i) ≡ w (f i)) → total w n g ≡ total w n f
  unfolding total
  total-same zero f g same = refl
  total-same (suc n) f g same =
      omega (arith, same n (omega arith), total-same n f g (λ i lt. same i (omega arith)))

  pub total-replace :
      (n : ℕ) (f g : ℕ → A) (i : ℕ)
      → i < n
      → ((j : ℕ) → j ≢ i → w (g j) ≡ w (f j))
      → total w n g + w (f i) ≡ total w n f + w (g i)
  unfolding total
  total-replace zero f g i lt same = absurd (omega arith)
  total-replace (suc n) f g i lt same = elim (Bool-cases (n == i)) [
    | inl e ↦
        let here : n ≡ i = ==→eq n i e in
        omega (
          arith,
          total-same n f g (λ j below. same j (λ at. omega arith)),
          ap (λ (k : ℕ). w (f k)) here,
          ap (λ (k : ℕ). w (g k)) here,
        )
    | inr e ↦ omega (arith, total-replace n f g i (ground arith) same, same n (λ at. ground arith))
  ]

  pub total-le :
      (n k : ℕ) (f g : ℕ → A)
      → ((i : ℕ) → w (g i) ≤ w (f i) + k)
      → total w n g ≤ total w n f + n * k
  unfolding total
  total-le zero k f g le = omega arith
  total-le (suc n) k f g le = omega (arith, le n, total-le n k f g le)

-- A choice for each index below `n`: the first way for one of them, or the second for all.
pub find_below {ℓ κ} :
    {P : ℕ → Type ℓ} {Q : ℕ → Type κ} (n : ℕ)
    → ((i : ℕ) → i < n → P i ⊎ Q i)
    → ((i : ℕ) × (i < n) × P i) ⊎ ((i : ℕ) → i < n → Q i)
find_below zero choose = inr (λ i lt. absurd (omega arith))
find_below {P = P} {Q = Q} (suc n) choose = elim (choose n (omega arith)) [
  | inl here ↦ inl (n, omega arith, here)
  | inr last ↦ elim (find_below {P = P} {Q = Q} n (λ i lt. choose i (omega arith))) [
    | inl (i, lt, there) ↦ inl (i, omega arith, there)
    | inr before ↦ inr (λ i lt. elim (ℕ_discrete i n) [
      | yes same ↦ subst Q (sym same) last
      | no apart ↦ before i (omega arith)
    ])
  ]
]
