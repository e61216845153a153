-- ===== src/Common/State.antt =====
-- Programs over a state `S` that can go wrong: a fault is undefined behaviour of C, and a loop may
-- use up its fuel. A module brings the names in by itself, since `Common` passes on the `do` blocks
-- of `Option`.
use mathlib.Core.Path.{◌≡◌, refl, subst}
use mathlib.Core.Option.{Option, none, some}

module _ {ℓ κ} (S : Type ℓ) (A : Type κ) where
  pub data Outcome : Type (ℓ ⊔ κ) where
    fault : Outcome
    out_of_fuel : Outcome
    ok : A → S → Outcome

  abbrev pub Program : Type (ℓ ⊔ κ)
  Program = S → Outcome

module _ {ℓ κ} {S : Type ℓ} {A : Type κ} where
  abbrev pub pure : A → Program S A
  pure result state = ok result state

  -- What follows runs only behind a normal end.
  abbrev pub and_then {μ} : {B : Type μ} → Outcome S A → (A → Program S B) → Outcome S B
  and_then (ok result state) rest = rest result state
  and_then out_of_fuel rest = out_of_fuel
  and_then fault rest = fault

  infixl 5 ◌>>=◌
  abbrev pub ◌>>=◌ {μ} : {B : Type μ} → Program S A → (A → Program S B) → Program S B
  ◌>>=◌ first rest state = and_then (first state) rest

  infixl 5 ◌>>◌
  abbrev pub ◌>>◌ {μ} : {B : Type μ} → Program S A → Program S B → Program S B
  ◌>>◌ first second state = and_then (first state) (λ _. second)

  -- The run comes to a normal end, and `Post` holds of its result and of the state then.
  pub data Returns {μ} (Post : A → S → Type μ) : Outcome S A → Type (ℓ ⊔ κ ⊔ μ) where
    returns : {result : A} {state : S} → Post result state → Returns Post (ok result state)

  pub weaken_post {μ ν} :
      {Post : A → S → Type μ} {After : A → S → Type ν} {run : Outcome S A}
      → ((result : A) (state : S) → Post result state → After result state)
      → Returns Post run
      → Returns After run
  weaken_post rule (returns p) = returns (rule _ _ p)

  pub Returns-ok {μ} :
      {Post : A → S → Type μ} {run : Outcome S A}
      → Returns Post run
      → (result : A) × (state : S) × (run ≡ ok result state) × Post result state
  Returns-ok (returns p) = (_, _, refl, p)

  -- The run comes to a normal end with `Post`, or it is a fault; it does not run out of fuel.
  pub data Sound {μ} (Post : A → S → Type μ) : Outcome S A → Type (ℓ ⊔ κ ⊔ μ) where
    faulty : Sound Post fault
    sound : {result : A} {state : S} → Post result state → Sound Post (ok result state)

  pub Returns-Sound {μ} :
      {Post : A → S → Type μ} {run : Outcome S A} → Returns Post run → Sound Post run
  Returns-Sound (returns p) = sound p

  pub weaken-Sound {μ ν} :
      {Post : A → S → Type μ} {After : A → S → Type ν} {run : Outcome S A}
      → ((result : A) (state : S) → Post result state → After result state)
      → Sound Post run
      → Sound After run
  weaken-Sound rule faulty = faulty
  weaken-Sound rule (sound p) = sound (rule _ _ p)

  -- What `Post` says of an outcome; it says nothing of a fault.
  abbrev Said {μ} : (A → S → Type μ) → Outcome S A → Type μ
  Said Post (ok result state) = Post result state
  Said Post _ = Unit

  pub Sound-ok {μ} :
      {Post : A → S → Type μ} {run : Outcome S A} {result : A} {state : S}
      → Sound Post run
      → run ≡ ok result state
      → Post result state
  Sound-ok {Post} faulty e = subst (Said Post) e tt
  Sound-ok {Post} (sound p) e = subst (Said Post) e p

-- If the run comes to a normal end, `Post` holds there.
module _ {ℓ κ μ} {S : Type ℓ} {A : Type κ} where
  pub data Upon (Post : A → S → Type μ) : Outcome S A → Type (ℓ ⊔ κ ⊔ μ) where
    at_fault : Upon Post fault
    used_up : Upon Post out_of_fuel
    at_end : {result : A} {state : S} → Post result state → Upon Post (ok result state)

  pub Upon-and_then {ι} :
      {B : Type ι} {Post : A → S → Type μ} (run : Outcome S B) {rest : B → Program S A}
      → ((result : B) (state : S) → Upon Post (rest result state))
      → Upon Post (and_then run rest)
  Upon-and_then fault rule = at_fault
  Upon-and_then out_of_fuel rule = used_up
  Upon-and_then (ok result state) rule = rule result state

  pub Upon-option {ι} :
      {B : Type ι} {Post : A → S → Type μ} (value : Option B) (rest : B → Program S A) (state : S)
      → ((b : B) → value ≡ some b → Upon Post (rest b state))
      → Upon Post (elim value as (λ _. Program S A) [ none ↦ λ _. fault | some b ↦ rest b ] state)
  Upon-option none rest state rule = at_fault
  Upon-option (some b) rest state rule = rule b refl

module _ {ℓ κ ι μ ν} {S : Type ℓ} {A : Type κ} {B : Type ι} where
  pub Upon-bind :
      {Pre : A → S → Type μ} {Post : B → S → Type ν} {run : Outcome S A} {rest : A → Program S B}
      → Upon Pre run
      → ((result : A) (state : S) → Pre result state → Upon Post (rest result state))
      → Upon Post (and_then run rest)
  Upon-bind at_fault rule = at_fault
  Upon-bind used_up rule = used_up
  Upon-bind (at_end {result} {state} pre) rule = rule result state pre

-- A run that is sound, and what holds where it comes to an end.
module _ {ℓ κ μ ν ι} {S : Type ℓ} {A : Type κ} where
  pub Upon-Sound :
      {Post : A → S → Type μ} {Pre : A → S → Type ν} {After : A → S → Type ι} {run : Outcome S A}
      → ((result : A) (state : S) → Pre result state → After result state)
      → Sound Post run
      → Upon Pre run
      → Sound After run
  Upon-Sound rule faulty at_fault = faulty
  Upon-Sound rule (sound p) (at_end pre) = sound (rule _ _ pre)

-- A step that needs a value, and is a fault without one.
module _ {ℓ κ ι μ} {S : Type ℓ} {A : Type κ} {B : Type ι} where
  pub Sound-option :
      {Post : A → S → Type μ} (value : Option B) (rest : B → Program S A) (state : S)
      → ((b : B) → value ≡ some b → Sound Post (rest b state))
      → Sound Post (elim value as (λ _. Program S A) [ none ↦ λ _. fault | some b ↦ rest b ] state)
  Sound-option none rest state rule = faulty
  Sound-option (some b) rest state rule = rule b refl

module _ {ℓ κ ι μ ν} {S : Type ℓ} {A : Type κ} {B : Type ι} where
  pub Sound-and_then :
      {Post : A → S → Type μ} {After : B → S → Type ν} {run : Outcome S A} {rest : A → Program S B}
      → Sound Post run
      → ((result : A) (state : S) → Post result state → Sound After (rest result state))
      → Sound After (and_then run rest)
  Sound-and_then faulty rule = faulty
  Sound-and_then (sound p) rule = rule _ _ p
