-- ===== src/Tands.antt =====
-- A2/tands.c, of which A3/tands.c is a copy: `Trans`, which burns time, and `Sleep`.
mod Examples
use operating_systems_fa.Common.{
  Bool, List, Option, [], arith, false, if◌then◌else◌, leb, ltb, mod_checked, negsuc, none, pos,
  pos_part, refl, some, suc, true, zero, ℕ, ℤ, ◌%◌, ◌&&◌, ◌*◌, ◌+◌, ◌<◌, ◌==◌, ◌>>=◌, ◌^◌, ◌∷◌, ◌≡◌,
  ◌≤◌,
}
use Prim.Native.Nat.{bit_xor}

-- `struct timespec`.
pub record Timespec : Type 0 where
  pub tv_sec : ℕ
  pub tv_nsec : ℕ

-- The rounds that are left of the loop, from `i` on. The sum `j` is a `long`: at most
-- 2^31 terms below 2^31 do not overflow it. `none` is a division by zero.
trans_loop : ℕ → (i n j : ℕ) → Option ℕ
trans_loop zero i n j = some j
trans_loop (suc rounds) i n j = do
  r ← mod_checked (i + 1) (i + n)
  trans_loop rounds (i + 1) n (j + bit_xor i r)

-- Whether `n * 100000` is an `int`.
abbrev pub fits : ℤ → Bool
fits (pos n) = ltb (n * 100000) (2 ^ 31)
fits (negsuc n) = leb ((n + 1) * 100000) (2 ^ 31)

-- `Trans`: the new value of `TransSave`, or `none` where `n * 100000` overflows, which is
-- undefined. A negative bound leaves the loop without a round, and `& 0xff` keeps the low byte of
-- the `int` that the sum is cut to.
pub trans : ℤ → ℕ → Option ℕ
unfolding trans_loop
trans n trans_save =
    if fits n
    then (do
      j ← trans_loop (pos_part n * 100000) 0 (pos_part n) 0
      some ((trans_save + j) % 2 ^ 32 % 256))
    else none

abbrev in_range : ℤ → Bool
in_range (pos n) = ltb 0 n && ltb n 100
in_range (negsuc n) = false

-- `Sleep`: what is passed to `nanosleep`.
pub sleep : ℤ → ℕ → Timespec
sleep n trans_save =
    let k = (if in_range n then pos_part n else 1) in
    record { tv_sec = 0; tv_nsec = k * 10000000 + trans_save }

trans_loop-total : (rounds i n j : ℕ) → 0 < n → (k : ℕ) × (trans_loop rounds i n j ≡ some k)
unfolding trans_loop
trans_loop-total zero i n j pos_n = (j, refl)
trans_loop-total (suc rounds) i n j pos_n =
    let ne : (i + n == 0) ≡ false = ground arith in
    rw ne (trans_loop-total rounds (i + 1) n (j + bit_xor i ((i + 1) % (i + n))) pos_n)

-- Without a positive argument there is no round.
trans_rounds-total :
    (n : ℤ) → (k : ℕ) × (trans_loop (pos_part n * 100000) 0 (pos_part n) 0 ≡ some k)
unfolding trans_loop
trans_rounds-total (pos zero) = (0, refl)
trans_rounds-total (pos (suc n)) = trans_loop-total (suc n * 100000) 0 (suc n) 0 (omega arith)
trans_rounds-total (negsuc n) = (0, refl)

-- For every argument in range `Trans` comes to an end without a division by zero, and leaves a
-- byte in `TransSave`.
pub trans-total :
    (n : ℤ) (trans_save : ℕ) → fits n ≡ true → (s : ℕ) × (trans n trans_save ≡ some s) × (s < 256)
unfolding trans
trans-total n trans_save ok =
    let (j, e) = trans_rounds-total n in ((trans_save + j) % 2 ^ 32 % 256, rw (ok, e), omega arith)

-- The calls of a thread.
pub data Call : Type 0 where
  working sleeping : ℤ → Call

-- The times that the calls pass to `nanosleep`, from a value of `TransSave` on.
pub sleeps : ℕ → List Call → Option (List Timespec)
sleeps trans_save [] = some []
sleeps trans_save (working n ∷ calls) = do s ← trans n trans_save; sleeps s calls
sleeps trans_save (sleeping n ∷ calls) = do
  rest ← sleeps trans_save calls
  some (sleep n trans_save ∷ rest)

-- What POSIX asks of `nanosleep`'s argument; and the program's own bounds, 10 ms and 1 s.
abbrev pub IsValid : Timespec → Type 0
IsValid t = (t.tv_sec ≡ 0) × (10000000 ≤ t.tv_nsec) × (t.tv_nsec < 1000000000)

abbrev pub AllValid : List Timespec → Type 0
AllValid [] = Unit
AllValid (t ∷ ts) = IsValid t × AllValid ts

sleep-IsValid : (n : ℤ) (trans_save : ℕ) → trans_save < 256 → IsValid (sleep n trans_save)
unfolding sleep
sleep-IsValid n trans_save h = ground arith

-- `Trans` is only called with arguments that it can multiply by 100000.
abbrev pub AllFit : List Call → Type 0
AllFit [] = Unit
AllFit (working n ∷ calls) = (fits n ≡ true) × AllFit calls
AllFit (sleeping n ∷ calls) = AllFit calls

-- However calls of `Trans`, in the range of `int`, and of `Sleep`, with whatever arguments,
-- follow one another, none of them is undefined, and each `Sleep` asks for a valid time of at
-- least 10 ms and less than a second.
pub sleeps-AllValid :
    (trans_save : ℕ) (calls : List Call)
    → AllFit calls
    → trans_save < 256
    → (ts : List Timespec) × (sleeps trans_save calls ≡ some ts) × AllValid ts
unfolding sleeps
sleeps-AllValid trans_save [] fit h = ([], refl, tt)
sleeps-AllValid trans_save (working n ∷ calls) fit h =
    let (s, e, byte) = trans-total n trans_save fit.0 in rw e (sleeps-AllValid s calls fit.1 byte)
sleeps-AllValid trans_save (sleeping n ∷ calls) fit h =
    let (ts, e, valid) = sleeps-AllValid trans_save calls fit h in
    (sleep n trans_save ∷ ts, rw e, (sleep-IsValid n trans_save h, valid))
