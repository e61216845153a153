-- ===== src/Prodcon/Startup.antt =====
-- `main` of A2/prodcon.c in front of its threads: the arguments and the name of the log file. A
-- failure of `gettimeofday` ends the program and is left out.
use operating_systems_fa.Common.{
  Bool, List, Option, [], ap, arith, if◌then◌else◌, length, length-append, negsuc, none, pos, refl,
  some, suc, true, ℕ, ℤ, ◌++◌, ◌<◌, ◌>>=◌, ◌∙◌, ◌∷◌, ◌≡◌,
}
use mathlib.Core.List.{append_assoc}
use operating_systems_fa.Common.Atoi.{atoi, atoi_int, atoi_int-pos}
use operating_systems_fa.Common.Decimal.{decimal_ℤ}
use operating_systems_fa.Common.Decimal.Read.{no_nul-decimal}
use operating_systems_fa.Common.Strcat.{strcat, strcat-c_string, strcat-none}
use operating_systems_fa.Common.Text.{codes, c_string, no_nul}

abbrev pub Bytes : Type 0
Bytes = List ℕ

-- The program ends with an error, or goes on with so many threads and this log file.
pub data Startup : Type 0 where
  exits : Startup
  runs : (nthreads : ℕ) → (filename : Bytes) → Startup

-- The name in `filename`. `memory` is what `malloc` returns: nothing is stored in it before the
-- first `strcat`. `id` is `argv[2]`, if it is there.
unfoldable pub log_name : (memory : Bytes) → (id : Option Bytes) → Option Bytes
log_name memory id = do
  named ← strcat (codes "prodcon.") memory
  numbered ← (elim id [
    | none ↦ some named
    | some arg ↦ (do more ← strcat (decimal_ℤ (atoi arg)) named; strcat (codes ".") more)
  ])
  whole ← strcat (codes "log") numbered
  c_string whole

abbrev pub second : List Bytes → Option Bytes
second [] = none
second (arg ∷ args) = some arg

-- `argv` includes the name of the program. A number of threads that is no `int` is a fault. For a negative number of threads the size of
-- `thread_stats` wraps round to more than `malloc` can give, and `memset` writes through NULL. For
-- no threads `consumers` and `ids` are arrays without elements, as gcc has them.
unfoldable pub startup :
    (fopen_works : Bool) → (memory : Bytes) → (argv : List Bytes) → Option Startup
unfolding log_name
startup fopen_works memory [] = some exits
startup fopen_works memory (program ∷ []) = some exits
startup fopen_works memory (program ∷ count ∷ args) = do
  nthreads ← atoi_int count
  elim nthreads [
    | negsuc n ↦ none
    | pos n ↦ (do
      filename ← log_name memory (second args)
      some (if fopen_works then runs n filename else exits))
  ]

-- The name that is meant.
unfoldable pub meant_name : Option Bytes → Bytes
meant_name none = codes "prodcon.log"
meant_name (some arg) = codes "prodcon." ++ (decimal_ℤ (atoi arg) ++ codes ".log")

no_nul-decimal_ℤ : (k : ℤ) → no_nul (decimal_ℤ k) ≡ true
unfolding decimal_ℤ
no_nul-decimal_ℤ (pos n) = no_nul-decimal n
no_nul-decimal_ℤ (negsuc n) = no_nul-decimal (suc n)

together :
    (junk number : Bytes)
    → (((junk ++ codes "prodcon.") ++ number) ++ codes ".") ++ codes "log"
      ≡ junk ++ (codes "prodcon." ++ (number ++ codes ".log"))
together junk number = simp append_assoc

-- The log file has the name that is meant behind whatever text `malloc` has left in the memory, if
-- both fit.
log_name-junk :
    (memory : Bytes) (junk : Bytes) (id : Option Bytes)
    → c_string memory ≡ some junk
    → length (junk ++ meant_name id) < length memory
    → log_name memory id ≡ some (junk ++ meant_name id)
unfolding log_name meant_name
log_name-junk memory junk none e room =
    let front = codes "prodcon." in
    let back = codes "log" in
    let (b, d, r, l) =
      strcat-c_string front memory refl e
        (omega (arith, room, length-append junk front, length-append junk (front ++ back))) in
    let (b', d', r', l') =
      strcat-c_string back b refl r
        (omega (arith, room, l, ap (λ t. length t) (append_assoc junk front back))) in
    rw (log_name, d, d') (r' ∙ ap some (append_assoc junk front back))
log_name-junk memory junk (some arg) e room =
    let number = decimal_ℤ (atoi arg) in
    let one = junk ++ codes "prodcon." in
    let two = one ++ number in
    let three = two ++ codes "." in
    let long = length-append three (codes "log") in
    let long2 = length-append two (codes ".") in
    let long1 = length-append one number in
    let same = ap (λ t. length t) (together junk number) in
    let (b, d, r, l) =
      strcat-c_string (codes "prodcon.") memory refl e
        (omega (arith, room, long, long2, long1, same)) in
    let (b', d', r', l') =
      strcat-c_string number b (no_nul-decimal_ℤ (atoi arg)) r
        (omega (arith, room, l, long, long2, same)) in
    let (b'', d'', r'', l'') =
      strcat-c_string (codes ".") b' refl r' (omega (arith, room, l, l', long, same)) in
    let (b3, d3, r3, l3) =
      strcat-c_string (codes "log") b'' refl r'' (omega (arith, room, l, l', l'', same)) in
    rw (log_name, d, d', d'', d3) (r3 ∙ ap some (together junk number))

-- Without a NUL in that memory the program is undefined, for every log file.
pub log_name-none :
    (memory : Bytes) (id : Option Bytes) → c_string memory ≡ none → log_name memory id ≡ none
unfolding log_name
log_name-none memory id e = rw (log_name, strcat-none (codes "prodcon.") memory e) refl

-- With at least one argument, a number of threads that is an `int` and not negative, and a file that can be
-- opened, the program goes on with this number of threads, and with a log file that has the name
-- that is meant behind whatever text `malloc` has left in the memory, if both fit.
pub startup-junk :
    (memory junk program count : Bytes) (args : List Bytes) (n : ℕ)
    → atoi count ≡ pos n
    → n < 2147483648
    → c_string memory ≡ some junk
    → length (junk ++ meant_name (second args)) < length memory
    → startup true memory (program ∷ count ∷ args)
      ≡ some (runs n (junk ++ meant_name (second args)))
unfolding startup
startup-junk memory junk program count args n threads small e room =
    rw (startup, atoi_int-pos count n threads small, log_name-junk memory junk (second args) e room)
      refl
