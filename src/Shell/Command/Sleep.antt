-- ===== src/Shell/Command/Sleep.antt =====
-- `sleep_cb` and `deep_sleep` of A1/command.c.
use operating_systems_fa.Common.{List, [], map, pos, refl, some, suc, ℕ, ℤ, ◌++◌, ◌∷◌, ◌≡◌}
use operating_systems_fa.Common.Atoi.{atoi}
use operating_systems_fa.Shell.Command.{Bytes, Event, sleep, cmd_ok, one_arg, deep_sleep, sleep_cb}

abbrev pub sleeps_of : List ℕ → List Event
sleeps_of rs = map (λ r. sleep (pos (suc r))) rs

deep_sleep-resumed :
    (rs rest : List ℕ) (seconds : ℤ)
    → deep_sleep (map suc rs ++ 0 ∷ rest) seconds ≡ some (sleep seconds ∷ sleeps_of rs)
unfolding deep_sleep
deep_sleep-resumed [] rest seconds = refl
deep_sleep-resumed (r ∷ rs) rest seconds = rw (deep_sleep-resumed rs rest (pos (suc r))) refl

-- With one argument, and signals that end the sleep with `r + 1` seconds left for each `r` of `rs`
-- before one lasts to its end: the command sleeps as long as asked, then each time for the
-- seconds that were left, and answers CMD_OK.
pub sleep_cb-resumed :
    (rs rest : List ℕ) (args : List Bytes) (a : Bytes)
    → one_arg args ≡ some a
    → sleep_cb (map suc rs ++ 0 ∷ rest) args ≡ some (cmd_ok, sleep (atoi a) ∷ sleeps_of rs)
unfolding sleep_cb
sleep_cb-resumed rs rest args a only = rw (sleep_cb, only, deep_sleep-resumed rs rest (atoi a)) refl
