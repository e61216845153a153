-- ===== src/Tands/Examples.antt =====
-- Tests of tands.c, and its theorem at a few calls.
use operating_systems_fa.Common.{List, [], arith, negsuc, pos, refl, some, ◌∷◌, ◌≡◌}
use operating_systems_fa.Tands.{
  Timespec, working, sleeping, sleep, sleeps, AllValid, sleeps-AllValid,
}

-- 99 units are 0.99 s; 100 is out of range and stands for 1.
sleep-examples :
    (sleep (pos 99) 255 ≡ record { tv_sec = 0; tv_nsec = 990000255 })
    × (sleep (pos 100) 0 ≡ record { tv_sec = 0; tv_nsec = 10000000 })
    × (sleep (negsuc 4) 0 ≡ record { tv_sec = 0; tv_nsec = 10000000 })
unfolding sleep
sleep-examples = (refl, refl, refl)

sleeps-AllValid_example :
    (ts : List Timespec) × (sleeps 0 (sleeping (pos 7) ∷ working (pos 2) ∷ sleeping (pos 99) ∷ [])
      ≡ some ts)
    × AllValid ts
sleeps-AllValid_example =
    sleeps-AllValid 0 (sleeping (pos 7) ∷ working (pos 2) ∷ sleeping (pos 99) ∷ []) (refl, tt)
      (omega arith)
