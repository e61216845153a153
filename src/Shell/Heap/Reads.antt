-- ===== src/Shell/Heap/Reads.antt =====
-- Commands of A1/command.c that only read the process table.
use operating_systems_fa.Common.{Bool-cases, inl, inr, none, refl, some, ◌==◌, ◌≡◌}
use operating_systems_fa.Common.State.{ok, fault, Sound, faulty, sound}
use operating_systems_fa.Shell.Heap.{Ptr, null, Heap, load}

-- The memory is as it was.
abbrev pub Leaves : {A : Type 0} → Heap → A → Heap → Type 0
Leaves h a g = g ≡ h

pub load-Sound : (p : Ptr) (h : Heap) → Sound (Leaves h) (load p h)
unfolding load
load-Sound p h = elim (Bool-cases (p == null)) [
  | inl e ↦ rw e faulty
  | inr e ↦
      rw e
        (elim (h p)
          as (λ content. Sound (Leaves h) (elim content [ none ↦ fault | some c ↦ ok c h ])) [
            | none ↦ faulty
            | some c ↦ sound refl
          ])
]
