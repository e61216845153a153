-- ===== src/Shell/Shutdown/Kept.antt =====
-- `exit_cb` of A1/command.c on any memory.
use operating_systems_fa.Common.{Bool-cases, List, inl, inr, refl, suc, zero, ℕ, ◌∙◌}
use operating_systems_fa.Common.State.{Sound, sound, Sound-and_then}
use operating_systems_fa.Shell.Heap.{Ptr, Heap}
use operating_systems_fa.Shell.Heap.Reads.{Leaves, load-Sound}
use operating_systems_fa.Shell.Pcb.{ProcessTable}
use operating_systems_fa.Shell.Shutdown.{no_arg, wait_loop, exit_cb}
use operating_systems_fa.Shell.Command.{Bytes}

wait_loop-Sound : (k : ℕ) (p : Ptr) (h : Heap) → Sound (Leaves h) (wait_loop k p h)
unfolding wait_loop
wait_loop-Sound zero p h = sound refl
wait_loop-Sound (suc k) p h =
    Sound-and_then (load-Sound p h)
      (λ c g e. Sound-and_then (wait_loop-Sound k c.next g) (λ events f e'. sound (e' ∙ e)))

pub exit_cb-Sound :
    (args : List Bytes) (t : ProcessTable) (h : Heap) → Sound (Leaves h) (exit_cb args t h)
unfolding exit_cb
exit_cb-Sound args t h = elim (Bool-cases (no_arg args)) [
  | inl e ↦
      rw e (
        Sound-and_then (wait_loop-Sound t.num_procs t.process_list h) (λ events g same. sound same))
  | inr e ↦ rw e (sound refl)
]
