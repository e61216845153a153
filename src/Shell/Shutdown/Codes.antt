-- ===== src/Shell/Shutdown/Codes.antt =====
-- The code of `exit_cb` of A1/command.c, where it comes back.
use operating_systems_fa.Common.{Bool-cases, List, arith, inl, inr, ◌<◌}
use operating_systems_fa.Common.State.{Upon, at_end, Upon-and_then}
use operating_systems_fa.Shell.Heap.{Heap}
use operating_systems_fa.Shell.Pcb.{ProcessTable}
use operating_systems_fa.Shell.Shutdown.{Ending, no_arg, wait_loop, exit_cb, returned, exited}
use operating_systems_fa.Shell.Command.{Bytes}
use operating_systems_fa.Shell.Command.Codes.{num_shell_errors}

abbrev pub CodedEnding : Ending → Heap → Type 0
CodedEnding (returned code) g = code < num_shell_errors
CodedEnding (exited events) g = Unit

pub exit_cb-Coded :
    (args : List Bytes) (t : ProcessTable) (h : Heap) → Upon CodedEnding (exit_cb args t h)
unfolding exit_cb
exit_cb-Coded args t h = elim (Bool-cases (no_arg args)) [
  | inl e ↦ rw e (Upon-and_then (wait_loop t.num_procs t.process_list h) (λ events g. at_end tt))
  | inr e ↦ rw e (at_end (omega arith))
]
