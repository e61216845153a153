-- ===== src/Shell/Command/Examples.antt =====
-- Tests of the commands, and their theorems at a table of two processes: `1234` is running and
-- `77` is suspended.
use operating_systems_fa.Common.{[], arith, none, pos, refl, some, true, ◌++◌, ◌∷◌, ◌≡◌}
use operating_systems_fa.Common.State.{ok, fault, Returns}
use operating_systems_fa.Common.Atoi.{atoi}
use operating_systems_fa.Shell.Heap.{null, Info, Heap, write}
use operating_systems_fa.Shell.Pcb.{ProcessTable}
use operating_systems_fa.Shell.Pcb.Cells.{node, IsTable}
use operating_systems_fa.Shell.Pcb.Find.{first_with}
use operating_systems_fa.Shell.Command.{
  Bytes, Answers, sleep, cmd_ok, cmd_proc_not_fnd, one_arg, deep_sleep, cont_text, stop_text,
  kill_cb, resume_cb, suspend_cb, sleep_cb,
}
use operating_systems_fa.Shell.Command.Signals.{sent, Names, suspend_resume, suspend_resume-IsTable}
use operating_systems_fa.Shell.Command.Refusals.{unknown-process}

abbrev make : Info
make = record { pid = pos 1234; status = b'R'; name = [] }

abbrev vim : Info
vim = record { pid = pos 77; status = b'S'; name = [] }

abbrev memory : Heap
memory = write (write (λ _. none) 8 (some (node vim null 16))) 16 (some (node make 8 null))

abbrev table : ProcessTable
table = record { process_list = 16; tail = 8; num_procs = 2 }

table-IsTable : IsTable memory table ((16, make) ∷ (8, vim) ∷ [])
unfolding write
table-IsTable = record {
  chain = (omega arith, refl, refl, (omega arith, refl, refl, tt));
  head_at = refl;
  tail_at = refl;
  counted = refl;
}

abbrev working : Answers
working = record {
  popen_works = true;
  pclose_works = true;
  kill_works = true;
  waitpid_works = true;
}

abbrev text_1234 : Bytes
text_1234 = b'1' ∷ b'2' ∷ b'3' ∷ b'4' ∷ []

abbrev text_77 : Bytes
text_77 = b'7' ∷ b'7' ∷ []

abbrev ampersand : Bytes
ampersand = b'&' ∷ []

one_arg-examples :
    (one_arg (text_77 ∷ ampersand ∷ []) ≡ some text_77)
    × (one_arg (text_77 ∷ text_77 ∷ []) ≡ none)
    × (one_arg (text_77 ∷ ampersand ∷ ampersand ∷ []) ≡ none)
unfolding one_arg
one_arg-examples = (refl, refl, refl)

-- A sleep of 77 seconds that a signal ends with 5 seconds left.
sleep_cb-interrupted :
    sleep_cb (5 ∷ 0 ∷ []) (text_77 ∷ []) ≡ some (cmd_ok, sleep (pos 77) ∷ sleep (pos 5) ∷ [])
unfolding sleep_cb deep_sleep one_arg atoi
sleep_cb-interrupted = refl

Names-make : Names memory table (text_1234 ∷ []) text_1234 stop_text [] 16 make ((8, vim) ∷ [])
unfolding first_with atoi one_arg
Names-make = record { is_table = table-IsTable; only_arg = refl; found = refl; fits = omega arith }

suspend_resume-IsTable_example :
    Returns
      (λ r g.
        (r ≡ (sent working (stop_text ++ text_1234), sent working (cont_text ++ text_1234)))
        × IsTable g table ((16, make) ∷ (8, vim) ∷ []))
      (suspend_resume working (text_1234 ∷ []) table memory)
suspend_resume-IsTable_example = suspend_resume-IsTable working Names-make refl refl

unknown-process_example :
    (suspend_cb working (ampersand ∷ []) table memory ≡ ok (cmd_proc_not_fnd, []) memory)
    × (resume_cb working (ampersand ∷ []) table memory ≡ ok (cmd_proc_not_fnd, []) memory)
    × (kill_cb working (ampersand ∷ []) table memory ≡ fault)
unfolding first_with atoi one_arg
unknown-process_example =
    unknown-process (ampersand ∷ []) working ((16, make) ∷ (8, vim) ∷ []) table-IsTable refl refl
