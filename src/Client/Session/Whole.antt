-- ===== src/Client/Session/Whole.antt =====
-- A whole run of the loop of A3/client.c over lines with the command T.
use operating_systems_fa.Common.{
  List, [], arith, length, map, refl, some, sym, ℕ, ◌++◌, ◌+◌, ◌<◌, ◌∙◌, ◌∷◌, ◌≡◌,
}
use mathlib.Core.List.{append_assoc, append-nil}
use mathlib.Core.Path.{subst}
use operating_systems_fa.Common.Text.{put_over, length-put_over}
use operating_systems_fa.Client.{Bytes}
use operating_systems_fa.Client.Session.{Session, Answers, Line, close, session}
use operating_systems_fa.Client.Session.Done.{
  work_line, done_reply, send_line, recv_line, answering, after_reply, turn-done,
}

-- One transaction: its work, the number that the server has given it, and when.
pub record Job : Type 0 where
  pub work : ℕ
  pub count : ℕ
  pub sent_at : ℕ
  pub received_at : ℕ

-- The input of the job, and what the system answers.
abbrev pub job_turn : Job → Answers × Bytes
job_turn j = (answering j.sent_at j.received_at (done_reply j.count), work_line j.work)

pub record Served (room : ℕ) (j : Job) : Type 0 where
  pub small : j.work < 2147483648
  pub numbered : j.count < 2147483648
  pub fits : length (done_reply j.count) < room

abbrev pub AllServed : ℕ → List Job → Type 0
AllServed room [] = Unit
AllServed room (j ∷ js) = Served room j × AllServed room js

-- The lines of the output file, and the messages.
abbrev pub job_lines : List Job → List Line
job_lines [] = []
job_lines (j ∷ js) = send_line j.sent_at j.work ∷ recv_line j.received_at j.count ∷ job_lines js

abbrev pub job_messages : List Job → List Bytes
job_messages [] = []
job_messages (j ∷ js) = (work_line j.work ++ 0 ∷ []) ∷ job_messages js

-- Lines "T", each with a number that an `int` holds and each answered with a number that an `int` holds,
-- are all sent in their order; each has its two lines in the output file, and all are counted; and
-- the program comes to its end.
pub session-whole :
    (jobs : List Job) (s : Session)
    → AllServed (length s.recv_buff) jobs
    → (s' : Session) × (session (map job_turn jobs) s ≡ some (some (close s')))
      × (s'.work_count ≡ s.work_count + length jobs)
      × (s'.log ≡ s.log ++ job_lines jobs)
      × (s'.sent ≡ s.sent ++ job_messages jobs)
unfolding session
session-whole [] s served = (s, refl, omega arith, sym (append-nil s.log), sym (append-nil s.sent))
session-whole (j ∷ js) s (first, others) =
    let buff = put_over (done_reply j.count) s.recv_buff in
    let s1 = after_reply j.sent_at j.received_at j.work j.count buff s in
    let same : length buff ≡ length s.recv_buff =
      length-put_over (done_reply j.count) s.recv_buff in
    let done =
      turn-done j.sent_at j.received_at j.work j.count s first.small first.numbered first.fits in
    let (s', ends, counted, logged, sent) =
      session-whole js s1 (subst (λ n. AllServed n js) (sym same) others) in
    (
      s',
      rw done ends,
      omega (arith, counted),
      logged
          ∙ append_assoc (s.log ++ send_line j.sent_at j.work ∷ [])
              (recv_line j.received_at j.count ∷ []) (job_lines js)
          ∙ append_assoc s.log (send_line j.sent_at j.work ∷ [])
              (recv_line j.received_at j.count ∷ job_lines js),
      sent ∙ append_assoc s.sent ((work_line j.work ++ 0 ∷ []) ∷ []) (job_messages js),
    )
