-- ===== src/Client/Session/Done.antt =====
-- A transaction as A3/client.c sees it.
use operating_systems_fa.Common.{
  [], ap, arith, get_elem?, length, length-append, pos, refl, some, true, ℕ, ◌++◌, ◌+◌, ◌<◌, ◌∙◌,
  ◌∷◌, ◌≡◌,
}
use operating_systems_fa.Common.Atoi.{atoi_int-pos}
use operating_systems_fa.Common.Decimal.{decimal, decimal_ℤ, atoi-decimal}
use operating_systems_fa.Common.Decimal.Read.{no_nul-decimal}
use operating_systems_fa.Common.Decimal.Columns.{percent_3d, gap-percent_3d, gap_ℤ-pos}
use operating_systems_fa.Common.Text.{
  codes, c_string, put_over, behind_first, no_nul, c_string-put_over,
}
use operating_systems_fa.Client.{Bytes}
use operating_systems_fa.Client.Input.Numbers.{check_input-work}
use operating_systems_fa.Client.Session.{
  Line, Session, Answers, next, send_text, recv_text, take_reply, send_work, turn,
}

-- The line "T" with a number, and the server's reply with its NUL.
abbrev pub work_line : ℕ → Bytes
work_line w = b'T' ∷ (decimal w ++ 10 ∷ [])

abbrev pub done_reply : ℕ → Bytes
done_reply count = b'D' ∷ (decimal count ++ 0 ∷ [])

-- The two lines of the output file, with the numbers as `%3d` prints them.
abbrev pub send_line : (time w : ℕ) → Line
send_line time w = record {
  time = some time;
  text = codes " Send (T" ++ (percent_3d w ++ codes ")\n");
}

abbrev pub recv_line : (time count : ℕ) → Line
recv_line time count = record {
  time = some time;
  text = codes " Recv (D" ++ (percent_3d count ++ codes ")\n");
}

send_text-columns : (w : ℕ) → send_text (pos w) ≡ codes " Send (T" ++ (percent_3d w ++ codes ")\n")
unfolding send_text decimal_ℤ
send_text-columns w =
    ap (λ spaces. codes " Send (T" ++ (spaces ++ (decimal w ++ codes ")\n"))) (gap_ℤ-pos w)
    ∙ ap (λ text. codes " Send (T" ++ text) (gap-percent_3d w (codes ")\n"))

recv_text-columns :
    (count : ℕ)
    → recv_text (pos count) (decimal count) ≡ codes " Recv (D" ++ (percent_3d count ++ codes ")\n")
unfolding recv_text
recv_text-columns count =
    ap (λ spaces. codes " Recv (D" ++ (spaces ++ (decimal count ++ codes ")\n"))) (gap_ℤ-pos count)
    ∙ ap (λ text. codes " Recv (D" ++ text) (gap-percent_3d count (codes ")\n"))

-- The buffer when a reply has come.
module _ (text buff : Bytes) (clean : no_nul text ≡ true)
    (room : length text + 1 < length buff) where
  first-reply : get_elem? (put_over (b'D' ∷ (text ++ 0 ∷ [])) buff) 0 ≡ some b'D'
  unfolding put_over
  first-reply =
      elim buff
          as (λ l.
            length text + 1 < length l
            → get_elem? (put_over (b'D' ∷ (text ++ 0 ∷ [])) l) 0 ≡ some b'D') [
              | [] ↦ λ r. absurd (omega arith)
              | x ∷ xs ↦ λ r. refl
            ]
        room

  text-reply : c_string (behind_first (put_over (b'D' ∷ (text ++ 0 ∷ [])) buff)) ≡ some text
  unfolding put_over
  text-reply =
      elim buff
          as (λ l.
            length text + 1 < length l
            → c_string (behind_first (put_over (b'D' ∷ (text ++ 0 ∷ [])) l)) ≡ some text) [
              | [] ↦ λ r. absurd (omega arith)
              | x ∷ xs ↦ λ r. c_string-put_over text xs clean (omega arith)
            ]
        room

-- `send` takes the message and `recv` returns the bytes.
abbrev pub answering : (sent_at received_at : ℕ) → Bytes → Answers
answering sent_at received_at bytes = record {
  errno = 0;
  sent_at = sent_at;
  whole = true;
  reply = some bytes;
  received_at = received_at;
}

-- The session when the reply has been written.
abbrev pub after_reply : (sent_at received_at w count : ℕ) → Bytes → Session → Session
after_reply sent_at received_at w count buff s = record {
  recv_buff = buff;
  work_count = s.work_count + 1;
  log = (s.log ++ send_line sent_at w ∷ []) ++ recv_line received_at count ∷ [];
  sent = s.sent ++ (work_line w ++ 0 ∷ []) ∷ [];
}

-- The turn, from what the buffer holds when `recv` has returned.
turn-holding :
    (sent_at received_at w count : ℕ) (bytes : Bytes) (s : Session)
    → w < 2147483648
    → count < 2147483648
    → get_elem? (put_over bytes s.recv_buff) 0 ≡ some b'D'
    → c_string (behind_first (put_over bytes s.recv_buff)) ≡ some (decimal count)
    → turn (answering sent_at received_at bytes) (work_line w) s
      ≡ some (next (after_reply sent_at received_at w count (put_over bytes s.recv_buff) s))
unfolding turn send_work take_reply
turn-holding sent_at received_at w count bytes s small lt first text =
    rw
      (
        turn,
        check_input-work w small,
        first,
        text,
        atoi_int-pos (decimal count) count (atoi-decimal count (omega arith)) lt,
        send_text-columns w,
        recv_text-columns count,
      )
      refl

-- With `errno` at 0, the line "T" with a number that an `int` holds is sent with its NUL; and when
-- "D" and a number that an `int` holds come back, the output file gets a line for each, with the numbers as
-- `%3d` prints them, the transaction is counted, and the next line is read.
pub turn-done :
    (sent_at received_at w count : ℕ) (s : Session)
    → w < 2147483648
    → count < 2147483648
    → length (done_reply count) < length s.recv_buff
    → turn (answering sent_at received_at (done_reply count)) (work_line w) s
      ≡ some (
          next
            (after_reply sent_at received_at w count (put_over (done_reply count) s.recv_buff) s))
turn-done sent_at received_at w count s small lt fits =
    let clean = no_nul-decimal count in
    let room : length (decimal count) + 1 < length s.recv_buff =
      omega (arith, fits, length-append (decimal count) (0 ∷ [])) in
    turn-holding sent_at received_at w count (done_reply count) s small lt
      (first-reply (decimal count) s.recv_buff clean room)
      (text-reply (decimal count) s.recv_buff clean room)

-- When the server has gone after a reply, and `recv` returns 0, the next line "T" is taken for
-- answered by the reply before it, with a number that an `int` holds and still in the buffer: its number is written once more,
-- and the program goes on.
pub turn-repeats :
    (sent_at received_at sent_at' received_at' w v count : ℕ) (s : Session)
    → w < 2147483648
    → v < 2147483648
    → count < 2147483648
    → length (done_reply count) < length s.recv_buff
    → (s' : Session) × (turn (answering sent_at received_at (done_reply count)) (work_line w) s
        ≡ some (next s'))
      × (s'' : Session) × (turn (answering sent_at' received_at' []) (work_line v) s'
          ≡ some (next s''))
      × (s''.log ≡ (s'.log ++ send_line sent_at' v ∷ []) ++ recv_line received_at' count ∷ [])
unfolding put_over
turn-repeats sent_at received_at sent_at' received_at' w v count s small small' lt fits =
    let clean = no_nul-decimal count in
    let room : length (decimal count) + 1 < length s.recv_buff =
      omega (arith, fits, length-append (decimal count) (0 ∷ [])) in
    let s' = after_reply sent_at received_at w count (put_over (done_reply count) s.recv_buff) s in
    (
      s',
      turn-done sent_at received_at w count s small lt fits,
      after_reply sent_at' received_at' v count (put_over (done_reply count) s.recv_buff) s',
      turn-holding sent_at' received_at' v count [] s' small' lt
          (first-reply (decimal count) s.recv_buff clean room)
          (text-reply (decimal count) s.recv_buff clean room),
      refl,
    )
