-- ===== src/Client/Session.antt =====
-- The loop of `main` of A3/client.c. `none` is a fault: reading on behind `recvBuff`, or a
-- number in a reply that is no `int`.
pub mod Done
pub mod Whole
use operating_systems_fa.Common.{
  Bool, List, Option, [], get_elem?, if◌then◌else◌, none, some, ℕ, ℤ, ◌++◌, ◌+◌, ◌==◌, ◌>>=◌, ◌∷◌,
}
use operating_systems_fa.Common.Atoi.{atoi_int}
use operating_systems_fa.Common.Decimal.{decimal, decimal_ℤ}
use operating_systems_fa.Common.Decimal.Columns.{gap_ℤ}
use operating_systems_fa.Common.Text.{codes, c_string, put_over, behind_first}
use operating_systems_fa.Client.{Bytes, packet_size}
use operating_systems_fa.Client.Input.{Checked, exits, accepted, check_input}

-- A line of the output file, with the time at its front if it has one.
pub record Line : Type 0 where
  pub time : Option ℕ
  pub text : Bytes

-- The variables of `main`, and what has been sent.
pub record Session : Type 0 where
  pub recv_buff : Bytes
  pub work_count : ℕ
  pub log : List Line
  pub sent : List Bytes

-- What the system answers while one line is handled: `errno` before it, the time of each
-- `gettimeofday`, whether `send` takes the whole message, and what `recv` returns (`none` for -1).
pub record Answers : Type 0 where
  pub errno : ℕ
  pub sent_at : ℕ
  pub whole : Bool
  pub reply : Option Bytes
  pub received_at : ℕ

-- The program exits, leaves its loop, or reads the next line.
pub data Turn : Type 0 where
  exited : Turn
  left : Session → Turn
  next : Session → Turn

unfoldable pub send_text : ℤ → Bytes
send_text n = codes " Send (T" ++ (gap_ℤ n ++ (decimal_ℤ n ++ codes ")\n"))

-- The number `m` of the reply, an `int`, gives the columns; its text is printed by `%s`.
unfoldable pub recv_text : ℤ → Bytes → Bytes
recv_text m text = codes " Recv (D" ++ (gap_ℤ m ++ (text ++ codes ")\n"))

abbrev pub write_line : Option ℕ → Bytes → Session → Session
write_line time text s = record s { log = s.log ++ record { time = time; text = text } ∷ [] }

-- From `recv` on: where it returns 0 the buffer has what it had.
unfoldable pub take_reply : Answers → Session → Option Turn
unfolding recv_text
take_reply a s = elim a.reply [
  | none ↦ some exited
  | some bytes ↦ do
    let buff = put_over bytes s.recv_buff
    first ← get_elem? buff 0
    if first == b'D'
        then (do
          text ← c_string (behind_first buff)
          m ← atoi_int text
          some (
              next (
                write_line (some a.received_at) (recv_text m text)
                  (record s { recv_buff = buff }))))
        else some exited
]

-- The command T.
unfoldable pub send_work : Answers → Bytes → ℤ → Session → Option Turn
unfolding send_text take_reply
send_work a line n s =
    if a.whole
    then take_reply a (
        write_line (some a.sent_at) (send_text n)
          (record s { work_count = s.work_count + 1; sent = s.sent ++ (line ++ 0 ∷ []) ∷ [] }))
    else some exited

-- One turn of the loop. `Sleep` only takes time here.
unfoldable pub turn : Answers → Bytes → Session → Option Turn
unfolding check_input send_work
turn a line s = elim (check_input a.errno line) [
  | exits ↦ some exited
  | accepted n ↦ do
    c ← get_elem? line 0
    if c == b'T'
        then send_work a line n s
        else if c == b'S'
        then some (next (write_line none (codes "Sleep " ++ (decimal_ℤ n ++ codes " units\n")) s))
        else some (left s)
]

-- The end of the program, if it does not exit before.
unfoldable pub close : Session → Session
close s = write_line none (codes "Sent " ++ (decimal s.work_count ++ codes " transactions")) s

-- The loop over the lines of the input: `none` in the result where the program exits.
unfoldable pub session : List (Answers × Bytes) → Session → Option (Option Session)
unfolding turn close
session [] s = some (some (close s))
session ((a, line) ∷ lines) s = do
  t ← turn a line s
  elim t [ exited ↦ some none | left s' ↦ some (some (close s')) | next s' ↦ session lines s' ]
