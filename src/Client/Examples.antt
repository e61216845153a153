-- ===== src/Client/Examples.antt =====
-- Tests of A3/client.c, and its theorems at a run with two transactions.
use operating_systems_fa.Common.{
  List, [], arith, inr, length, map, pos, refl, replicate, some, true, ◌++◌, ◌==◌, ◌∷◌, ◌≡◌,
}
use operating_systems_fa.Common.Atoi.{atoi, after_space, digits_value, is_digit, is_space, signed}
use operating_systems_fa.Common.Decimal.{decimal, decimal_loop}
use operating_systems_fa.Common.Htons.{htons}
use operating_systems_fa.Common.Text.{codes}
use operating_systems_fa.Common.Strtol.{
  strtol, behind_space, unsigned, converted, strtol_digits, digit, to_int, low_bits,
}
use operating_systems_fa.Client.Input.{exits, accepted, check_input, check_conversion, check_number}
use operating_systems_fa.Client.Input.Numbers.{InRange, check_input-bounds}
use operating_systems_fa.Client.Session.{Session, next, turn, close}
use operating_systems_fa.Client.Session.Done.{
  work_line, done_reply, send_line, recv_line, answering, turn-repeats,
}
use operating_systems_fa.Client.{Bytes}
use operating_systems_fa.Client.Main.{Setup, header, Works, client_main, client_main-whole}
use operating_systems_fa.Client.Session.Whole.{Job, AllServed, job_turn, job_lines, job_messages}

-- "T12", "S100", "T0x10" and "T010", which the server reads as 0 and 10, a number that does not fit
-- an `int`, and lines that end the program.
Lines-checked :
    (check_input 0 (codes "T12\n") ≡ accepted (pos 12))
    × (check_input 0 (codes "S100\n") ≡ accepted (pos 100))
    × (check_input 0 (codes "T0x10\n") ≡ accepted (pos 16))
    × (atoi (codes "0x10\n") ≡ pos 0)
    × (check_input 0 (codes "T010\n") ≡ accepted (pos 8))
    × (atoi (codes "010\n") ≡ pos 10)
    × (check_input 0 (codes "T4294967301\n") ≡ accepted (pos 5))
    × (check_input 0 (codes "S101\n") ≡ exits)
    × (check_input 0 (codes "T-1\n") ≡ exits)
    × (check_input 0 (codes "T5 \n") ≡ exits)
    × (check_input 0 (codes "\n") ≡ exits)
    × (check_input 0 (codes " 5\n") ≡ accepted (pos 5))
    × (check_input 25 (codes "T5\n") ≡ exits)
unfolding check_input check_conversion check_number strtol behind_space unsigned converted
    strtol_digits digit to_int low_bits is_digit is_space signed atoi after_space digits_value
Lines-checked = (refl, refl, refl, refl, refl, refl, refl, refl, refl, refl, refl, refl, refl)

abbrev fresh : Session
fresh = record { recv_buff = replicate 1024 0; work_count = 0; log = []; sent = [] }

abbrev jobs : List Job
jobs =
    record { work = 5; count = 1; sent_at = 10; received_at = 20 }
    ∷ record { work = 12; count = 3; sent_at = 30; received_at = 40 }
    ∷ []

jobs-AllServed : AllServed (length fresh.recv_buff) jobs
unfolding decimal decimal_loop
jobs-AllServed = (
  record { small = omega arith; numbered = omega arith; fits = omega arith },
  (record { small = omega arith; numbered = omega arith; fits = omega arith }, tt),
)

abbrev setup : Setup
setup = record {
  hostname = some (codes "host");
  pid = 123;
  fopen_works = true;
  socket_works = true;
  inet_pton = λ address. some 2130706433;
  connect_works = λ sin_addr port. port == 8080;
  recv_buff = fresh.recv_buff;
  whole = true;
}

-- 73616 is 8080 in 16 bits.
abbrev port : Bytes
port = codes "73616"

abbrev address : Bytes
address = codes "127.0.0.1"

port-read : atoi port ≡ pos 73616
unfolding atoi after_space digits_value is_digit is_space signed
port-read = refl

setup-Works : Works setup (atoi port) address
unfolding htons
setup-Works = record {
  sin_addr = 2130706433;
  opened = refl;
  has_socket = refl;
  converted = refl;
  connected = rw port-read refl;
  sends = refl;
}

client_main-whole_example :
    (s' : Session) × (client_main setup (codes "client" ∷ port ∷ address ∷ []) (map job_turn jobs)
      ≡ some (some (close s')))
    × (s'.work_count ≡ 2)
    × (s'.log ≡ header port address (codes "host" ++ b'.' ∷ decimal 123) ++ job_lines jobs)
    × (s'.sent ≡ ((b'N' ∷ (codes "host" ++ b'.' ∷ decimal 123)) ++ 0 ∷ []) ∷ job_messages jobs)
client_main-whole_example =
    client_main-whole setup (codes "client") port address (codes "host") jobs setup-Works refl
      (rw port-read refl) (omega arith) (omega arith) jobs-AllServed

turn-repeats_example :
    (s' : Session) × (turn (answering 10 20 (done_reply 1)) (work_line 5) fresh ≡ some (next s'))
    × (s'' : Session) × (turn (answering 30 40 []) (work_line 12) s' ≡ some (next s''))
    × (s''.log ≡ (s'.log ++ send_line 30 12 ∷ []) ++ recv_line 40 1 ∷ [])
unfolding decimal decimal_loop
turn-repeats_example =
    turn-repeats 10 20 30 40 5 12 1 fresh (omega arith) (omega arith) (omega arith) (omega arith)

check_input-bounds_example : InRange b'S' (pos 100)
unfolding check_input check_conversion check_number strtol behind_space unsigned converted
    strtol_digits digit to_int low_bits is_digit is_space signed
check_input-bounds_example = check_input-bounds 0 b'S' (codes "100\n") (inr refl) refl
