-- ===== src/Client/Main.antt =====
-- `main` of A3/client.c as a whole: the arguments, the output file, the connection and the first
-- message, and then the loop. What the printing on the terminal does is left out.
use operating_systems_fa.Common.{
  Bool, List, Option, [], arith, eqb_ℤ, false, get_elem?, if◌then◌else◌, length, length-append, ltb,
  map, none, pos, refl, some, true, ℕ, ℤ, ◌&&◌, ◌++◌, ◌<◌, ◌>>=◌, ◌∙◌, ◌∷◌, ◌≡◌,
}
use operating_systems_fa.Common.Atoi.{atoi}
use operating_systems_fa.Common.Decimal.{decimal}
use operating_systems_fa.Common.Decimal.Width.{length-decimal-le}
use operating_systems_fa.Common.Htons.{htons}
use operating_systems_fa.Common.Text.{codes}
use operating_systems_fa.Client.{Bytes, usage_check, output_file_name, name_message}
use operating_systems_fa.Client.Session.{Session, Answers, Line, close, session}
use operating_systems_fa.Client.Session.Whole.{
  Job, AllServed, job_turn, job_lines, job_messages, session-whole,
}

-- What the system answers before the loop: `none` for the -1 of `gethostname`, and for an address
-- that `inet_pton` does not take; `connect` gets the address and the port. `recv_buff` is never
-- set before the first `recv`, and `whole` says whether `send` takes the whole message.
pub record Setup : Type 0 where
  pub hostname : Option Bytes
  pub pid : ℕ
  pub fopen_works : Bool
  pub socket_works : Bool
  pub inet_pton : Bytes → Option ℕ
  pub connect_works : (sin_addr sin_port : ℕ) → Bool
  pub recv_buff : Bytes
  pub whole : Bool

-- The output file as it is before the loop.
unfoldable pub header : (port address filename : Bytes) → List Line
header port address filename =
    record { time = none; text = codes "Using port " ++ (port ++ codes "\n") }
    ∷ record { time = none; text = codes "Using server address " ++ (address ++ codes "\n") }
    ∷ record { time = none; text = codes "Host " ++ (filename ++ codes "\n") }
    ∷ []

-- From the name of the file on: the state before the loop, or (`none` inside) the end of the
-- program. The other `none` is a message that does not fit into `clientname`.
unfoldable pub introduce :
    Setup → ℤ → (port_text address filename : Bytes) → Option (Option Session)
unfolding htons header
introduce o port port_text address filename =
    if o.fopen_works
    then if o.socket_works
      then elim (o.inet_pton address) [
        | none ↦ some none
        | some sin_addr ↦
            if o.connect_works sin_addr (htons port)
            then (do
              message ← name_message filename
              if o.whole
                  then some (
                      some (record {
                        recv_buff = o.recv_buff;
                        work_count = 0;
                        log = header port_text address filename;
                        sent = (message ++ 0 ∷ []) ∷ [];
                      }))
                  else some none)
            else some none
      ]
      else some none
    else some none

-- `none` is a fault, and `none` inside that the program exits.
unfoldable pub client_main :
    Setup → (argv : List Bytes) → List (Answers × Bytes) → Option (Option Session)
unfolding introduce
client_main o argv lines = elim (usage_check argv) [
  | none ↦ some none
  | some port ↦ elim o.hostname [
    | none ↦ some none
    | some hostname ↦ do
      filename ← output_file_name hostname o.pid
      port_text ← get_elem? argv 1
      address ← get_elem? argv 2
      begun ← introduce o port port_text address filename
      elim begun [ none ↦ some none | some s ↦ session lines s ]
  ]
]

-- Where every call works: what is there before the loop.
pub record Works (o : Setup) (port : ℤ) (address : Bytes) : Type 0 where
  pub sin_addr : ℕ
  pub opened : o.fopen_works ≡ true
  pub has_socket : o.socket_works ≡ true
  pub converted : o.inet_pton address ≡ some sin_addr
  pub connected : o.connect_works sin_addr (htons port) ≡ true
  pub sends : o.whole ≡ true

module _ (o : Setup) (program port address hostname : Bytes) (jobs : List Job)
    (works : Works o (atoi port) address) (named : o.hostname ≡ some hostname)
    (nonzero : eqb_ℤ (atoi port) (pos 0) ≡ false) (short : length hostname < 40)
    (few : o.pid < 1000000000) (served : AllServed (length o.recv_buff) jobs) where
  abbrev pub filename : Bytes
  filename = hostname ++ b'.' ∷ decimal o.pid

  abbrev begun : Session
  begun = record {
    recv_buff = o.recv_buff;
    work_count = 0;
    log = header port address filename;
    sent = ((b'N' ∷ filename) ++ 0 ∷ []) ∷ [];
  }

  introduce-begun : introduce o (atoi port) port address filename ≡ some (some begun)
  unfolding introduce name_message
  introduce-begun =
      let digits = length-decimal-le 9 o.pid (omega arith) (omega arith) few in
      let parts = length-append hostname (b'.' ∷ decimal o.pid) in
      rw (works.opened, works.has_socket, works.converted, works.connected, works.sends)
        (ground (arith, digits, parts))

  -- What is in front of the loop comes to its end there.
  client_main-session :
      (lines : List (Answers × Bytes))
      → client_main o (program ∷ port ∷ address ∷ []) lines ≡ session lines begun
  unfolding client_main usage_check output_file_name
  client_main-session lines =
      rw (client_main, usage_check, nonzero, named, output_file_name, fits, introduce-begun) refl
    where
      fits : (ltb (length filename) 100 && ltb (length (decimal o.pid)) 10) ≡ true
      fits = ground (
        arith,
        length-decimal-le 9 o.pid (omega arith) (omega arith) few,
        length-append hostname (b'.' ∷ decimal o.pid),
      )

  -- With a port that `atoi` does not read as 0, a host name below 40 bytes, a process number below
  -- 10^9 and calls that all work, and with lines "T", each with a number that an `int` holds and
  -- each answered with such a number in a reply shorter than the buffer: the client sends
  -- its name, which is that of its output file, in front, and then the lines in their order; the
  -- file has its three lines in front and then two for each transaction; all are counted; and the
  -- program comes to its end.
  pub client_main-whole :
      (s' : Session) × (client_main o (program ∷ port ∷ address ∷ []) (map job_turn jobs)
        ≡ some (some (close s')))
      × (s'.work_count ≡ length jobs)
      × (s'.log ≡ header port address filename ++ job_lines jobs)
      × (s'.sent ≡ ((b'N' ∷ filename) ++ 0 ∷ []) ∷ job_messages jobs)
  client_main-whole =
      let (s', ends, counted, logged, sent) = session-whole jobs begun served in
      (s', client_main-session (map job_turn jobs) ∙ ends, omega (arith, counted), logged, sent)
