-- ===== src/Server/Start.antt =====
-- `main` of A3/server.c in front of its loop: the argument, the output file and `setup_server`. The
-- threads that it starts in between wait for work, of which there is none yet.
use operating_systems_fa.Common.{
  Bool, Bool-cases, List, Option, arith, get_elem?, if◌then◌else◌, inl, inr, ltb, none, some, ℕ, ℤ,
  ◌++◌, ◌<◌, ◌>>=◌, ◌≡◌,
}
use mathlib.Core.Path.{subst}
use operating_systems_fa.Common.Htons.{htons}
use operating_systems_fa.Common.Text.{codes}
use operating_systems_fa.Fifo.Transactions.{Transaction}
use operating_systems_fa.Server.{Bytes, usage_check, output_file_name, fd_setsize}
use operating_systems_fa.Server.Pool.{System, begin, Reach}
use operating_systems_fa.Server.Loop.Watched.{Watched, Reach-Watched}

-- What the system answers: `hostname` is the text in its 40 bytes, also where `gethostname` fails;
-- `socket` is `none` for -1; `bind` gets the port. The result of `signal` is only printed.
pub record Setup : Type 0 where
  pub hostname : Bytes
  pub pid : ℕ
  pub fopen_works : Bool
  pub socket : Option ℕ
  pub bind_works : (sin_port : ℕ) → Bool
  pub listen_works : Bool

-- The program exits, or comes to its loop with this line in its output file and this socket.
pub data Start : Type 0 where
  exits : Start
  serves : (using_port : Bytes) → (server_fd : ℕ) → Start

-- The state before the loop is that of `set_up`. `FD_SET` is a fault (`none`) outside the set.
unfoldable pub setup_server : Setup → ℤ → (using_port : Bytes) → Option Start
unfolding htons
setup_server o port using_port = elim o.socket [
  | none ↦ some exits
  | some server_fd ↦
      if o.bind_works (htons port)
      then if o.listen_works
        then if ltb server_fd fd_setsize then some (serves using_port server_fd) else none
        else some exits
      else some exits
]

unfoldable pub server_start : Setup → (argv : List Bytes) → Option Start
unfolding setup_server
server_start o argv = elim (usage_check argv) [
  | none ↦ some exits
  | some port ↦ do
    filename ← output_file_name o.hostname o.pid
    text ← get_elem? argv 1
    if o.fopen_works
        then setup_server o port (codes "Using port " ++ (text ++ codes "\n"))
        else some exits
]

-- A socket that the server serves is one that FD_SET can take.
abbrev InSet : Option Start → Type 0
InSet (some (serves using_port server_fd)) = server_fd < fd_setsize
InSet _ = Unit

setup_server-InSet :
    (o : Setup) (port : ℤ) (using_port : Bytes) → InSet (setup_server o port using_port)
unfolding setup_server
setup_server-InSet o port using_port = listening o.socket
  where
    listening :
        (socket : Option ℕ)
        → InSet (elim socket as (λ _. Option Start) [
          | none ↦ some exits
          | some server_fd ↦
              if o.bind_works (htons port)
              then if o.listen_works
                then if ltb server_fd fd_setsize then some (serves using_port server_fd) else none
                else some exits
              else some exits
        ])
    listening none = tt
    listening (some server_fd) = elim (Bool-cases (o.bind_works (htons port))) [
      | inr e ↦ rw e tt
      | inl e ↦ rw e (elim (Bool-cases o.listen_works) [
        | inr f ↦ rw f tt
        | inl f ↦ rw f (elim (Bool-cases (ltb server_fd fd_setsize)) [
          | inr g ↦ rw g tt
          | inl g ↦ rw g (ground (arith, g))
        ])
      ])
    ]

server_start-InSet : (o : Setup) (argv : List Bytes) → InSet (server_start o argv)
unfolding server_start
server_start-InSet o argv = checked (usage_check argv)
  where
    opened :
        (port : ℤ) (filename text : Option Bytes)
        → InSet (do
          name ← filename
          t ← text
          if o.fopen_works
              then setup_server o port (codes "Using port " ++ (t ++ codes "\n"))
              else some exits)
    opened port none text = tt
    opened port (some name) none = tt
    opened port (some name) (some t) = elim (Bool-cases o.fopen_works) [
      | inr e ↦ rw e tt
      | inl e ↦ rw e (setup_server-InSet o port _)
    ]

    checked :
        (port : Option ℤ)
        → InSet (elim port as (λ _. Option Start) [
          | none ↦ some exits
          | some port ↦ do
            filename ← output_file_name o.hostname o.pid
            text ← get_elem? argv 1
            if o.fopen_works
                then setup_server o port (codes "Using port " ++ (text ++ codes "\n"))
                else some exits
        ])
    checked none = tt
    checked (some port) = opened port (output_file_name o.hostname o.pid) (get_elem? argv 1)

-- From the arguments of `main` on: if the server comes to its loop, then in every state that it
-- reaches from there, whatever the interleaving, `max_fd` bounds the listening socket and every
-- socket that is open, so that `select` and the loop behind it reach them all, and it is below
-- FD_SETSIZE.
pub server_start-Watched :
    (o : Setup) (argv : List Bytes) {using_port : Bytes} {server_fd : ℕ} {spurious : Bool} {n : ℕ}
    (storage : List Transaction) {s : System}
    → server_start o argv ≡ some (serves using_port server_fd)
    → Reach spurious n (begin storage server_fd) s
    → Watched s.server
server_start-Watched o argv {using_port} {server_fd} storage started reach =
    Reach-Watched storage server_fd (subst InSet started (server_start-InSet o argv)) reach
