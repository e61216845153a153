-- ===== src/Server/Loop/Examples.antt =====
-- A round of the server in which a connection comes in and another one sends its name.
use operating_systems_fa.Common.{
  List, [], ap, arith, false, length, none, pos, refl, replicate, some, some-inj, true, ℕ, ◌==◌,
  ◌||◌, ◌∷◌, ◌≡◌,
}
use operating_systems_fa.Common.Text.{codes, put_over}
use operating_systems_fa.Fifo.Transactions.{Transaction}
use operating_systems_fa.Server.{
  Bytes, usage_check, output_file_name, Server, set_up, accept_connection, no_bytes, no_ids,
  no_clients, fd_setsize,
}
use operating_systems_fa.Server.Receive.{
  receive_message, take_message, handle_message, name_message, add_client,
}
use operating_systems_fa.Server.Pool.{System, begin, selecting, accepts, Reach, here, later}
use operating_systems_fa.Server.Loop.{Round, serve, ready_loop, handle_ready}
use operating_systems_fa.Server.Loop.Watched.{Watched, Reach-Watched}
use operating_systems_fa.Server.Start.{
  Setup, Start, serves, setup_server, server_start, server_start-Watched,
}
use operating_systems_fa.Common.Htons.{htons}
use operating_systems_fa.Common.Decimal.{decimal, decimal_loop}
use operating_systems_fa.Common.Atoi.{atoi, after_space, digits_value, is_digit, is_space, signed}
use operating_systems_fa.Server.Loop.Served.{ready_from, serve_all, handle_ready-serve_all}
use operating_systems_fa.Server.Loop.Refines.{Fits, handle_ready-Reach}

abbrev storage : List Transaction
storage = replicate 100 (record { count = 0; client_fd = 0; work = pos 0 })

-- The listening socket is 4, and 5 is a connection.
connected : (s : System) × Reach false 2 (begin storage 4) s × (s.main ≡ selecting)
unfolding begin accept_connection set_up
connected = (_, later here (accepts 5 refl refl), refl)

connected-Watched : Watched connected.0.server
connected-Watched = Reach-Watched storage 4 (omega arith) connected.1

abbrev setup : Setup
setup = record {
  hostname = codes "host";
  pid = 123;
  fopen_works = true;
  socket = some 4;
  bind_works = λ port. port == 8080;
  listen_works = true;
}

abbrev argv : List Bytes
argv = codes "server" ∷ codes "8080" ∷ []

-- The server comes to its loop; it does not for a socket outside the sets.
setup-starts :
    (server_start setup argv ≡ some (serves (codes "Using port 8080\n") 4))
    × (server_start (record setup { socket = some 1024 }) argv ≡ none)
    × (server_start (record setup { socket = none }) argv ≡ some Start.exits)
    × (server_start setup (codes "server" ∷ codes "port" ∷ []) ≡ some Start.exits)
unfolding server_start setup_server htons usage_check output_file_name atoi after_space digits_value
    is_digit is_space signed decimal decimal_loop
setup-starts = (refl, refl, refl, refl)

server_start-Watched_example : Watched connected.0.server
server_start-Watched_example = server_start-Watched setup argv storage setup-starts.0 connected.1

-- A further connection is ready to be accepted, and the first one sends the name "a".
abbrev busy : Round
busy = record {
  ready_sockets = λ i. i == 4 || i == 5;
  accepted = some 7;
  answer = λ i. some (b'N' ∷ b'a' ∷ 0 ∷ []);
  now = λ i. 0;
}

busy_open : (i : ℕ) → busy.ready_sockets i ≡ true → connected.0.server.current_sockets i ≡ true
unfolding begin accept_connection set_up connected
busy_open i is_ready = ground arith

handle_ready-serve_all_example :
    handle_ready busy connected.0.server
    ≡ serve_all (ready_from fd_setsize 0 busy.ready_sockets) busy connected.0.server
handle_ready-serve_all_example =
    handle_ready-serve_all busy connected.0.server connected-Watched busy_open

busy-Fits : Fits busy
busy-Fits i bytes e = omega (arith, ap length (some-inj e))

served : (server : Server) × (handle_ready busy connected.0.server ≡ some server)
unfolding begin accept_connection set_up connected handle_ready ready_loop serve receive_message
    take_message handle_message name_message add_client put_over no_bytes no_ids no_clients
served = (_, refl)

handle_ready-Reach_example :
    (t : System) × Reach false 2 connected.0 t × (t.server ≡ served.0) × (t.main ≡ selecting)
handle_ready-Reach_example =
    handle_ready-Reach connected.0 served.0 busy connected-Watched connected.2 busy-Fits busy_open
      served.1
