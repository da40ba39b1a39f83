-- ===== src/Net/Tcp/Bind.antt =====
-- kernel/net/TCPSocket.cpp: the table of bound sockets. `self` is the address of the socket at work.
-- `random` is what `rand_range` gave. An entry of the table is taken to be alive, as a socket
-- leaves the table when it is destroyed.
use nusa_os.Common.{
  ℕ, zero, suc, ◌+◌, true, Option, none, some, eaddrinuse, ok, err, ◌==◌, if◌then◌else◌,
}
use nusa_os.Kstd.Map.{Map, get, contains, assign, erase}
use nusa_os.Net.Tcp.{Socket, World, Turn}
use nusa_os.Net.Tcp.Id.{SocketId, id_order}

abbrev pub key : ℕ → ℕ → ℕ → ℕ → SocketId
key my_ip my_port their_ip their_port = record {
  my_ip = my_ip;
  my_port = my_port;
  their_ip = their_ip;
  their_port = their_port;
}

-- Exact match, then the bound address and port, then the bound port.
unfoldable pub get_socket : World → ℕ → ℕ → ℕ → ℕ → Option ℕ
get_socket w dest_addr dest_port src_addr src_port =
    elim (get (key dest_addr dest_port src_addr src_port) w.sockets) [
      | some s ↦ some s
      | none ↦ elim (get (key dest_addr dest_port 0 0) w.sockets) [
        | some s ↦ some s
        | none ↦ get (key 0 dest_port 0 0) w.sockets
      ]
    ]

-- The loop over the ephemeral ports: the first of the `n` ports from `port` on that is free.
unfoldable pub search_port : Map SocketId ℕ → Socket → ℕ → ℕ → Option ℕ
search_port m s zero port = none
search_port m s (suc n) port =
    let rest = search_port m s n (port + 1) in
    if contains (key s.bound_addr port s.dest_addr s.dest_port) m then rest else some port

abbrev pub first_ephemeral : ℕ
first_ephemeral = 49152

abbrev pub ephemerals : ℕ
ephemerals = 16383

-- The port of a socket that is to be bound.
unfoldable pub choose_port : Map SocketId ℕ → Socket → ℕ → Option ℕ
choose_port m s random =
    if s.bound_port == 0
    then if contains (key s.bound_addr random s.dest_addr s.dest_port) m
      then search_port m s ephemerals first_ephemeral
      else some random
    else some s.bound_port

-- `do_bind` once the port is chosen.
unfoldable pub bind_port : ℕ → World → Socket → ℕ → Turn
bind_port self w s port =
    let s' = record s { bound_port = port } in
    let new_id = key s.bound_addr port s.dest_addr s.dest_port in
    if contains new_id w.sockets
    then record {
      socket = record s' { error = some eaddrinuse };
      world = w;
      result = err eaddrinuse;
    }
    else record {
      socket = record s' { bound = true; id = new_id };
      world = record w { sockets = assign new_id self w.sockets };
      result = ok tt;
    }

unfoldable pub do_bind : ℕ → ℕ → World → Socket → Turn
unfolding choose_port bind_port
do_bind self random w s = elim (choose_port w.sockets s random) [
  | none ↦ record {
    socket = record s { error = some eaddrinuse };
    world = w;
    result = err eaddrinuse;
  }
  | some port ↦ bind_port self w s port
]

-- `~TCPSocket`
unfoldable pub destroy : World → Socket → World
destroy w s = if s.bound then record w { sockets = erase s.id w.sockets } else w

unfoldable pub finish_closing : World → Socket → World
finish_closing w s = record w { closing_sockets = erase s.id w.closing_sockets }
