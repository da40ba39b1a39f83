-- ===== src/Net/Tcp/Send.antt =====
-- kernel/net/TCPSocket.cpp: the operations that send. Routing (Router.cpp) and the adapters
-- (NetworkAdapter.cpp) are not modelled: what they answer to the call at hand is the argument
-- `route`. The bytes of a segment, its checksum and its window are left out.
use nusa_os.Common.{
  has, ℕ, ◌+◌, Bool, false, not, ◌&&◌, ◌||◌, [], ◌∷◌, ◌++◌, Option, none, some, Errno, ehostunreach,
  epipe, econnrefused, einprogress, Result, ok, err, panic, ◌==◌, ltb, if◌then◌else◌, add_word,
  sub_word, min,
}
use nusa_os.Kstd.Map.{assign, erase}
use nusa_os.Net.Tcp.{
  syn_sent, established, fin_wait1, close_wait, last_ack, listen, connecting, connected, outgoing,
  Socket, World, Turn, Segment,
}
use nusa_os.Net.Tcp.Id.{eq_id, id_order}
use nusa_os.Net.Tcp.Bind.{key, do_bind}

-- What `Router::get_route` found: whether there is a hardware address, the adapter with its address
-- and MTU, and the error of `alloc_packet`, if it fails.
pub record Adapter : Type 0 where
  pub ipv4_address : ℕ
  pub mtu : ℕ

pub record Route : Type 0 where
  pub mac : Bool
  pub adapter : Option Adapter
  pub alloc_error : Option Errno

-- api/tcp.h
abbrev pub tcp_fin : ℕ
tcp_fin = 1

abbrev pub tcp_syn : ℕ
tcp_syn = 2

abbrev pub tcp_rst : ℕ
tcp_rst = 4

abbrev pub tcp_psh : ℕ
tcp_psh = 8

abbrev pub tcp_ack : ℕ
tcp_ack = 16

-- `expect_ack`
unfoldable pub expects_ack : ℕ → ℕ → Bool
expects_ack flags payload_size = has flags tcp_syn || ltb 0 payload_size

-- `send_tcp` once the packet is allocated. `tcp_segment->ack` stays 0 in a segment without the
-- flag.
unfoldable pub transmit : World → Socket → ℕ → ℕ → Turn
unfolding has expects_ack
transmit w s flags payload_size =
    let last = if has flags tcp_ack then s.ack else s.last_ack in
    let segment : Segment = record {
      from = key s.bound_addr s.bound_port s.dest_addr s.dest_port;
      flags = flags;
      sequence = s.sequence;
      ack = if has flags tcp_ack then s.ack else 0;
      payload_size = payload_size;
    } in
    let next = add_word s.sequence (if has flags tcp_syn then 1 else payload_size) in
    record {
      socket = record s {
        last_ack = last;
        sequence = next;
        unacked_packets =
            if expects_ack flags payload_size
            then s.unacked_packets ++ (next ∷ [])
            else s.unacked_packets;
      };
      world = record w { sent = segment ∷ w.sent };
      result = ok tt;
    }

unfoldable pub has_route : Route → Bool
has_route route = elim route.adapter [ none ↦ false | some a ↦ route.mac ]

unfoldable pub send_tcp : Route → World → Socket → ℕ → ℕ → Turn
unfolding transmit has_route
send_tcp route w s flags payload_size =
    if has_route route
    then elim route.alloc_error [
      | some e ↦ record { socket = s; world = w; result = err e }
      | none ↦ transmit w s flags payload_size
    ]
    else record {
      socket = record s { error = some ehostunreach };
      world = w;
      result = err ehostunreach;
    }

unfoldable pub send_ack : Route → World → Socket → Bool → Turn
unfolding send_tcp
send_ack route w s dupe =
    if not dupe && (s.last_ack == s.ack)
    then record { socket = s; world = w; result = ok tt }
    else send_tcp route w s tcp_ack 0

-- The part of `do_send` after its routing: the size it reports, and what it sends.
unfoldable pub do_send : Route → World → Socket → ℕ → Turn × Result ℕ
unfolding send_tcp
do_send route w s len = elim s.connection_state [
  | connected ↦ elim route.adapter [
    | none ↦ (
      record {
        socket = record s { error = some ehostunreach };
        world = w;
        result = err ehostunreach;
      },
      err ehostunreach,
    )
    | some a ↦
        if route.mac
        then (let t = send_tcp route w s (tcp_psh + tcp_ack) len in
            (
              t,
              elim t.result [
                | ok u ↦ ok (min (sub_word (sub_word a.mtu 20) 20) len)
                | err e ↦ err e
                | panic ↦ panic
              ],
            ))
        else (
          record {
            socket = record s { error = some ehostunreach };
            world = w;
            result = err ehostunreach;
          },
          err ehostunreach,
        )
  ]
  | _ ↦ (record { socket = s; world = w; result = err epipe }, err epipe)
]

unfoldable pub do_listen : Socket → Socket
do_listen s = record s { state = listen }

unfoldable pub shutdown_writing : Route → World → Socket → Turn
unfolding send_tcp
shutdown_writing route w s = elim s.state [
  | established ↦
      let t = send_tcp route w (record s { state = fin_wait1 }) (tcp_fin + tcp_ack) 0 in
      record t { result = ok tt }
  | _ ↦ record { socket = s; world = w; result = ok tt }
]

-- `close`, after the file's own part
unfoldable pub close : ℕ → Route → World → Socket → Turn
unfolding send_tcp shutdown_writing
close self route w s =
    let w' = record w { closing_sockets = assign s.id self w.closing_sockets } in
    let t = shutdown_writing route w' s in
    elim t.socket.state [
      | close_wait ↦
          let t' = send_tcp route t.world t.socket (tcp_fin + tcp_ack) 0 in
          record t' { socket = record (t'.socket) { state = last_ack }; result = ok tt }
      | _ ↦ t
    ]

-- `do_connect` up to where it blocks: the socket must have a route and be bound, then goes over to
-- its full id and sends its SYN.
unfoldable pub rekey : ℕ → World → Socket → World × Socket
rekey self w s =
    let new_id = key s.bound_addr s.bound_port s.dest_addr s.dest_port in
    if eq_id s.id new_id then (w, s) else (
      record w { sockets = assign new_id self (erase s.id w.sockets) },
      record s { id = new_id },
    )

unfoldable pub start_syn : ℕ → Route → ℕ → World → Socket → Turn
unfolding rekey send_tcp
start_syn self route random_sequence w s =
    let (w', s') = rekey self w s in
    send_tcp route w'
      (record s' {
        sequence = random_sequence;
        ack = 0;
        connection_state = connecting;
        direction = outgoing;
        state = syn_sent;
        connect_ready = false;
      })
      tcp_syn 0

unfoldable pub connect_start : ℕ → Route → ℕ → ℕ → World → Socket → Turn
unfolding start_syn
connect_start self route random_port random_sequence w s = elim route.adapter [
  | none ↦ record {
    socket = record s { error = some ehostunreach };
    world = w;
    result = err ehostunreach;
  }
  | some a ↦
      let s' = if s.bound_addr == 0 then record s { bound_addr = a.ipv4_address } else s in
      if s.bound
      then start_syn self route random_sequence w s'
      else (let t = do_bind self random_port w s' in
          elim t.result [ ok u ↦ start_syn self route random_sequence t.world t.socket | _ ↦ t ])
]

-- `do_connect` after it was woken.
unfoldable pub connect_finish : Bool → Socket → Socket × Result (Unit {0})
connect_finish interrupted s =
    if interrupted
    then (record s { error = some einprogress }, err einprogress)
    else elim s.connection_state [
      | connected ↦ (s, ok tt)
      | _ ↦ (record s { error = some econnrefused }, err econnrefused)
    ]
