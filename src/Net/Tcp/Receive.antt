-- ===== src/Net/Tcp/Receive.antt =====
-- kernel/net/TCPSocket.cpp: `recv_packet`, one function for each state of the socket.
use nusa_os.Common.{
  has, ℕ, zero, suc, ◌+◌, ◌-◌, ◌*◌, Bool, true, false, not, ◌&&◌, ◌||◌, List, [], ◌∷◌, ◌++◌, Option,
  none, some, einval, enospc, Result, ok, err, panic, ◌==◌, ltb, leb, if◌then◌else◌, get_or,
  add_word, sub_word,
}
use nusa_os.Kstd.CircularQueue.{push_back}
use nusa_os.Net.Tcp.{
  closed, listen, syn_recvd, syn_sent, established, fin_wait1, fin_wait2, close_wait, last_ack,
  closing, time_wait, disconnected, connecting, connected, incoming, undirected, outgoing, Packet,
  Socket, World, Turn, new_socket,
}
use nusa_os.Net.Tcp.Bind.{do_bind, finish_closing}
use nusa_os.Net.Tcp.Send.{Route, tcp_fin, tcp_syn, tcp_rst, tcp_ack, send_tcp, send_ack}

-- What a packet meets: the address of the socket that it is for, the routes found for the answer,
-- which sockets are alive, and for a new connection the new socket's address and the random numbers.
pub record Env : Type 0 where
  pub self : ℕ
  pub route : Route
  pub alive : ℕ → Bool
  pub fresh : ℕ
  pub random_port : ℕ
  pub random_sequence : ℕ

-- `payload_len`, on `size_t`: the IPv4 header has 20 bytes.
unfoldable pub payload_len : Packet → ℕ
payload_len p = sub_word (sub_word p.length 20) (p.data_offset * 4)

-- The two tests on the length before it.
unfoldable pub is_short : Packet → Bool
is_short p = ltb p.length (20 + 20) || ltb p.length (20 + p.data_offset)

-- The loop over the options: `n` bytes of them are left. An option is at least one byte long, so
-- that `n` rounds are enough.
abbrev pub drop : ℕ → List ℕ → List ℕ
drop zero bytes = bytes
drop (suc n) [] = []
drop (suc n) (b ∷ bytes) = drop n bytes

unfoldable pub scan_options : ℕ → ℕ → List ℕ → Option ℕ → Option ℕ
scan_options zero n bytes scale = scale
scan_options (suc rounds) n bytes scale =
    let kind = get_or bytes 0 0 in
    let size = get_or bytes 1 0 in
    let after_nop : Option ℕ = scan_options rounds (n - 1) (drop 1 bytes) scale in
    let after_scale : Option ℕ =
      scan_options rounds (n - size) (drop size bytes) (some (get_or bytes 2 0)) in
    let after_other : Option ℕ = scan_options rounds (n - size) (drop size bytes) scale in
    if ltb n 2
    then scale
    else if kind == 1
    then after_nop
    else if (kind == 0) || ltb size 2
    then scale
    else if kind == 3
    then after_scale
    else after_other

unfoldable pub window_scale_of : Packet → Option ℕ
window_scale_of p = let n = p.data_offset * 4 - 20 in scan_options n n p.bytes none

unfoldable pub scaled : Packet → Socket → Socket
scaled p s = elim (window_scale_of p) [ none ↦ s | some scale ↦ record s { window_scale = scale } ]

-- The loop that releases the packets that an ACK acknowledges.
abbrev pub release_acked : ℕ → List ℕ → List ℕ
release_acked ack [] = []
release_acked ack (sequence ∷ rest) =
    let later = release_acked ack rest in if leb sequence ack then later else sequence ∷ rest

unfoldable pub note_ack : Packet → Socket → Socket
note_ack p s =
    if has p.flags tcp_ack
    then record s { unacked_packets = release_acked p.ack s.unacked_packets }
    else s

-- `segment->sequence + payload_len`, on `uint32_t`, and 1 more
unfoldable pub end_of : Packet → ℕ
unfolding payload_len
end_of p = add_word p.sequence (payload_len p)

unfoldable pub past : Packet → ℕ
unfolding end_of
past p = add_word (end_of p) 1

-- Every branch ends in `return Result(EINVAL)`.
abbrev pub done : Socket → World → Turn
done s w = record { socket = s; world = w; result = err einval }

abbrev pub after : Turn → Turn
after t = record t { result = err einval }

-- `m_state = Closed; finish_closing();` and the segment sent before it
abbrev pub shut : Socket → World → Turn
shut s w = done (record s { state = closed }) (finish_closing w s)

unfoldable pub reset : Env → World → Socket → Turn
reset env w s = let t = send_tcp env.route w s tcp_rst 0 in shut t.socket t.world

-- `IPSocket::recv_packet`. Its `len` is the packet's length.
unfoldable pub queue_packet : Packet → Socket → Socket × Result (Unit {0})
queue_packet p s =
    if leb p.length 8192
    then if s.receive_queue.size == s.receive_queue.capacity
      then (record s { error = some enospc }, err enospc)
      else (record s { receive_queue = (push_back none s.receive_queue (some p)).1 }, ok tt)
    else (s, panic)

-- The socket that a SYN to a listening socket makes.
unfoldable pub client_of : Env → Packet → Socket
unfolding past scaled
client_of env p = scaled p (record new_socket {
  bound_addr = p.dest_addr;
  bound_port = p.dest_port;
  dest_addr = p.source_addr;
  dest_port = p.source_port;
  sequence = env.random_sequence;
  ack = past p;
  connection_state = connecting;
  state = syn_recvd;
  direction = incoming;
  origin = some env.self;
})

-- The listening socket's turn, and the new socket.
unfoldable pub recv_listen : Env → Packet → World → Socket → Turn × Option Socket
unfolding client_of
recv_listen env p w s =
    if not (p.flags == 0) && not (p.flags == tcp_syn)
    then (done s w, none)
    else (let bound = do_bind env.fresh env.random_port w (client_of env p) in
        elim bound.result [
          | ok u ↦
              let sent = send_tcp env.route bound.world bound.socket (tcp_syn + tcp_ack) 0 in
              (
                done
                    (record s {
                      client_backlog = s.client_backlog ++ (env.fresh ∷ []);
                      accept_ready = true;
                    })
                    sent.world,
                some sent.socket,
              )
          | _ ↦ (done s bound.world, none)
        ])

unfoldable pub establish : Packet → Socket → Socket
unfolding end_of
establish p s = record s { state = established; connection_state = connected; ack = end_of p }

unfoldable pub recv_syn_recvd : Env → Packet → World → Socket → Turn
unfolding establish reset
recv_syn_recvd env p w s =
    if p.flags == tcp_ack
    then elim s.direction [
      | undirected ↦ reset env w s
      | incoming ↦ elim s.origin [
        | none ↦ reset env w s
        | some origin ↦
            if env.alive origin
            then done (establish p (record s { origin = none })) w
            else reset env w s
      ]
      | outgoing ↦ done (establish p s) w
    ]
    else done s w

unfoldable pub recv_syn_sent : Env → Packet → World → Socket → Turn
unfolding past scaled
recv_syn_sent env p w s =
    if p.flags == tcp_ack + tcp_syn
    then (let t = send_ack env.route w (record s { ack = past p }) true in
        done
          (scaled p (record (t.socket) {
            state = established;
            connection_state = connected;
            connect_ready = true;
          }))
          t.world)
    else if p.flags == tcp_syn
    then (let t = send_tcp env.route w (record s { ack = past p }) (tcp_syn + tcp_ack) 0 in
        done (scaled p (record (t.socket) { state = syn_recvd })) t.world)
    else done
        (record s {
          connection_state = disconnected;
          state = closed;
          error = some einval;
          connect_ready = true;
        })
        (finish_closing w s)

-- `recv_res` of an established socket, with the socket after it.
unfoldable pub receive_payload : Packet → Socket → Socket × Result (Unit {0})
receive_payload p s = if payload_len p == 0 then (s, ok tt) else queue_packet p s

-- A FIN in order.
unfoldable pub recv_fin : Env → Packet → World → Socket → Turn
recv_fin env p w s =
    let t = send_ack env.route w (record s { ack = past p }) false in
    done (record (t.socket) { state = close_wait; connection_state = disconnected })
      (finish_closing t.world t.socket)

-- The answer to a packet in order, by `recv_res`.
abbrev pub answer : Env → Packet → World → Socket → Result (Unit {0}) → Turn
answer env p w s panic = record { socket = s; world = w; result = panic }
answer env p w s (err e) = if has p.flags tcp_fin then recv_fin env p w s else done s w
answer env p w s (ok u) =
    if has p.flags tcp_fin
    then recv_fin env p w s
    else after (send_ack env.route w (record s { ack = end_of p }) false)

abbrev pub recv_in_order : Env → Packet → World → Socket → Turn
recv_in_order env p w s = let (queued, stored) = receive_payload p s in answer env p w queued stored

abbrev pub max_ooo_packets : ℕ
max_ooo_packets = 8

unfoldable pub recv_established : Env → Packet → World → Socket → Turn
recv_established env p w s =
    if has p.flags tcp_rst
    then done (record s { state = closed; connection_state = disconnected }) (finish_closing w s)
    else if p.sequence == s.ack
    then recv_in_order env p w (record s { num_ooo_packets = 0 })
    else (let s' = record s { num_ooo_packets = add_word s.num_ooo_packets 1 } in
        if ltb max_ooo_packets s'.num_ooo_packets
        then after (send_ack env.route w s' true)
        else done s' w)

unfoldable pub recv_fin_wait1 : Env → Packet → World → Socket → Turn
unfolding past end_of
recv_fin_wait1 env p w s =
    if p.flags == tcp_fin + tcp_ack
    then after (send_ack env.route w (record s { ack = past p; state = time_wait }) true)
    else if p.flags == tcp_fin
    then after (send_ack env.route w (record s { ack = past p; state = closing }) true)
    else if p.flags == tcp_ack
    then done (record s { ack = end_of p; state = fin_wait2 }) w
    else done s w

-- The end of a data packet in FIN-WAIT-2.
abbrev pub deliver : Env → Packet → World → Socket → Result (Unit {0}) → Turn
deliver env p w s panic = record { socket = s; world = w; result = panic }
deliver env p w s (err e) = done s w
deliver env p w s (ok u) = after (send_ack env.route w (record s { ack = past p }) false)

unfoldable pub recv_fin_wait2 : Env → Packet → World → Socket → Turn
unfolding reset
recv_fin_wait2 env p w s =
    if has p.flags tcp_fin
    then after (send_ack env.route w (record s { ack = past p; state = time_wait }) true)
    else if p.flags == tcp_ack + tcp_rst
    then shut s w
    else if (p.flags == tcp_ack) && not (payload_len p == 0)
    then (let (queued, stored) = queue_packet p s in deliver env p w queued stored)
    else reset env w s

unfoldable pub recv_closing : Packet → World → Socket → Turn
unfolding end_of
recv_closing p w s =
    if p.flags == tcp_ack then done (record s { ack = end_of p; state = time_wait }) w else done s w

abbrev pub alone : Turn → Turn × Option Socket
alone t = (t, none)

-- The `switch` on the state.
unfoldable pub dispatch : Env → Packet → World → Socket → Turn × Option Socket
unfolding recv_listen recv_syn_recvd recv_syn_sent recv_established recv_fin_wait1 recv_fin_wait2
    recv_closing reset
dispatch env p w s = elim s.state [
  | closed ↦ alone (done s w)
  | listen ↦ recv_listen env p w s
  | syn_recvd ↦ alone (recv_syn_recvd env p w s)
  | syn_sent ↦ alone (recv_syn_sent env p w s)
  | established ↦ alone (recv_established env p w s)
  | fin_wait1 ↦ alone (recv_fin_wait1 env p w s)
  | fin_wait2 ↦ alone (recv_fin_wait2 env p w s)
  | close_wait ↦ alone (done s w)
  | last_ack ↦ alone (done s w)
  | closing ↦ alone (recv_closing p w s)
  | time_wait ↦ alone (reset env w s)
]

unfoldable pub recv_packet : Env → Packet → World → Socket → Turn × Option Socket
unfolding is_short note_ack dispatch
recv_packet env p w s = if is_short p then alone (done s w) else dispatch env p w (note_ack p s)
