-- ===== src/Net/Tcp/Receiving.antt =====
-- What `recv_packet` (kernel/net/TCPSocket.cpp) does with data, and where a socket is stuck.
use nusa_os.Common.{
  has, ℕ, ◌+◌, ◌-◌, ◌*◌, ◌≤◌, ◌<◌, ◌≡◌, ◌≢◌, refl, ◌∙◌, sym, ap, subst, true, false, not, ◌&&◌, [],
  ◌∷◌, ◌++◌, none, some, ◌==◌, ltb, if◌then◌else◌, enospc, Result, ok, err, Bool-cases, inl, inr,
  arith, add_word, sub_word, sub_word-exact, word_mod,
}
use nusa_os.Kstd.CircularQueue.{push_back}
use nusa_os.Kstd.CircularQueue.Refine.{IsValid, to_list, push_back_lem}
use nusa_os.Net.Tcp.{last_ack, close_wait, Packet, Socket, World}
use nusa_os.Net.Tcp.Send.{send_ack, tcp_fin, tcp_rst, tcp_ack}
use nusa_os.Net.Tcp.Receive.{
  Env, recv_packet, dispatch, note_ack, is_short, recv_established, recv_in_order, receive_payload,
  recv_fin, answer, deliver, recv_fin_wait2, queue_packet, payload_len, past, end_of, done, after,
  max_ooo_packets,
}
use nusa_os.Net.Tcp.States.{note_ack-state}
use nusa_os.Net.Tcp.Sending.{send_ack-Kept}

-- The payload of a packet that has all of its two headers.
pub payload_len-exact :
    (p : Packet)
    → p.length < word_mod
    → 20 + p.data_offset * 4 ≤ p.length
    → payload_len p ≡ p.length - 20 - p.data_offset * 4
unfolding payload_len
payload_len-exact p small h =
    let first = sub_word-exact p.length 20 small (omega arith) in
    rw first (sub_word-exact (p.length - 20) (p.data_offset * 4) (omega arith) (omega arith))

-- The test on the header's length compares bytes with 32-bit words: a packet of at least 40 bytes
-- whose options reach past its end is accepted, and its payload length wraps round.
pub payload_len-wraps :
    (p : Packet)
    → 40 ≤ p.length
    → p.data_offset < 16
    → p.length < 20 + p.data_offset * 4
    → (is_short p ≡ false) × (word_mod - 60 < payload_len p)
unfolding is_short payload_len sub_word
payload_len-wraps p long offset past_end = (ground arith, omega arith)

-- What `queue_packet` does with room in the queue, and without.
queue_packet-stored :
    (p : Packet) (s : Socket)
    → p.length ≤ 8192
    → s.receive_queue.size < s.receive_queue.capacity
    → queue_packet p s
      ≡ (record s { receive_queue = (push_back none s.receive_queue (some p)).1 }, ok tt)
unfolding queue_packet
queue_packet-stored p s h room = ground arith

queue_packet-dropped :
    (p : Packet) (s : Socket)
    → p.length ≤ 8192
    → s.receive_queue.size ≡ s.receive_queue.capacity
    → queue_packet p s ≡ (record s { error = some enospc }, err enospc)
unfolding queue_packet
queue_packet-dropped p s h full = ground arith

recv_established-at :
    (env : Env) (p : Packet) (w : World) (s : Socket)
    → has p.flags tcp_rst ≡ false
    → p.sequence ≡ s.ack
    → recv_established env p w s ≡ recv_in_order env p w (record s { num_ooo_packets = 0 })
unfolding recv_established
recv_established-at env p w s rst order =
    let same : (p.sequence == s.ack) ≡ true = ground arith in rw (rst, same) refl

receive_payload-queue :
    (p : Packet) (s : Socket) → payload_len p ≢ 0 → receive_payload p s ≡ queue_packet p s
unfolding receive_payload
receive_payload-queue p s some' =
    let payload : (payload_len p == 0) ≡ false = ground arith in rw (payload, receive_payload) refl

recv_in_order-stored :
    (env : Env) (p : Packet) (w : World) (s : Socket)
    → payload_len p ≢ 0
    → p.length ≤ 8192
    → has p.flags tcp_fin ≡ false
    → s.receive_queue.size < s.receive_queue.capacity
    → let s' = record s { receive_queue = (push_back none s.receive_queue (some p)).1 } in
      recv_in_order env p w s ≡ after (send_ack env.route w (record s' { ack = end_of p }) false)
recv_in_order-stored env p w s some' h fin room =
    let s' = record s { receive_queue = (push_back none s.receive_queue (some p)).1 } in
    ap (λ (r : Socket × Result (Unit {0})). answer env p w r.0 r.1)
      (receive_payload-queue p s some' ∙ queue_packet-stored p s h room)
    ∙ ap
        (λ b.
          if b
          then recv_fin env p w s'
          else after (send_ack env.route w (record s' { ack = end_of p }) false))
        fin

recv_in_order-dropped :
    (env : Env) (p : Packet) (w : World) (s : Socket)
    → payload_len p ≢ 0
    → p.length ≤ 8192
    → s.receive_queue.size ≡ s.receive_queue.capacity
    → let s' = record s { error = some enospc } in
      recv_in_order env p w s ≡ (if has p.flags tcp_fin then recv_fin env p w s' else done s' w)
recv_in_order-dropped env p w s some' h full =
    ap (λ (r : Socket × Result (Unit {0})). answer env p w r.0 r.1)
      (receive_payload-queue p s some' ∙ queue_packet-dropped p s h full)

-- In-order data without FIN or RST, in a packet of at most 8192 bytes, for a socket with room in its
-- valid queue: `recv_established` queues the packet behind the others, moves the acknowledgement to
-- the end of the payload, and keeps the state.
pub recv_established-accepts :
    (env : Env) (p : Packet) (w : World) (s : Socket)
    → has p.flags tcp_rst ≡ false
    → has p.flags tcp_fin ≡ false
    → p.sequence ≡ s.ack
    → payload_len p ≢ 0
    → p.length ≤ 8192
    → IsValid s.receive_queue
    → s.receive_queue.size < s.receive_queue.capacity
    → let s' = (recv_established env p w s).socket in
      (s'.ack ≡ end_of p)
      × (s'.state ≡ s.state)
      × IsValid s'.receive_queue
      × (to_list none s'.receive_queue ≡ to_list none s.receive_queue ++ (some p ∷ []))
recv_established-accepts env p w s rst fin order some' h v room =
    let e =
      recv_established-at env p w s rst order
      ∙ recv_in_order-stored env p w (record s { num_ooo_packets = 0 }) some' h fin room in
    let (pushed, v', cap, list) = push_back_lem none s.receive_queue (some p) v room in
    let kept =
      send_ack-Kept env.route w
        (record s {
          num_ooo_packets = 0;
          receive_queue = (push_back none s.receive_queue (some p)).1;
          ack = end_of p;
        })
        false in
    rw e
      (kept.ack, kept.state, subst IsValid (sym kept.receive_queue) v', rw kept.receive_queue list)

-- In-order data that the full queue of an established socket cannot take is not acknowledged:
-- nothing is sent, and the acknowledgement and the queue stay, so that the data can come again.
pub recv_established-drops :
    (env : Env) (p : Packet) (w : World) (s : Socket)
    → has p.flags tcp_rst ≡ false
    → has p.flags tcp_fin ≡ false
    → p.sequence ≡ s.ack
    → payload_len p ≢ 0
    → p.length ≤ 8192
    → s.receive_queue.size ≡ s.receive_queue.capacity
    → let t = recv_established env p w s in
      (t.socket.ack ≡ s.ack) × (t.socket.receive_queue ≡ s.receive_queue) × (t.world ≡ w)
recv_established-drops env p w s rst fin order some' h full =
    rw
      (
        recv_established-at env p w s rst order,
        recv_in_order-dropped env p w (record s { num_ooo_packets = 0 }) some' h full,
        fin,
      )
      (refl, refl, refl)

recv_fin-Kept :
    (env : Env) (p : Packet) (w : World) (s : Socket)
    → let s' = (recv_fin env p w s).socket in
      (s'.receive_queue ≡ s.receive_queue) × (s'.ack ≡ past p) × (s'.state ≡ close_wait)
unfolding recv_fin
recv_fin-Kept env p w s =
    let kept = send_ack-Kept env.route w (record s { ack = past p }) false in
    (kept.receive_queue, kept.ack, refl)

-- In-order data with a FIN, when the queue is full: the data is dropped and yet acknowledged
-- together with the FIN, so that it never comes again.
pub recv_established-loses :
    (env : Env) (p : Packet) (w : World) (s : Socket)
    → has p.flags tcp_rst ≡ false
    → has p.flags tcp_fin ≡ true
    → p.sequence ≡ s.ack
    → payload_len p ≢ 0
    → p.length ≤ 8192
    → s.receive_queue.size ≡ s.receive_queue.capacity
    → let s' = (recv_established env p w s).socket in
      (s'.receive_queue ≡ s.receive_queue) × (s'.ack ≡ past p) × (s'.state ≡ close_wait)
recv_established-loses env p w s rst fin order some' h full =
    rw
      (
        recv_established-at env p w s rst order,
        recv_in_order-dropped env p w (record s { num_ooo_packets = 0 }) some' h full,
        fin,
      )
      (recv_fin-Kept env p w (record s { num_ooo_packets = 0; error = some enospc }))

-- A packet out of order changes neither the acknowledgement nor what was received, nor the state.
pub recv_established-ignores :
    (env : Env) (p : Packet) (w : World) (s : Socket)
    → has p.flags tcp_rst ≡ false
    → p.sequence ≢ s.ack
    → let s' = (recv_established env p w s).socket in
      (s'.ack ≡ s.ack) × (s'.receive_queue ≡ s.receive_queue) × (s'.state ≡ s.state)
unfolding recv_established
recv_established-ignores env p w s rst order =
    let other : (p.sequence == s.ack) ≡ false = ground arith in
    let ooo : ℕ = add_word s.num_ooo_packets 1 in
    let kept = send_ack-Kept env.route w (record s { num_ooo_packets = ooo }) true in
    elim (Bool-cases (ltb max_ooo_packets ooo)) [
      | inl many ↦
          rw (rst, other, many, recv_established) (kept.ack, kept.receive_queue, kept.state)
      | inr few ↦ rw (rst, other, few, recv_established) (refl, refl, refl)
    ]

recv_fin_wait2-deliver :
    (env : Env) (p : Packet) (w : World) (s : Socket)
    → p.flags ≡ tcp_ack
    → payload_len p ≢ 0
    → recv_fin_wait2 env p w s ≡ deliver env p w (queue_packet p s).0 (queue_packet p s).1
unfolding recv_fin_wait2 has
recv_fin_wait2-deliver env p w s flags some' =
    let fin : has p.flags tcp_fin ≡ false = ground arith in
    let rst : (p.flags == tcp_ack + tcp_rst) ≡ false = ground arith in
    let full : ((p.flags == tcp_ack) && not (payload_len p == 0)) ≡ true = ground arith in
    rw (fin, rst, full, recv_fin_wait2) refl

recv_fin_wait2-data :
    (env : Env) (p : Packet) (w : World) (s : Socket)
    → p.flags ≡ tcp_ack
    → payload_len p ≢ 0
    → p.length ≤ 8192
    → s.receive_queue.size < s.receive_queue.capacity
    → recv_fin_wait2 env p w s
      ≡ after (
          send_ack env.route w
            (record s { receive_queue = (push_back none s.receive_queue (some p)).1; ack = past p })
            false)
recv_fin_wait2-data env p w s flags some' h room =
    recv_fin_wait2-deliver env p w s flags some'
    ∙ ap (λ (r : Socket × Result (Unit {0})). deliver env p w r.0 r.1)
        (queue_packet-stored p s h room)

past-eq : (p : Packet) → past p ≡ add_word (end_of p) 1
unfolding past
past-eq p = refl

-- In FIN-WAIT-2 a data packet without FIN moves the acknowledgement 1 past the end of its payload.
pub recv_fin_wait2-overacks :
    (env : Env) (p : Packet) (w : World) (s : Socket)
    → p.flags ≡ tcp_ack
    → payload_len p ≢ 0
    → p.length ≤ 8192
    → s.receive_queue.size < s.receive_queue.capacity
    → (recv_fin_wait2 env p w s).socket.ack ≡ add_word (end_of p) 1
recv_fin_wait2-overacks env p w s flags some' h room =
    rw (recv_fin_wait2-data env p w s flags some' h room) (
      (send_ack-Kept env.route w
        (record s { receive_queue = (push_back none s.receive_queue (some p)).1; ack = past p })
        false).ack
      ∙ past-eq p)

dispatch-last_ack :
    (env : Env) (p : Packet) (w : World) (s : Socket)
    → s.state ≡ last_ack
    → dispatch env p w s ≡ (done s w, none)
unfolding dispatch
dispatch-last_ack env p w s e = ground arith

-- Whatever arrives, a socket that waits for the last ACK stays, and what the sockets share, the
-- table of closing sockets with it, is as before.
pub recv_packet-last_ack :
    (env : Env) (p : Packet) (w : World) (s : Socket)
    → s.state ≡ last_ack
    → let (t, made) = recv_packet env p w s in
      (t.socket.state ≡ last_ack) × (t.world ≡ w) × (made ≡ none)
unfolding recv_packet
recv_packet-last_ack env p w s e = elim (Bool-cases (is_short p)) [
  | inl short ↦ rw (short, recv_packet) (e, refl, refl)
  | inr long ↦
      let same = note_ack-state p s ∙ e in
      rw (long, recv_packet, dispatch-last_ack env p w (note_ack p s) same) (same, refl, refl)
]
