-- ===== src/Net/Tcp/States.antt =====
-- The state machine of `recv_packet` (kernel/net/TCPSocket.cpp).
use nusa_os.Common.{
  ==→eq, not, ◌&&◌, has, ◌≡◌, refl, ◌∙◌, sym, subst, true, false, Option, none, ◌==◌, Result, ok,
  err, panic,
}
use nusa_os.Net.Tcp.{
  State, closed, listen, syn_recvd, syn_sent, established, fin_wait1, fin_wait2, close_wait,
  last_ack, closing, time_wait, Packet, Socket, World, Turn,
}
use nusa_os.Net.Tcp.Receive.{
  Env, payload_len, recv_packet, dispatch, note_ack, is_short, recv_listen, recv_syn_recvd,
  recv_syn_sent, recv_established, recv_in_order, receive_payload, recv_fin, answer, deliver,
  recv_fin_wait1, recv_fin_wait2, recv_closing, reset, done, queue_packet,
}
use nusa_os.Net.Tcp.Follows.{
  Follows, Turns, stays_closed, stays_listen, stays_syn_recvd, stays_established, stays_fin_wait1,
  stays_fin_wait2, stays_close_wait, stays_last_ack, stays_closing, opened, answered, crossed,
  refused, rejected, aborted, finished, fin_and_ack, fin_only, ack_only, last_fin, cut_off,
  last_ack_seen, expired, if_each, ne_of_test, left_of_and, if_both, stay, send_ack-stays,
  option_each, result_each, direction_each, scaled-state, queue_packet-state,
}

recv_listen-Follows :
    (env : Env) (p : Packet) (w : World) (s : Socket)
    → s.state ≡ listen
    → Turns p.flags listen (recv_listen env p w s).0
unfolding recv_listen
recv_listen-Follows env p w s e =
    let kept = stay p.flags listen s e stays_listen in
    if_both (λ (t : Turn × Option Socket). Turns p.flags listen t.0) _ kept
      (result_each (λ (t : Turn × Option Socket). Turns p.flags listen t.0) _ kept (λ _. kept)
        (λ _. kept))

recv_syn_recvd-Follows :
    (env : Env) (p : Packet) (w : World) (s : Socket)
    → s.state ≡ syn_recvd
    → Turns p.flags syn_recvd (recv_syn_recvd env p w s)
unfolding recv_syn_recvd
recv_syn_recvd-Follows env p w s e =
    let P : Turn → Type 0 = Turns p.flags syn_recvd in
    if_each P (p.flags == 16)
      (λ test.
        let ack = ==→eq p.flags 16 test in
        direction_each P s.direction
          (option_each P s.origin (rejected ack)
            (λ o. if_both P (env.alive o) (opened ack) (rejected ack)))
          (opened ack) (rejected ack))
      (λ test. stay p.flags syn_recvd s e (stays_syn_recvd (ne_of_test p.flags 16 test)))

recv_syn_sent-Follows :
    (env : Env) (p : Packet) (w : World) (s : Socket)
    → s.state ≡ syn_sent
    → Turns p.flags syn_sent (recv_syn_sent env p w s)
unfolding recv_syn_sent
recv_syn_sent-Follows env p w s e =
    let P : Turn → Type 0 = Turns p.flags syn_sent in
    if_each P (p.flags == 18)
      (λ both.
        subst (Follows p.flags syn_sent) (sym (scaled-state p _))
          (answered (==→eq p.flags 18 both)))
      (λ not_both.
        if_each P (p.flags == 2)
          (λ syn.
            subst (Follows p.flags syn_sent) (sym (scaled-state p _))
              (crossed (==→eq p.flags 2 syn)))
          (λ no_syn. refused (ne_of_test p.flags 18 not_both) (ne_of_test p.flags 2 no_syn)))

receive_payload-state : (p : Packet) (s : Socket) → (receive_payload p s).0.state ≡ s.state
unfolding receive_payload
receive_payload-state p s =
    if_both (λ (t : Socket × Result (Unit {0})). t.0.state ≡ s.state) _ refl
      (queue_packet-state p s)

recv_fin-state :
    (env : Env) (p : Packet) (w : World) (s : Socket)
    → (recv_fin env p w s).socket.state ≡ close_wait
unfolding recv_fin
recv_fin-state env p w s = refl

answer-Follows :
    (env : Env) (p : Packet) (w : World) (s : Socket) (r : Result (Unit {0}))
    → s.state ≡ established
    → has p.flags 4 ≡ false
    → Turns p.flags established (answer env p w s r)
answer-Follows env p w s panic e no_rst = stay p.flags established s e (stays_established no_rst)
answer-Follows env p w s (err c) e no_rst =
    if_each (Turns p.flags established) (has p.flags 1)
      (λ fin.
        subst (Follows p.flags established) (sym (recv_fin-state env p w s)) (finished no_rst fin))
      (λ no_fin. stay p.flags established s e (stays_established no_rst))
answer-Follows env p w s (ok u) e no_rst =
    if_each (Turns p.flags established) (has p.flags 1)
      (λ fin.
        subst (Follows p.flags established) (sym (recv_fin-state env p w s)) (finished no_rst fin))
      (λ no_fin.
        send_ack-stays p.flags established env.route w _ false
          (stay p.flags established s e (stays_established no_rst)))

recv_in_order-Follows :
    (env : Env) (p : Packet) (w : World) (s : Socket)
    → s.state ≡ established
    → has p.flags 4 ≡ false
    → Turns p.flags established (recv_in_order env p w s)
recv_in_order-Follows env p w s e no_rst =
    answer-Follows env p w (receive_payload p s).0 (receive_payload p s).1
      (receive_payload-state p s ∙ e) no_rst

deliver-Follows :
    (env : Env) (p : Packet) (w : World) (s : Socket) (r : Result (Unit {0}))
    → s.state ≡ fin_wait2
    → p.flags ≡ 16
    → Turns p.flags fin_wait2 (deliver env p w s r)
deliver-Follows env p w s panic e ack = stay p.flags fin_wait2 s e (stays_fin_wait2 ack)
deliver-Follows env p w s (err c) e ack = stay p.flags fin_wait2 s e (stays_fin_wait2 ack)
deliver-Follows env p w s (ok u) e ack =
    send_ack-stays p.flags fin_wait2 env.route w _ false
      (stay p.flags fin_wait2 s e (stays_fin_wait2 ack))

recv_established-Follows :
    (env : Env) (p : Packet) (w : World) (s : Socket)
    → s.state ≡ established
    → Turns p.flags established (recv_established env p w s)
unfolding recv_established
recv_established-Follows env p w s e =
    let P : Turn → Type 0 = Turns p.flags established in
    if_each P (has p.flags 4) aborted (λ no_rst.
      let kept = stay p.flags established s e (stays_established no_rst) in
      if_both P (p.sequence == s.ack) (recv_in_order-Follows env p w _ e no_rst)
        (if_both P _ (send_ack-stays p.flags established env.route w _ true kept) kept))

recv_fin_wait1-Follows :
    (env : Env) (p : Packet) (w : World) (s : Socket)
    → s.state ≡ fin_wait1
    → Turns p.flags fin_wait1 (recv_fin_wait1 env p w s)
unfolding recv_fin_wait1
recv_fin_wait1-Follows env p w s e =
    let P : Turn → Type 0 = Turns p.flags fin_wait1 in
    if_each P (p.flags == 17)
      (λ both.
        send_ack-stays p.flags fin_wait1 env.route w _ true (fin_and_ack (==→eq p.flags 17 both)))
      (λ not_both.
        if_each P (p.flags == 1)
          (λ fin.
            send_ack-stays p.flags fin_wait1 env.route w _ true (fin_only (==→eq p.flags 1 fin)))
          (λ no_fin.
            if_each P (p.flags == 16) (λ ack. ack_only (==→eq p.flags 16 ack))
              (λ no_ack. stay p.flags fin_wait1 s e (
                stays_fin_wait1 (ne_of_test p.flags 17 not_both) (ne_of_test p.flags 1 no_fin)
                  (ne_of_test p.flags 16 no_ack)))))

recv_fin_wait2-Follows :
    (env : Env) (p : Packet) (w : World) (s : Socket)
    → s.state ≡ fin_wait2
    → Turns p.flags fin_wait2 (recv_fin_wait2 env p w s)
unfolding recv_fin_wait2
recv_fin_wait2-Follows env p w s e =
    let P : Turn → Type 0 = Turns p.flags fin_wait2 in
    if_each P (has p.flags 1)
      (λ fin. send_ack-stays p.flags fin_wait2 env.route w _ true (last_fin fin))
      (λ no_fin. if_both P _ (cut_off no_fin) (
        if_each P ((p.flags == 16) && not (payload_len p == 0))
          (λ data_ack.
            deliver-Follows env p w (queue_packet p s).0 (queue_packet p s).1
              (queue_packet-state p s ∙ e)
              (==→eq p.flags 16 (left_of_and (p.flags == 16) (not (payload_len p == 0)) data_ack)))
          (λ other. cut_off no_fin)))

recv_closing-Follows :
    (p : Packet) (w : World) (s : Socket)
    → s.state ≡ closing
    → Turns p.flags closing (recv_closing p w s)
unfolding recv_closing
recv_closing-Follows p w s e =
    if_each (Turns p.flags closing) (p.flags == 16) (λ ack. last_ack_seen (==→eq p.flags 16 ack))
      (λ no_ack. stay p.flags closing s e (stays_closing (ne_of_test p.flags 16 no_ack)))

dispatch-Follows :
    (env : Env) (p : Packet) (w : World) (s : Socket)
    → Follows p.flags s.state (dispatch env p w s).0.socket.state
unfolding dispatch
dispatch-Follows env p w s = go s.state refl
  where
    go :
        (a : State)
        → s.state ≡ a
        → Follows p.flags a
            (elim a as (λ _. Turn × Option Socket) [
              | closed ↦ (done s w, none)
              | listen ↦ recv_listen env p w s
              | syn_recvd ↦ (recv_syn_recvd env p w s, none)
              | syn_sent ↦ (recv_syn_sent env p w s, none)
              | established ↦ (recv_established env p w s, none)
              | fin_wait1 ↦ (recv_fin_wait1 env p w s, none)
              | fin_wait2 ↦ (recv_fin_wait2 env p w s, none)
              | close_wait ↦ (done s w, none)
              | last_ack ↦ (done s w, none)
              | closing ↦ (recv_closing p w s, none)
              | time_wait ↦ (reset env w s, none)
            ]).0.socket.state
    go closed e = stay p.flags closed s e stays_closed
    go listen e = recv_listen-Follows env p w s e
    go syn_recvd e = recv_syn_recvd-Follows env p w s e
    go syn_sent e = recv_syn_sent-Follows env p w s e
    go established e = recv_established-Follows env p w s e
    go fin_wait1 e = recv_fin_wait1-Follows env p w s e
    go fin_wait2 e = recv_fin_wait2-Follows env p w s e
    go close_wait e = stay p.flags close_wait s e stays_close_wait
    go last_ack e = stay p.flags last_ack s e stays_last_ack
    go closing e = recv_closing-Follows p w s e
    go time_wait e = expired

pub note_ack-state : (p : Packet) (s : Socket) → (note_ack p s).state ≡ s.state
unfolding note_ack
note_ack-state p s = if_both (λ (t : Socket). t.state ≡ s.state) _ refl refl

-- A packet that is too short leaves the state of the socket alone. Any other one keeps it or changes
-- it by the flags of the packet as `Follows` says: only SYN with ACK to a sent SYN, or ACK alone to
-- an answered one, makes a socket established.
pub recv_packet-Follows :
    (env : Env) (p : Packet) (w : World) (s : Socket)
    → (is_short p ≡ true → (recv_packet env p w s).0.socket.state ≡ s.state)
      × (is_short p ≡ false → Follows p.flags s.state (recv_packet env p w s).0.socket.state)
unfolding recv_packet
recv_packet-Follows env p w s = (
  λ short. rw (short) refl,
  λ long. rw (long) (
      subst (λ a. Follows p.flags a (dispatch env p w (note_ack p s)).0.socket.state)
        (note_ack-state p s) (dispatch-Follows env p w (note_ack p s))),
)
