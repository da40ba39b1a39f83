-- ===== src/Net/Tcp/Sending.antt =====
-- What sending a segment (kernel/net/TCPSocket.cpp, `send_tcp` and `send_ack`) leaves alone.
use nusa_os.Common.{◌≡◌, refl, Bool, not, ◌&&◌, ℕ, Bool-cases, Option-cases, inl, inr, ◌==◌}
use nusa_os.Net.Tcp.{Socket, World, Turn}
use nusa_os.Net.Tcp.Send.{Route, has_route, send_tcp, send_ack, tcp_ack}

-- Two sockets with the same state, connection, id, acknowledgement and received packets.
pub record Kept (s t : Socket) : Type 0 where
  pub state : t.state ≡ s.state
  pub ack : t.ack ≡ s.ack
  pub id : t.id ≡ s.id
  pub receive_queue : t.receive_queue ≡ s.receive_queue
  pub connection_state : t.connection_state ≡ s.connection_state

abbrev kept :
    {s t : Socket}
    → t.state ≡ s.state
    → t.ack ≡ s.ack
    → t.id ≡ s.id
    → t.receive_queue ≡ s.receive_queue
    → t.connection_state ≡ s.connection_state
    → Kept s t
kept a b c d e = record { state = a; ack = b; id = c; receive_queue = d; connection_state = e }

pub send_tcp-Kept :
    (route : Route) (w : World) (s : Socket) (flags size : ℕ)
    → Kept s (send_tcp route w s flags size).socket
unfolding send_tcp nusa_os.Net.Tcp.Send.transmit
send_tcp-Kept route w s flags size = elim (Bool-cases (has_route route)) [
  | inr lost ↦ rw (lost, send_tcp) (kept refl refl refl refl refl)
  | inl found ↦ elim (Option-cases route.alloc_error) [
    | inl fine ↦ rw (found, fine, send_tcp) (kept refl refl refl refl refl)
    | inr (e, failed) ↦ rw (found, failed, send_tcp) (kept refl refl refl refl refl)
  ]
]

pub send_ack-Kept :
    (route : Route) (w : World) (s : Socket) (dupe : Bool) → Kept s (send_ack route w s dupe).socket
unfolding send_ack
send_ack-Kept route w s dupe = elim (Bool-cases (not dupe && (s.last_ack == s.ack))) [
  | inl quiet ↦ rw (quiet, send_ack) (kept refl refl refl refl refl)
  | inr sent ↦ rw (sent, send_ack) (send_tcp-Kept route w s tcp_ack 0)
]
