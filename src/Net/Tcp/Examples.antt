-- ===== src/Net/Tcp/Examples.antt =====
-- TCP sockets (kernel/net/TCPSocket.cpp) on concrete packets.
use native.Mathlib.Omega.{arith}
use nusa_os.Common.{
  has, ℕ, replicate, ◌≡◌, refl, true, false, [], ◌∷◌, ◌++◌, none, some, Option, if◌then◌else◌,
  sub_word,
}
use nusa_os.Kstd.CircularQueue.{CircularQueue, make}
use nusa_os.Kstd.CircularQueue.Refine.{to_list, make-IsValid}
use nusa_os.Kstd.CircularQueue.Refine
use nusa_os.Kstd.Map.{Map, leaf, node, get, contains}
use nusa_os.Kstd.Map.Refine.{IsValid}
use nusa_os.Net.Tcp.{State, established, Packet, Socket, World, new_socket}
use nusa_os.Net.Tcp.Id.{SocketId, id_order, eq_id}
use nusa_os.Net.Tcp.Bind.{key, do_bind}
use nusa_os.Net.Tcp.Receive.{Env, is_short, recv_packet, recv_established, payload_len, end_of}
use nusa_os.Net.Tcp.Binding.{at_port, do_bind-registers}
use nusa_os.Net.Tcp.Receiving.{recv_established-accepts}
use nusa_os.Net.Tcp.Follows.{Follows}
use nusa_os.Net.Tcp.States.{recv_packet-Follows}

abbrev no_sockets : Map SocketId ℕ
no_sockets = record { root = leaf; size = 0 }

no_sockets-IsValid : IsValid no_sockets
no_sockets-IsValid = record { balanced = tt; sorted = tt; counted = refl }

abbrev world : World
world = record { sockets = no_sockets; closing_sockets = no_sockets; sent = [] }

abbrev env : Env
env = record {
  self = 1;
  route = record {
    mac = true;
    adapter = some (record { ipv4_address = 167772161; mtu = 1500 });
    alloc_error = none;
  };
  alive = λ _. true;
  fresh = 2;
  random_port = 50000;
  random_sequence = 1000;
}

-- A segment of 50 bytes: 10 bytes of payload after two headers of 20.
abbrev packet : ℕ → Packet
packet flags = record {
  length = 50;
  source_addr = 167772162;
  dest_addr = 167772161;
  source_port = 80;
  dest_port = 50000;
  sequence = 7000;
  ack = 1001;
  data_offset = 5;
  flags = flags;
  bytes = [];
}

abbrev socket : State → Socket
socket state = record new_socket { state = state; ack = 7000; receive_queue = make none 16 }

abbrev full_queue : CircularQueue (Option Packet)
full_queue = record {
  storage = replicate 16 (some (packet 16));
  capacity = 16;
  size = 16;
  front = 0;
  back = 15;
}

abbrev full_socket : Socket
full_socket = record new_socket { state = established; ack = 7000; receive_queue = full_queue }

do_bind-registers_example :
    let t = do_bind 1 50000 world new_socket in
    IsValid t.world.sockets
    × (get t.socket.id no_sockets ≡ none)
    × (get (key 0 50000 0 0) t.world.sockets ≡ (
        if eq_id t.socket.id (key 0 50000 0 0) then some 1 else get (key 0 50000 0 0) no_sockets))
    × (t.socket.bound ≡ true)
    × (t.socket.id ≡ at_port t.socket t.socket.bound_port)
unfolding do_bind contains new_socket nusa_os.Kstd.Map.find_node
do_bind-registers_example =
    do_bind-registers 1 50000 world new_socket (key 0 50000 0 0) no_sockets-IsValid refl

recv_packet-Follows_example :
    (is_short (packet 16) ≡ true
      → (recv_packet env (packet 16) world (socket established)).0.socket.state ≡ established)
    × (is_short (packet 16) ≡ false
        → Follows
            (packet 16).flags
            established
            (recv_packet env (packet 16) world (socket established)).0.socket.state)
recv_packet-Follows_example = recv_packet-Follows env (packet 16) world (socket established)

recv_established-accepts_example :
    let s' = (recv_established env (packet 24) world (socket established)).socket in
    (s'.ack ≡ end_of (packet 24))
    × (s'.state ≡ established)
    × Refine.IsValid s'.receive_queue
    × (to_list none s'.receive_queue ≡ to_list none (make none 16) ++ (some (packet 24) ∷ []))
unfolding has payload_len sub_word make
recv_established-accepts_example =
    recv_established-accepts env (packet 24) world (socket established) refl refl refl
      (λ e. absurd (omega arith)) (omega arith) (make-IsValid none 16 (omega arith)) (omega arith)
