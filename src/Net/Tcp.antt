-- ===== src/Net/Tcp.antt =====
-- kernel/net/TCPSocket.h with the parts of Socket.h and IPSocket.h that TCP uses: what a TCP socket
-- keeps, and what the sockets share.
-- A socket is known by its address, a number. Addresses of the network are 32-bit numbers. A queue
-- of `kstd::queue` is the list of its elements, and of an unacknowledged packet the sequence number
-- is kept, which is what the code reads of it.
pub mod Id
pub mod Bind
pub mod Send
pub mod Receive
pub mod Binding
pub mod Sending
pub mod Receiving
pub mod Follows
pub mod States
mod Examples
use nusa_os.Common.{ℕ, Bool, true, false, List, [], ◌∷◌, Option, none, some, Errno, Result}
use nusa_os.Kstd.Map.{Map, leaf}
use nusa_os.Kstd.CircularQueue.{CircularQueue, make}
use Id.{SocketId}

-- `TCPSocket::State`
pub data State : Type 0 where
  closed listen syn_recvd syn_sent established fin_wait1 : State
  fin_wait2 close_wait last_ack closing time_wait : State

-- `Socket::ConnectionState`, as far as TCP sets it
pub data ConnectionState : Type 0 where
  disconnected listening connecting connected : ConnectionState

pub data Direction : Type 0 where
  incoming outgoing undirected : Direction

-- What is read of a received IPv4 packet and of the TCP segment in it: `bytes` are those after the
-- fixed part of the TCP header.
pub record Packet : Type 0 where
  pub length : ℕ
  pub source_addr : ℕ
  pub dest_addr : ℕ
  pub source_port : ℕ
  pub dest_port : ℕ
  pub sequence : ℕ
  pub ack : ℕ
  pub data_offset : ℕ
  pub flags : ℕ
  pub bytes : List ℕ

-- A segment handed to an adapter.
pub record Segment : Type 0 where
  pub from : SocketId
  pub flags : ℕ
  pub sequence : ℕ
  pub ack : ℕ
  pub payload_size : ℕ

pub record Socket : Type 0 where
  pub state : State
  pub id : SocketId
  pub bound : Bool
  pub bound_addr : ℕ
  pub bound_port : ℕ
  pub dest_addr : ℕ
  pub dest_port : ℕ
  pub sequence : ℕ
  pub ack : ℕ
  pub last_ack : ℕ
  pub window_scale : ℕ
  pub num_ooo_packets : ℕ
  pub unacked_packets : List ℕ
  pub connect_ready : Bool
  pub direction : Direction
  pub origin : Option ℕ
  pub connection_state : ConnectionState
  pub client_backlog : List ℕ
  pub accept_ready : Bool
  pub receive_queue : CircularQueue (Option Packet)
  pub error : Option Errno

-- `s_sockets` and `s_closing_sockets`, and the segments sent, latest first.
pub record World : Type 0 where
  pub sockets : Map SocketId ℕ
  pub closing_sockets : Map SocketId ℕ
  pub sent : List Segment

-- A socket and what it shares, after an operation on it.
pub record Turn : Type 0 where
  pub socket : Socket
  pub world : World
  pub result : Result (Unit {0})

pub new_socket : Socket
new_socket = record {
  state = closed;
  id = record { my_ip = 0; my_port = 0; their_ip = 0; their_port = 0 };
  bound = false;
  bound_addr = 0;
  bound_port = 0;
  dest_addr = 0;
  dest_port = 0;
  sequence = 0;
  ack = 0;
  last_ack = 0;
  window_scale = 0;
  num_ooo_packets = 0;
  unacked_packets = [];
  connect_ready = false;
  direction = undirected;
  origin = none;
  connection_state = disconnected;
  client_backlog = [];
  accept_ready = false;
  receive_queue = make none 16;
  error = none;
}
