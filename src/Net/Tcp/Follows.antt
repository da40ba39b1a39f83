-- ===== src/Net/Tcp/Follows.antt =====
-- The transitions of a socket in `recv_packet` (kernel/net/TCPSocket.cpp), and how they pass through
-- its tests and calls.
use nusa_os.Common.{
  ℕ, ==_refl, ◌≢◌, ap, ◌&&◌, has, ◌≡◌, refl, sym, subst, Bool, true, false, Option, none, some,
  if◌then◌else◌, ◌==◌, Errno, Result, ok, err, panic,
}
use nusa_os.Net.Tcp.{
  State, closed, listen, syn_recvd, syn_sent, established, fin_wait1, fin_wait2, close_wait,
  last_ack, closing, time_wait, Direction, incoming, outgoing, undirected, Packet, Socket, World,
  Turn,
}
use nusa_os.Net.Tcp.Send.{Route, send_ack}
use nusa_os.Net.Tcp.Receive.{scaled, queue_packet, window_scale_of}
use nusa_os.Net.Tcp.Sending.{send_ack-Kept}

-- The transitions that a received packet makes, by its flags: FIN is 1, SYN 2, RST 4 and ACK 16.
-- A state may only be kept where the flags call for no transition.
pub data Follows (flags : ℕ) : State → State → Type 0 where
  stays_closed : Follows flags closed closed
  stays_listen : Follows flags listen listen
  stays_syn_recvd : flags ≢ 16 → Follows flags syn_recvd syn_recvd
  stays_established : has flags 4 ≡ false → Follows flags established established
  stays_fin_wait1 : flags ≢ 17 → flags ≢ 1 → flags ≢ 16 → Follows flags fin_wait1 fin_wait1
  stays_fin_wait2 : flags ≡ 16 → Follows flags fin_wait2 fin_wait2
  stays_close_wait : Follows flags close_wait close_wait
  stays_last_ack : Follows flags last_ack last_ack
  stays_closing : flags ≢ 16 → Follows flags closing closing
  opened : flags ≡ 16 → Follows flags syn_recvd established
  answered : flags ≡ 18 → Follows flags syn_sent established
  crossed : flags ≡ 2 → Follows flags syn_sent syn_recvd
  refused : flags ≢ 18 → flags ≢ 2 → Follows flags syn_sent closed
  rejected : flags ≡ 16 → Follows flags syn_recvd closed
  aborted : has flags 4 ≡ true → Follows flags established closed
  finished : has flags 4 ≡ false → has flags 1 ≡ true → Follows flags established close_wait
  fin_and_ack : flags ≡ 17 → Follows flags fin_wait1 time_wait
  fin_only : flags ≡ 1 → Follows flags fin_wait1 closing
  ack_only : flags ≡ 16 → Follows flags fin_wait1 fin_wait2
  last_fin : has flags 1 ≡ true → Follows flags fin_wait2 time_wait
  cut_off : has flags 1 ≡ false → Follows flags fin_wait2 closed
  last_ack_seen : flags ≡ 16 → Follows flags closing time_wait
  expired : Follows flags time_wait closed

-- The two branches of a test, each with what the test says there.
pub if_each {ℓ κ} :
    {A : Type ℓ} (P : A → Type κ) (b : Bool) {x y : A}
    → (b ≡ true → P x)
    → (b ≡ false → P y)
    → P (if b then x else y)
if_each P true p q = p refl
if_each P false p q = q refl

pub ne_of_test : (a b : ℕ) → (a == b) ≡ false → a ≢ b
ne_of_test a b e same = cc (==_refl b, ap (λ c. c == b) same)

pub left_of_and : (a b : Bool) → (a && b) ≡ true → a ≡ true
left_of_and true b h = refl
left_of_and false b h = cc

pub if_both {ℓ κ} :
    {A : Type ℓ} (P : A → Type κ) (b : Bool) {x y : A} → P x → P y → P (if b then x else y)
if_both P true p q = p
if_both P false p q = q

-- A turn whose socket ends in a state that follows `a`.
abbrev pub Turns : ℕ → State → Turn → Type 0
Turns flags a t = Follows flags a t.socket.state

pub stay : (n : ℕ) (a : State) (s : Socket) → s.state ≡ a → Follows n a a → Follows n a s.state
stay n a s e f = subst (Follows n a) (sym e) f

pub send_ack-stays :
    (n : ℕ) (a : State) (route : Route) (w : World) (s : Socket) (dupe : Bool)
    → Follows n a s.state
    → Follows n a (send_ack route w s dupe).socket.state
send_ack-stays n a route w s dupe f =
    subst (Follows n a) (sym (send_ack-Kept route w s dupe).state) f

pub option_each {ℓ κ λ'} :
    {A : Type ℓ} {B : Type λ'} (P : A → Type κ) (o : Option B) {x : A} {f : B → A}
    → P x
    → ((b : B) → P (f b))
    → P (elim o [ none ↦ x | some b ↦ f b ])
option_each P none p q = p
option_each P (some b) p q = q b

pub result_each {ℓ κ} :
    {A : Type ℓ} (P : A → Type κ) (r : Result (Unit {0})) {x : A} {f : Unit {0} → A} {g : Errno → A}
    → P x
    → ((e : Errno) → P (g e))
    → ((u : Unit {0}) → P (f u))
    → P (elim r [ panic ↦ x | err e ↦ g e | ok u ↦ f u ])
result_each P panic p q r = p
result_each P (err e) p q r = q e
result_each P (ok u) p q r = r u

pub direction_each {ℓ κ} :
    {A : Type ℓ} (P : A → Type κ) (d : Direction) {x y z : A}
    → P x
    → P y
    → P z
    → P (elim d [ incoming ↦ x | outgoing ↦ y | undirected ↦ z ])
direction_each P incoming p q r = p
direction_each P outgoing p q r = q
direction_each P undirected p q r = r

pub scaled-state : (p : Packet) (s : Socket) → (scaled p s).state ≡ s.state
unfolding scaled
scaled-state p s =
    option_each (λ (t : Socket). t.state ≡ s.state) (window_scale_of p) refl (λ _. refl)

pub queue_packet-state : (p : Packet) (s : Socket) → (queue_packet p s).0.state ≡ s.state
unfolding queue_packet
queue_packet-state p s =
    if_both (λ (t : Socket × Result (Unit {0})). t.0.state ≡ s.state) _
      (if_both (λ (t : Socket × Result (Unit {0})). t.0.state ≡ s.state) _ refl refl) refl
