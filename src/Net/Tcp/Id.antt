-- ===== src/Net/Tcp/Id.antt =====
-- `TCPSocket::ID` (kernel/net/TCPSocket.h): the key of the tables of sockets, with its order.
use nusa_os.Common.{ℕ, ◌≡◌, Bool, true, false, ◌&&◌, ltb, ◌==◌, if◌then◌else◌, arith}
use mathlib.Core.Logic.{◌↔◌}
use nusa_os.Kstd.Map.Key.{KeyOrder}

pub record SocketId : Type 0 where
  pub my_ip : ℕ
  pub my_port : ℕ
  pub their_ip : ℕ
  pub their_port : ℕ

unfoldable pub eq_id : SocketId → SocketId → Bool
eq_id a b =
    (a.my_ip == b.my_ip)
    && (a.my_port == b.my_port)
    && (a.their_ip == b.their_ip)
    && (a.their_port == b.their_port)

unfoldable pub lt_id : SocketId → SocketId → Bool
lt_id a b =
    if a.my_ip == b.my_ip
    then if a.my_port == b.my_port
      then if a.their_ip == b.their_ip
        then ltb a.their_port b.their_port
        else ltb a.their_ip b.their_ip
      else ltb a.my_port b.my_port
    else ltb a.my_ip b.my_ip

pub eq_id_refl : (a : SocketId) → eq_id a a ≡ true
unfolding eq_id
eq_id_refl a = ground arith

eq_id-eq : (a b : SocketId) → eq_id a b ≡ true → a ≡ b
unfolding eq_id
eq_id-eq a b h =
    let e1 : a.my_ip ≡ b.my_ip = ground arith in
    let e2 : a.my_port ≡ b.my_port = ground arith in
    let e3 : a.their_ip ≡ b.their_ip = ground arith in
    let e4 : a.their_port ≡ b.their_port = ground arith in cc

pub eq_id_iff : (a b : SocketId) → (eq_id a b ≡ true) ↔ (a ≡ b)
eq_id_iff a b = (eq_id-eq a b, λ e. cc (eq_id_refl a))

pub lt_id_irrefl : (a : SocketId) → lt_id a a ≡ false
unfolding lt_id
lt_id_irrefl a = ground arith

pub lt_id_trans : (a b c : SocketId) → lt_id a b ≡ true → lt_id b c ≡ true → lt_id a c ≡ true
unfolding lt_id
lt_id_trans a b c h k = ground arith

pub lt_id_total : (a b : SocketId) → lt_id a b ≡ false → eq_id b a ≡ false → lt_id b a ≡ true
unfolding lt_id eq_id
lt_id_total a b h k = ground arith

instance abbrev pub id_order : KeyOrder SocketId
id_order = record {
  eq = eq_id;
  lt = lt_id;
  eq_iff = eq_id_iff;
  lt_irrefl = lt_id_irrefl;
  lt_trans = lt_id_trans;
  lt_total = lt_id_total;
}
