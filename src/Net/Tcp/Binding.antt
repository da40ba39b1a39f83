-- ===== src/Net/Tcp/Binding.antt =====
-- What binding a TCP socket (kernel/net/TCPSocket.cpp) does to the table of sockets.
use nusa_os.Common.{
  ℕ_discrete, ◌≢◌, ℕ, zero, suc, ◌+◌, ◌≤◌, ◌<◌, ◌≡◌, refl, ◌∙◌, sym, ap, subst, true, false, none,
  some, eaddrinuse, ok, err, ◌==◌, if◌then◌else◌, Bool-cases, Option-cases, inl, inr, arith,
  eq_of_some,
}
use mathlib.Core.Logic.{◌↔◌}
use nusa_os.Kstd.Map.{Map, get, contains, assign}
use nusa_os.Kstd.Map.Refine.{IsValid}
use nusa_os.Kstd.Map.Assign.{get-assign, contains-none}
use nusa_os.Net.Tcp.{Socket, World}
use nusa_os.Net.Tcp.Id.{SocketId, id_order, eq_id}
use nusa_os.Net.Tcp.Bind.{
  key, search_port, choose_port, bind_port, do_bind, first_ephemeral, ephemerals,
}

-- The port that a socket is bound to has its entry.
abbrev pub at_port : Socket → ℕ → SocketId
at_port s port = key s.bound_addr port s.dest_addr s.dest_port

pub search_port-some :
    (m : Map SocketId ℕ) (s : Socket) (n port p : ℕ)
    → search_port m s n port ≡ some p
    → (port ≤ p) × (p < port + n) × (contains (at_port s p) m ≡ false)
unfolding search_port
search_port-some m s zero port p e = cc
search_port-some m s (suc n) port p e = elim (Bool-cases (contains (at_port s port) m)) [
  | inl taken ↦
      let (a, b, c) = search_port-some m s n (port + 1) p (rw taken at e) in
      (omega arith, omega arith, c)
  | inr free ↦
      let same : port ≡ p = eq_of_some (rw free at e) in
      (omega arith, omega arith, subst (λ q. contains (at_port s q) m ≡ false) same free)
]

pub search_port-none :
    (m : Map SocketId ℕ) (s : Socket) (n port p : ℕ)
    → search_port m s n port ≡ none
    → port ≤ p
    → p < port + n
    → contains (at_port s p) m ≡ true
unfolding search_port
search_port-none m s zero port p e h k = absurd (omega arith)
search_port-none m s (suc n) port p e h k = elim (Bool-cases (contains (at_port s port) m)) [
  | inl taken ↦
      let rest = rw taken at e in
      elim (ℕ_discrete port p) [
        | yes same ↦ subst (λ q. contains (at_port s q) m ≡ true) same taken
        | no other ↦ search_port-none m s n (port + 1) p rest (omega arith) (omega arith)
      ]
  | inr free ↦ cc
]

bind_port-free :
    (self : ℕ) (w : World) (s : Socket) (port : ℕ)
    → contains (at_port s port) w.sockets ≡ false
    → bind_port self w s port ≡ record {
      socket = record s { bound_port = port; bound = true; id = at_port s port };
      world = record w { sockets = assign (at_port s port) self w.sockets };
      result = ok tt;
    }
unfolding bind_port
bind_port-free self w s port h = rw h refl

bind_port-taken :
    (self : ℕ) (w : World) (s : Socket) (port : ℕ)
    → contains (at_port s port) w.sockets ≡ true
    → bind_port self w s port ≡ record {
      socket = record s { bound_port = port; error = some eaddrinuse };
      world = w;
      result = err eaddrinuse;
    }
unfolding bind_port
bind_port-taken self w s port h = rw h refl

do_bind-at :
    (self random : ℕ) (w : World) (s : Socket) (port : ℕ)
    → choose_port w.sockets s random ≡ some port
    → do_bind self random w s ≡ bind_port self w s port
unfolding do_bind
do_bind-at self random w s port e = rw (e, do_bind) refl

do_bind-nowhere :
    (self random : ℕ) (w : World) (s : Socket)
    → choose_port w.sockets s random ≡ none
    → do_bind self random w s
      ≡ record { socket = record s { error = some eaddrinuse }; world = w; result = err eaddrinuse }
unfolding do_bind
do_bind-nowhere self random w s e = rw (e, do_bind) refl

not_ok : {b : Unit {0}} → err eaddrinuse ≢ ok b
not_ok e = cc

-- A successful `do_bind` registers the socket under an id that was free, the one made of its
-- addresses and ports, and changes no other entry; the table stays valid.
pub do_bind-registers :
    (self random : ℕ) (w : World) (s : Socket) (j : SocketId)
    → IsValid w.sockets
    → let t = do_bind self random w s in
      t.result ≡ ok tt
      → IsValid t.world.sockets
        × (get t.socket.id w.sockets ≡ none)
        × (get j t.world.sockets ≡ (if eq_id t.socket.id j then some self else get j w.sockets))
        × (t.socket.bound ≡ true)
        × (t.socket.id ≡ at_port t.socket t.socket.bound_port)
do_bind-registers self random w s j v done = elim (Option-cases (choose_port w.sockets s random)) [
  | inl gone ↦
      let bad = do_bind-nowhere self random w s gone in
      absurd (not_ok (ap (λ t. t.result) (sym bad) ∙ done))
  | inr (port, e) ↦ elim (Bool-cases (contains (at_port s port) w.sockets)) [
    | inl taken ↦
        let bad = do_bind-at self random w s port e ∙ bind_port-taken self w s port taken in
        absurd (not_ok (ap (λ t. t.result) (sym bad) ∙ done))
    | inr free ↦
        let good = do_bind-at self random w s port e ∙ bind_port-free self w s port free in
        let (v', now) = get-assign (at_port s port) j self w.sockets v free in
        rw good (v', contains-none (at_port s port) w.sockets free, now, refl, refl)
  ]
]

-- The ports that are tried for a socket without one: a random one, and those from 49152 to 65534.
abbrev pub Exhausted : Map SocketId ℕ → Socket → ℕ → Type 0
Exhausted m s random =
    (contains (at_port s random) m ≡ true)
    × ((p : ℕ) → first_ephemeral ≤ p → p < 65535 → contains (at_port s p) m ≡ true)

choose_port-random :
    (m : Map SocketId ℕ) (s : Socket) (random : ℕ)
    → s.bound_port ≡ 0
    → contains (at_port s random) m ≡ false
    → choose_port m s random ≡ some random
unfolding choose_port
choose_port-random m s random e free =
    let unbound : (s.bound_port == 0) ≡ true = ground arith in rw (unbound, free) refl

choose_port-search :
    (m : Map SocketId ℕ) (s : Socket) (random : ℕ)
    → s.bound_port ≡ 0
    → contains (at_port s random) m ≡ true
    → choose_port m s random ≡ search_port m s ephemerals first_ephemeral
unfolding choose_port
choose_port-search m s random e taken =
    let unbound : (s.bound_port == 0) ≡ true = ground arith in rw (unbound, taken) refl

choose_port-free :
    (m : Map SocketId ℕ) (s : Socket) (random port : ℕ)
    → s.bound_port ≡ 0
    → choose_port m s random ≡ some port
    → contains (at_port s port) m ≡ false
choose_port-free m s random port e h = elim (Bool-cases (contains (at_port s random) m)) [
  | inl taken ↦
      let found = sym (choose_port-search m s random e taken) ∙ h in
      (search_port-some m s ephemerals first_ephemeral port found).2
  | inr free ↦
      let same = eq_of_some (sym (choose_port-random m s random e free) ∙ h) in
      subst (λ q. contains (at_port s q) m ≡ false) same free
]

choose_port-Exhausted :
    (m : Map SocketId ℕ) (s : Socket) (random : ℕ)
    → s.bound_port ≡ 0
    → choose_port m s random ≡ none
    → Exhausted m s random
choose_port-Exhausted m s random e h = elim (Bool-cases (contains (at_port s random) m)) [
  | inl taken ↦
      let none' = sym (choose_port-search m s random e taken) ∙ h in
      (taken, λ p a b. search_port-none m s ephemerals first_ephemeral p none' a (omega arith))
  | inr free ↦ let found = choose_port-random m s random e free in cc
]

Exhausted-choose_port :
    (m : Map SocketId ℕ) (s : Socket) (random : ℕ)
    → s.bound_port ≡ 0
    → Exhausted m s random
    → choose_port m s random ≡ none
Exhausted-choose_port m s random e (taken, all) =
    choose_port-search m s random e taken
    ∙ elim (Option-cases (search_port m s ephemerals first_ephemeral)) [
      | inl gone ↦ gone
      | inr (p, found) ↦
          let (a, b, free) = search_port-some m s ephemerals first_ephemeral p found in
          let hit = all p a (omega arith) in cc
    ]

-- A socket without a port is refused exactly when the random port and those from 49152 to 65534 are
-- all taken: port 65535 is the random one or is not tried.
pub do_bind-Exhausted :
    (self random : ℕ) (w : World) (s : Socket)
    → s.bound_port ≡ 0
    → ((do_bind self random w s).result ≡ err eaddrinuse) ↔ Exhausted w.sockets s random
do_bind-Exhausted self random w s e = (
  λ refused. elim (Option-cases (choose_port w.sockets s random)) [
    | inl gone ↦ choose_port-Exhausted w.sockets s random e gone
    | inr (port, found) ↦
        let free = choose_port-free w.sockets s random port e found in
        let good = do_bind-at self random w s port found ∙ bind_port-free self w s port free in
        absurd (not_ok (sym refused ∙ ap (λ t. t.result) good))
  ],
  λ all.
      ap (λ t. t.result)
        (do_bind-nowhere self random w s (Exhausted-choose_port w.sockets s random e all)),
)
