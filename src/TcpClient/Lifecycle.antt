-- ===== src/TcpClient/Lifecycle.antt =====
-- Connections of tcp_client.cpp one behind another.
use ak.Base.{
  ℕ, ◌≡◌, ◌≢◌, refl, ap, ◌∙◌, Bool, true, false, Option, none, some, List, [], ◌∷◌, inl, inr, arith,
  if◌then◌else◌, Bool-cases, Option-cases,
}
use ak.Base.Int.{pos}
use ak.TcpClient.{
  TcpClient, Attempt, Tls, new, connect, disconnect, start_read_loop, stop_read_loop, close_socket,
  connect_plain, first_connected, connect_tls, start_tls,
}
use ak.TcpClient.Read.{connection_lost}

-- What can happen to a client, from other threads than the reader and from the reader.
pub data Op : Type 0 where
  connects : Option (List Attempt) → Tls → Bool → Bool → Op
  starts stops disconnects loses : Op

-- `none` is the end of the program by `std::terminate`. A reader that has ended loses nothing more.
unfoldable pub step : Op → TcpClient → Option TcpClient
unfolding connect start_read_loop stop_read_loop disconnect connection_lost
step (connects addresses tls has_key use_tls) c = some (connect addresses tls has_key use_tls c).0
step starts c = start_read_loop c
step stops c = some (stop_read_loop c)
step disconnects c = some (disconnect c)
step loses c = if c.reading then some (connection_lost c) else some c

unfoldable pub run : List Op → TcpClient → Option TcpClient
run [] c = some c
run (op ∷ ops) c = elim (step op c) [ none ↦ none | some d ↦ run ops d ]

-- A thread that was not joined has the flag of the loop set, a thread that reads was not joined,
-- and a connected client has a socket.
pub record IsValid (c : TcpClient) : Type 0 where
  pub joinable_running : c.joinable ≡ true → c.read_loop_running ≡ true
  pub reading_joinable : c.reading ≡ true → c.joinable ≡ true
  pub has_socket : c.connected ≡ true → c.fd ≢ none

pub new-IsValid : IsValid new
new-IsValid = ground arith

-- The flags of the reader.
abbrev SameReader : TcpClient → TcpClient → Type 0
SameReader c d =
    (d.joinable ≡ c.joinable)
    × (d.read_loop_running ≡ c.read_loop_running)
    × (d.reading ≡ c.reading)
    × (d.connected ≡ c.connected)

connect_plain_lem :
    (a : Option (List Attempt)) (c : TcpClient)
    → SameReader c (connect_plain a c).0
      × ((connect_plain a c).1 ≡ pos 0 → (connect_plain a c).0.fd ≢ none)
unfolding connect_plain
connect_plain_lem none c = ground arith
connect_plain_lem (some l) c = elim (Option-cases (first_connected l)) [
  | inl e ↦ ground arith
  | inr (fd, e) ↦ ground arith
]

start_tls_lem :
    (tls : Tls) (c : TcpClient)
    → c.fd ≢ none
    → SameReader c (start_tls tls c).0
      × ((start_tls tls c).1 ≡ pos 0 → (start_tls tls c).0.fd ≢ none)
unfolding start_tls close_socket
start_tls_lem tls c h = ground arith

connect_tls_lem :
    (a : Option (List Attempt)) (tls : Tls) (c : TcpClient)
    → SameReader c (connect_tls a tls c).0
      × ((connect_tls a tls c).1 ≡ pos 0 → (connect_tls a tls c).0.fd ≢ none)
unfolding connect_tls
connect_tls_lem a tls c =
    ground (arith, connect_plain_lem a c, start_tls_lem tls (connect_plain a c).0)

disconnect-IsValid : (c : TcpClient) → IsValid c → IsValid (disconnect c)
unfolding disconnect close_socket stop_read_loop
disconnect-IsValid c v = ground arith

-- The client that `connect` works on behind the disconnection.
prepared : Bool → TcpClient → TcpClient
prepared use_tls c = record (if c.connected then disconnect c else c) { use_tls = use_tls }

prepared-IsValid :
    (use_tls : Bool) (c : TcpClient)
    → IsValid c
    → IsValid (prepared use_tls c) × ((prepared use_tls c).connected ≡ false)
unfolding prepared disconnect close_socket stop_read_loop
prepared-IsValid use_tls c v = ground arith

connect-IsValid :
    (a : Option (List Attempt)) (tls : Tls) (has_key use_tls : Bool) (c : TcpClient)
    → IsValid c
    → IsValid (connect a tls has_key use_tls c).0
unfolding connect prepared
connect-IsValid a tls has_key use_tls c v =
    let d = prepared use_tls c in
    ground (arith, prepared-IsValid use_tls c v, connect_plain_lem a d, connect_tls_lem a tls d)

start_read_loop-IsValid :
    (c : TcpClient) → IsValid c → (d : TcpClient) × (start_read_loop c ≡ some d) × IsValid d
unfolding start_read_loop
start_read_loop-IsValid c v = elim (Bool-cases c.read_loop_running) [
  | inl t ↦ (c, ground arith, v)
  | inr f ↦ (
    record c { read_loop_running = true; joinable = true; reading = true },
    ground arith,
    ground arith,
  )
]

step-IsValid :
    (op : Op) (c : TcpClient) → IsValid c → (d : TcpClient) × (step op c ≡ some d) × IsValid d
unfolding step
step-IsValid (connects a tls has_key use_tls) c v =
    ((connect a tls has_key use_tls c).0, refl, connect-IsValid a tls has_key use_tls c v)
step-IsValid starts c v = start_read_loop-IsValid c v
step-IsValid stops c v = (stop_read_loop c, refl, unfold stop_read_loop in ground arith)
step-IsValid disconnects c v = (disconnect c, refl, disconnect-IsValid c v)
step-IsValid loses c v = elim (Bool-cases c.reading) [
  | inl t ↦ (connection_lost c, ground arith, unfold connection_lost in ground arith)
  | inr f ↦ (c, ground arith, v)
]

run-step :
    (op : Op) (ops : List Op) (c d : TcpClient) → step op c ≡ some d → run (op ∷ ops) c ≡ run ops d
unfolding run
run-step op ops c d e = ap (λ o. elim o [ none ↦ none | some q ↦ run ops q ]) e

-- From a client in a consistent state, whatever connects, starts, stops, disconnects and losses of
-- the connection follow, and whatever the system answers: the program is not terminated by a second
-- reading thread, and the state is consistent again.
pub run-IsConsistent :
    (ops : List Op) (c : TcpClient) → IsValid c → (d : TcpClient) × (run ops c ≡ some d) × IsValid d
unfolding run
run-IsConsistent [] c v = (c, refl, v)
run-IsConsistent (op ∷ ops) c v =
    let (d, e, w) = step-IsValid op c v in
    let (q, f, x) = run-IsConsistent ops d w in (q, run-step op ops c d e ∙ f, x)

-- A connection that is lost while the thread reads, and then made again, successfully, with TLS or
-- without, is never read from: the flag of the loop is still set, so that `startReadLoop` starts no
-- thread. The socket of the lost connection is still open.
pub lost_connection_restart :
    (c : TcpClient) (old fd : ℕ) (has_key use_tls : Bool) (addresses : List Attempt) (tls : Tls)
    → IsValid c
    → c.reading ≡ true
    → c.fd ≡ some old
    → first_connected addresses ≡ some fd
    → (connect (some addresses) tls has_key use_tls (connection_lost c)).1 ≡ pos 0
    → let d = (connect (some addresses) tls has_key use_tls (connection_lost c)).0 in
      (d.connected ≡ true)
      × (start_read_loop d ≡ some d)
      × (d.reading ≡ false)
      × (d.fd ≡ some fd)
      × (d.open_fds ≡ fd ∷ c.open_fds)
unfolding connect connection_lost start_read_loop connect_plain connect_tls start_tls close_socket
lost_connection_restart c old fd has_key use_tls addresses tls v r o f made = ground arith
