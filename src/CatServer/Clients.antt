-- ===== src/CatServer/Clients.antt =====
-- `CatServer::start`, `stop`, the accept loop and `removeClient`: which clients are connected.
use ak.Base.{
  ℕ, ◌+◌, ◌≤◌, ◌<◌, ◌≡◌, Bool, true, false, not, ◌&&◌, List, [], ◌∷◌, ◌++◌, arith, leb, ◌==◌,
  if◌then◌else◌, length, length-append,
}
use ak.Base.Int.{ℤ, pos, negsuc, clamp, clamp_bounds, ◌≤ℤ◌, pos_part}
use ak.CatServer.{max_clients}

-- What the calls of the operating system return while the server is started: whether each succeeds.
pub record Sockets : Type 0 where
  pub socket6 : Bool
  pub socket4 : Bool
  pub bind6 : Bool
  pub bind4 : Bool
  pub listens : Bool

-- File descriptors are numbers; `listening` is `m_listenFd >= 0`.
pub record CatServer : Type 0 where
  pub running : Bool
  pub listening : Bool
  pub port : ℕ
  pub max_clients : ℤ
  pub client_fds : List ℕ

abbrev pub new : CatServer
new = record {
  running = false;
  listening = false;
  port = 9299;
  max_clients = pos max_clients;
  client_fds = [];
}

-- `listen`, and then the start of the accept loop; the code is 0, or -1.
listen_on : Bool → CatServer → CatServer × ℤ
listen_on true s = (record s { running = true; listening = true }, pos 0)
listen_on false s = (record s { listening = false }, negsuc 0)

-- A socket for IPv6, or else for IPv4; if the address cannot be bound, a new one for IPv4.
unfoldable pub start : Sockets → ℕ → ℤ → CatServer → CatServer × ℤ
unfolding listen_on
start os port clients s =
    if s.running
    then (s, pos 0)
    else (let t = record s { port = port; max_clients = clamp clients (pos 1) (pos max_clients) } in
        if not os.socket6 && not os.socket4
        then (record t { listening = false }, negsuc 0)
        else if os.bind6
        then listen_on os.listens t
        else if os.bind4
        then listen_on os.listens t
        else (record t { listening = false }, negsuc 0))

unfoldable pub stop : CatServer → CatServer
stop s = record s { running = false; listening = false; client_fds = [] }

unfoldable pub get_client_count : CatServer → ℕ
get_client_count s = length s.client_fds

-- A connection is accepted: it is refused at the limit, and otherwise gets a handler thread. The
-- comparison is between signed integers.
unfoldable pub on_accept : ℕ → CatServer → CatServer × Bool
on_accept fd s =
    if leb (pos_part s.max_clients) (length s.client_fds)
    then (s, false)
    else (record s { client_fds = s.client_fds ++ (fd ∷ []) }, true)

unfoldable pub remove : ℕ → List ℕ → List ℕ
remove fd [] = []
remove fd (x ∷ xs) = let rest = remove fd xs in if x == fd then rest else x ∷ rest

unfoldable pub remove_client : ℕ → CatServer → CatServer
unfolding remove
remove_client fd s = record s { client_fds = remove fd s.client_fds }

-- What can happen to the server, in any order and from any thread: each takes the mutex.
pub data Event : Type 0 where
  starts : Sockets → ℕ → ℤ → Event
  stops : Event
  accepts : ℕ → Event
  ends : ℕ → Event

unfoldable pub step : Event → CatServer → CatServer
unfolding start stop on_accept remove_client
step (starts os port clients) s = (start os port clients s).0
step stops s = stop s
step (accepts fd) s = (on_accept fd s).0
step (ends fd) s = remove_client fd s

unfoldable pub run : List Event → CatServer → CatServer
run [] s = s
run (e ∷ es) s = run es (step e s)

-- The limit is between 1 and 4, and no more than four clients are connected.
pub record IsValid (s : CatServer) : Type 0 where
  pub limit_low : pos 1 ≤ℤ s.max_clients
  pub limit_high : s.max_clients ≤ℤ pos max_clients
  pub few : length s.client_fds ≤ max_clients

length-remove : (fd : ℕ) (xs : List ℕ) → length (remove fd xs) ≤ length xs
unfolding remove
length-remove fd [] = omega arith
length-remove fd (x ∷ xs) = ground (arith, length-remove fd xs)

step-IsValid : (e : Event) (s : CatServer) → IsValid s → IsValid (step e s)
unfolding step
step-IsValid (starts os port clients) s v =
    ground (arith, clamp_bounds clients (pos 1) (pos max_clients))
step-IsValid stops s v = ground arith
step-IsValid (accepts fd) s v = ground (arith, length-append s.client_fds (fd ∷ []))
step-IsValid (ends fd) s v = ground (arith, length-remove fd s.client_fds)

-- From a server with a limit between 1 and 4 and at most four clients: whatever is asked for as
-- the limit, and in whatever order the server is started and stopped, and clients come and go,
-- this stays so.
pub run-IsValid : (es : List Event) (s : CatServer) → IsValid s → IsValid (run es s)
unfolding run
run-IsValid [] s v = v
run-IsValid (e ∷ es) s v = run-IsValid es (step e s) (step-IsValid e s v)

-- With a limit that is not negative, a client is let in if there are fewer clients than the limit.
-- One that is let in counts, and the limit is not exceeded; one that is refused changes nothing.
pub on_accept_lem :
    (fd n : ℕ) (s : CatServer)
    → s.max_clients ≡ pos n
    → ((length s.client_fds < n) → (on_accept fd s).1 ≡ true)
      × ((on_accept fd s).1 ≡ true → get_client_count (on_accept fd s).0 ≡ get_client_count s + 1)
      × ((on_accept fd s).1 ≡ true → get_client_count (on_accept fd s).0 ≤ n)
      × ((on_accept fd s).1 ≡ false → (on_accept fd s).0 ≡ s)
unfolding on_accept get_client_count
on_accept_lem fd n s e = ground (arith, length-append s.client_fds (fd ∷ []))
