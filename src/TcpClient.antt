-- ===== src/TcpClient.antt =====
-- core/src/network/tcp_client.{h,cpp}: the connection to the radio. What the operating system and
-- the TLS library answer is an argument. A descriptor is a number, and `m_fd >= 0` is `some`.
pub mod Send
pub mod Read
pub mod Lifecycle
mod Tests
use ak.Base.{
  ℕ, ◌/◌, ltb, ◌≡◌, Bool, true, false, not, ◌&&◌, ◌||◌, Option, none, some, List, [], ◌∷◌, ◌==◌,
  if◌then◌else◌,
}
use ak.Base.Int.{ℤ, pos, negsuc}

pub record TcpClient : Type 0 where
  pub fd : Option ℕ
  pub has_ssl_ctx : Bool
  pub has_ssl : Bool
  pub use_tls : Bool
  pub connected : Bool
  pub read_loop_running : Bool
  -- whether `m_readThread` is joinable, and whether its function still runs
  pub joinable : Bool
  pub reading : Bool
  -- the descriptors that the process has open and that were made here
  pub open_fds : List ℕ

abbrev pub new : TcpClient
new = record {
  fd = none;
  has_ssl_ctx = false;
  has_ssl = false;
  use_tls = false;
  connected = false;
  read_loop_running = false;
  joinable = false;
  reading = false;
  open_fds = [];
}

-- What the calls for one address of the host give: the socket, whether `connect` succeeds at once
-- or is in progress, whether `poll` then reports that it can be written to, and that there is no
-- error.
pub record Attempt : Type 0 where
  pub socket : Option ℕ
  pub at_once : Bool
  pub in_progress : Bool
  pub writable : Bool
  pub no_error : Bool

unfoldable pub succeeds : Attempt → Bool
succeeds a = a.at_once || a.in_progress && a.writable && a.no_error

-- The loop over the addresses: a socket that does not connect is closed.
unfoldable pub first_connected : List Attempt → Option ℕ
first_connected [] = none
first_connected (a ∷ rest) = elim a.socket [
  | none ↦ first_connected rest
  | some fd ↦ elim (succeeds a) [ true ↦ some fd | false ↦ first_connected rest ]
]

abbrev pub err_timeout : ℤ
err_timeout = negsuc 2

abbrev pub err_tls_failed : ℤ
err_tls_failed = negsuc 3

-- Given the addresses, or `none` if `getaddrinfo` fails.
unfoldable pub connect_plain : Option (List Attempt) → TcpClient → TcpClient × ℤ
unfolding first_connected succeeds
connect_plain none c = (c, err_timeout)
connect_plain (some addresses) c = elim (first_connected addresses) [
  | none ↦ (c, err_timeout)
  | some fd ↦ (record c { fd = some fd; open_fds = fd ∷ c.open_fds }, pos 0)
]

unfoldable pub remove : ℕ → List ℕ → List ℕ
remove fd [] = []
remove fd (x ∷ xs) = let rest = remove fd xs in if x == fd then rest else x ∷ rest

-- `if (m_fd >= 0) close(m_fd)`
unfoldable pub closed : Option ℕ → List ℕ → List ℕ
unfolding remove
closed none fds = fds
closed (some fd) fds = remove fd fds

unfoldable pub close_socket : TcpClient → TcpClient
unfolding closed
close_socket c = record c {
  has_ssl = false;
  has_ssl_ctx = false;
  fd = none;
  open_fds = closed c.fd c.open_fds;
}

-- Whether `SSL_CTX_new`, `SSL_new` and `SSL_connect` succeed.
pub record Tls : Type 0 where
  pub context : Bool
  pub session : Bool
  pub handshake : Bool

unfoldable pub start_tls : Tls → TcpClient → TcpClient × ℤ
start_tls tls c =
    if not tls.context
    then (close_socket c, err_tls_failed)
    else if not tls.session
    then (close_socket (record c { has_ssl_ctx = true }), err_tls_failed)
    else if not tls.handshake
    then (close_socket (record c { has_ssl_ctx = true; has_ssl = true }), err_tls_failed)
    else (record c { has_ssl_ctx = true; has_ssl = true }, pos 0)

unfoldable pub connect_tls : Option (List Attempt) → Tls → TcpClient → TcpClient × ℤ
unfolding connect_plain start_tls close_socket
connect_tls addresses tls c =
    let r = connect_plain addresses c in
    elim r.1 [ pos n ↦ if n == 0 then start_tls tls r.0 else r | negsuc n ↦ r ]

-- `m_readThread.join()`: the function has seen the flag, or the end of the connection, and says on
-- its way out that nothing is connected. The call comes from another thread, and the disconnect
-- callback, which the function calls then, returns.
unfoldable pub stop_read_loop : TcpClient → TcpClient
stop_read_loop c =
    if c.joinable
    then record c {
      read_loop_running = false;
      connected = c.connected && not c.reading;
      joinable = false;
      reading = false;
    }
    else record c { read_loop_running = false }

unfoldable pub disconnect : TcpClient → TcpClient
unfolding stop_read_loop close_socket
disconnect c = close_socket (record (stop_read_loop c) { connected = false })

-- `connect`, with whether there is a key.
unfoldable pub connect : Option (List Attempt) → Tls → Bool → Bool → TcpClient → TcpClient × ℤ
unfolding connect_plain connect_tls disconnect
connect addresses tls has_key use_tls c =
    let c0 = if c.connected then disconnect c else c in
    let c1 = record c0 { use_tls = use_tls } in
    let r =
      if use_tls && has_key then connect_tls addresses tls c1 else connect_plain addresses c1 in
    elim r.1 [
      | pos n ↦ if n == 0 then (record (r.0) { connected = true }, pos 0) else r
      | negsuc n ↦ r
    ]

-- `none` is the end of the program: a new thread is assigned to one that was not joined.
unfoldable pub start_read_loop : TcpClient → Option TcpClient
start_read_loop c =
    if c.read_loop_running
    then some c
    else if c.joinable
    then none
    else some (record c { read_loop_running = true; joinable = true; reading = true })

-- What the options of the socket are set to: the idle time and the interval of the probes in
-- seconds, and how many probes may be lost. The settings are at least 0.
pub record Keepalive : Type 0 where
  pub idle : ℕ
  pub interval : ℕ
  pub count : ℕ

unfoldable pub configure_keepalive : ℕ → ℕ → Keepalive
configure_keepalive interval_s max_probes = record {
  idle = interval_s;
  interval = if ltb (interval_s / 3) 1 then 1 else interval_s / 3;
  count = max_probes;
}
