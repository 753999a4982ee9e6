-- ===== src/DxCluster.antt =====
-- core/src/network/dx_cluster_client.{h,cpp}: the client of a DX cluster node. What the system
-- answers is an argument. A descriptor is a number, and `m_fd >= 0` is `some`.
pub mod Spot
pub mod Text
pub mod Print
pub mod Lines
pub mod Reconnecting
mod Tests
use ak.Base.{
  ℕ, ◌+◌, Bool, true, false, not, ◌&&◌, Option, none, some, List, [], ◌∷◌, ◌++◌, if◌then◌else◌, ltb,
  ◌==◌, length, map,
}
use ak.Base.Int.{ℤ, pos, negsuc}
use ak.Base.Text.{Bytes}
use ak.Base.Lines.{lines}
use ak.TcpClient.{closed}
use ak.DxCluster.Spot.{DxSpotData, parse_spot}
use ak.Base.Doubles.{Doubles}

abbrev pub max_buffer_size : ℕ
max_buffer_size = 65536

pub record DxClusterClient : Type 0 where
  pub fd : Option ℕ
  pub connected : Bool
  pub running : Bool
  -- whether `m_readThread` is joinable
  pub joinable : Bool
  pub callsign : Bytes
  pub line_buffer : Bytes
  -- which callbacks are set
  pub spot_cb : Bool
  pub disconnect_cb : Bool
  -- the descriptors made here that are open, and what was sent to the nodes
  pub open_fds : List ℕ
  pub sent : List Bytes

abbrev pub new : DxClusterClient
new = record {
  fd = none;
  connected = false;
  running = false;
  joinable = false;
  callsign = [];
  line_buffer = [];
  spot_cb = false;
  disconnect_cb = false;
  open_fds = [];
  sent = [];
}

unfoldable pub set_spot_callback : Bool → DxClusterClient → DxClusterClient
set_spot_callback cb c = record c { spot_cb = cb }

unfoldable pub set_disconnect_callback : Bool → DxClusterClient → DxClusterClient
set_disconnect_callback cb c = record c { disconnect_cb = cb }

-- What the calls for one address give: the socket, whether `connect` succeeds or is in progress,
-- whether `poll` reports an event, and that the socket then has no error.
pub record Attempt : Type 0 where
  pub socket : Option ℕ
  pub begun : Bool
  pub polled : Bool
  pub no_error : Bool

unfoldable pub first_connected : List Attempt → Option ℕ
first_connected [] = none
first_connected (a ∷ rest) = elim a.socket [
  | none ↦ first_connected rest
  | some fd ↦ elim (a.begun && a.polled && a.no_error) [
    | true ↦ some fd
    | false ↦ first_connected rest
  ]
]

-- The thread, which ends when the socket is shut down, is joined, by another thread.
unfoldable pub disconnect : DxClusterClient → DxClusterClient
disconnect c = record c {
  running = false;
  connected = false;
  fd = none;
  open_fds = closed c.fd c.open_fds;
  joinable = false;
  line_buffer = [];
}

abbrev pub login : Bytes → Bytes
login callsign = callsign ++ (b'\r' ∷ b'\n' ∷ [])

-- `none` is the end of the program: a new thread is assigned to one that was not joined.
unfoldable pub start_reading : DxClusterClient → Option DxClusterClient
start_reading c = if c.joinable then none else some (record c { joinable = true })

-- Given the addresses, or `none` if `getaddrinfo` fails.
unfoldable pub connect :
    Option (List Attempt) → Bytes → DxClusterClient → Option (DxClusterClient × ℤ)
unfolding first_connected disconnect start_reading
connect addresses callsign c =
    let c1 = record (if c.connected then disconnect c else c) { callsign = callsign } in
    elim addresses [
      | none ↦ some (c1, negsuc 0)
      | some l ↦ elim (first_connected l) [
        | none ↦ some (record c1 { fd = none }, negsuc 0)
        | some fd ↦
            elim (start_reading (record c1 {
              fd = some fd;
              open_fds = fd ∷ c1.open_fds;
              connected = true;
              running = true;
              sent = c1.sent ++ (login callsign ∷ []);
            })) [ none ↦ none | some c2 ↦ some (c2, pos 0) ]
      ]
    ]

-- A call of a callback.
pub data Event : Type 0 where
  spotted : DxSpotData → Event
  disconnected : Event

unfoldable pub without_return : Bytes → Bytes
without_return [] = []
without_return (c ∷ cs) = elim cs [
  | [] ↦ if c == b'\r' then [] else c ∷ []
  | x ∷ xs ↦ c ∷ without_return cs
]

-- `processLine` of a line without its line end; an empty one is skipped.
unfoldable pub process_line : Doubles → ℤ → Bool → Bytes → List Event
process_line d now spot_cb line = elim (parse_spot d now line) [
  | none ↦ []
  | some spot ↦ if spot_cb then spotted spot ∷ [] else []
]

unfoldable pub take_line : Doubles → ℤ → Bool → Bytes → List Event
unfolding without_return process_line
take_line d now spot_cb line = elim (without_return line) [
  | [] ↦ []
  | x ∷ xs ↦ process_line d now spot_cb (x ∷ xs)
]

unfoldable pub take_lines : Doubles → ℤ → Bool → List Bytes → List Event
unfolding take_line
take_lines d now spot_cb [] = []
take_lines d now spot_cb (l ∷ ls) = take_line d now spot_cb l ++ take_lines d now spot_cb ls

-- The end of the thread's function. The thread has not been joined.
unfoldable pub stop_reading : DxClusterClient → List Event × DxClusterClient
stop_reading c = (if c.disconnect_cb then disconnected ∷ [] else [], record c { connected = false })

-- `readLoop`, given the bytes of each `recv` that gives some, with the time at which their lines are
-- handled; the next `recv` finds the end of the connection.
unfoldable pub read_loop :
    Doubles → List (ℤ × Bytes) → DxClusterClient → List Event × DxClusterClient
unfolding take_lines stop_reading
read_loop d [] c = stop_reading c
read_loop d ((now, bytes) ∷ more) c =
    let r = lines b'\n' (c.line_buffer ++ bytes) in
    let q = read_loop d more (record c { line_buffer = r.1 }) in
    if ltb max_buffer_size (length c.line_buffer + length bytes)
    then stop_reading (record c { line_buffer = [] })
    else (take_lines d now c.spot_cb r.0 ++ q.0, q.1)
