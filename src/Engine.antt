-- ===== src/Engine.antt =====
-- core/src/engine/qk4_engine.{h,cpp}: the engine, which owns the client, the protocol, the radio's
-- state and the reconnect policy. A method returns the new engine. What it calls outside of the
-- modelled parts (the socket, the codec's output buffer, the application's callbacks) is the list
-- of its events, in order. The application's callbacks return and call nothing back.
pub mod Radio
pub mod Connection
pub mod Frames
pub mod Commands
pub mod RoundTrip
pub mod Band
pub mod Sent
pub mod Local
pub mod Callbacks
pub mod Reading
pub mod Pieces
pub mod Reports
pub mod Reconnecting
mod Tests
use Prim.Native.String.{String}
use ak.Base.{ℕ, ◌≡◌, Bool, true, false, List, [], ◌∷◌, ◌++◌, if◌then◌else◌}
use ak.Base.Int.{ℤ, pos, negsuc}
use ak.RadioState
use ak.RadioState.{RadioStateData, Change}
use ak.RadioState.Receivers.{set_connection_state}
use ak.Protocol
use ak.Protocol.{Protocol, Bytes, encode_cat, set_frame_callback}
use ak.Reconnect
use ak.Reconnect.{ReconnectPolicy}

-- A call of something outside.
pub data Event : Type 0 where
  tcp_connect : Bytes → ℕ → Bytes → Bool → Event
  tcp_send : Bytes → Event
  tcp_disconnect start_read_loop stop_read_loop start_reconnect_thread : Event
  state_changed : String → Event
  connection_changed : ℤ → ℤ → Event
  error_reported : ℤ → Bytes → Event
  audio_written : List ℤ → Event
  audio_decoded : List ℤ → ℕ → Event
  spectrum_received : Bytes → ℕ → ℕ → Event

-- Where `connect` was last asked to connect to.
pub record Target : Type 0 where
  pub host : Bytes
  pub port : ℕ
  pub psk : Bytes
  pub use_tls : Bool

pub record Engine : Type 0 where
  pub radio : RadioStateData
  pub protocol : Protocol
  pub reconnect : ReconnectPolicy
  -- `m_tcpClient->isConnected()`
  pub tcp_connected : Bool
  pub running : Bool
  pub conn_state : ℤ
  pub last : Target
  -- `m_opusDecoder->isInitialized()`
  pub decoder_ready : Bool
  -- the key and the pitch of the sidetone generator
  pub sidetone_active : Bool
  pub sidetone_pitch : ℤ
  -- which callbacks are set
  pub state_cb : Bool
  pub spectrum_cb : Bool
  pub audio_cb : Bool
  pub error_cb : Bool
  pub connection_cb : Bool
  pub spot_cb : Bool
  pub kpa_status_cb : Bool
  -- whether this thread holds `m_cbMutex`
  pub cb_locked : Bool
  pub events : List Event

abbrev pub conn_disconnected : ℤ
conn_disconnected = pos 0

abbrev pub conn_connecting : ℤ
conn_connecting = pos 1

abbrev pub conn_connected : ℤ
conn_connected = pos 2

abbrev pub conn_reconnecting : ℤ
conn_reconnecting = pos 3

abbrev pub err_not_connected : ℤ
err_not_connected = negsuc 1

abbrev pub err_invalid_param : ℤ
err_invalid_param = negsuc 4

-- `Engine::Engine`, given `reconnect_max_attempts` and whether the decoder could be set up.
unfoldable pub new : ℕ → Bool → Engine
new max_attempts ready = record {
  radio = RadioState.initial;
  protocol = set_frame_callback Protocol.initial;
  reconnect =
      Reconnect.new
        (record { max_attempts = max_attempts; initial_delay_ms = 1000; max_delay_ms = 60000 });
  tcp_connected = false;
  running = false;
  conn_state = conn_disconnected;
  last = record { host = []; port = 0; psk = []; use_tls = false };
  decoder_ready = ready;
  sidetone_active = false;
  sidetone_pitch = pos 600;
  state_cb = false;
  spectrum_cb = false;
  audio_cb = false;
  error_cb = false;
  connection_cb = false;
  spot_cb = false;
  kpa_status_cb = false;
  cb_locked = false;
  events = [];
}

unfoldable pub log : Event → Engine → Engine
log event e = record e { events = e.events ++ (event ∷ []) }

unfoldable pub log_if : Bool → Event → Engine → Engine
unfolding log
log_if b event e = if b then log event e else e

-- How a call ends: it returns, or its thread waits forever for a mutex that it holds itself:
-- `m_cbMutex` is a `std::mutex`, which the thread that holds it cannot lock again.
pub data Run {ℓ} (A : Type ℓ) : Type ℓ where
  returns : A → Run A
  deadlock : Run A

unfoldable pub and_then : {A B : Type 0} → Run A → (A → Run B) → Run B
and_then (returns a) f = f a
and_then deadlock f = deadlock

-- `std::lock_guard<std::mutex> lock(m_cbMutex)`, and the end of its block.
unfoldable pub lock : Engine → Run Engine
lock e = if e.cb_locked then deadlock else returns (record e { cb_locked = true })

unfoldable pub unlock : Engine → Engine
unlock e = record e { cb_locked = false }

-- The change callback that the constructor gives to the radio's state.
unfoldable pub on_change : String → Engine → Run Engine
unfolding lock unlock log_if and_then
on_change key e =
    and_then (lock e) (λ l. returns (unlock (log_if l.state_cb (state_changed key) l)))

unfoldable pub on_changes : List String → Engine → Run Engine
unfolding on_change
on_changes [] e = returns e
on_changes (key ∷ keys) e = and_then (on_change key e) (on_changes keys)

-- `m_radioState->...`: a method of the radio's state, which calls the change callback.
unfoldable pub on_radio : (RadioStateData → Change) → Engine → Run Engine
on_radio change e = let c = change e.radio in on_changes c.1 (record e { radio = c.0 })

unfoldable pub notify_connection_state : ℤ → ℤ → Engine → Run Engine
unfolding lock unlock log_if and_then
notify_connection_state state attempt e = and_then (lock e) (λ l.
    and_then
      (on_radio (set_connection_state state attempt)
        (log_if l.connection_cb (connection_changed state attempt) l))
      (λ r. returns (unlock r)))

unfoldable pub notify_error : ℤ → Bytes → Engine → Run Engine
unfolding lock unlock log_if and_then
notify_error code message e =
    and_then (lock e) (λ l. returns (unlock (log_if l.error_cb (error_reported code message) l)))

unfoldable pub send_cat : Bytes → Engine → Engine
unfolding log
send_cat command e = log (tcp_send (encode_cat command)) e
