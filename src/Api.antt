-- ===== src/Api.antt =====
-- core/src/qk4_api.cpp and core/include/qk4_api.h: the C functions. A handle is `none` if it is the
-- null pointer, and else the engine that it points to; a function that returns gives the handle
-- back, with the engine as it is then. A pointer argument is `none` if it is null.
pub mod Control
pub mod Session
pub mod Outcome
pub mod Null
pub mod Offline
mod Tests
use ak.Base.{
  ℕ, Bool, true, false, not, ltb, ◌&&◌, Option, none, some, List, [], if◌then◌else◌, ◌==◌, take,
}
use ak.Base.Int.{ℤ, pos, negsuc}
use ak.Base.Text.{Bytes}
use ak.RadioState.{is_zero}
use ak.Engine
use ak.Engine.{Engine, Run, returns, and_then, err_invalid_param}
use ak.Engine.Connection

abbrev pub Handle : Type 0
Handle = Option Engine

abbrev pub err_invalid_handle : ℤ
err_invalid_handle = negsuc 0

-- `VALIDATE_HANDLE`, and the rest of the function.
unfoldable pub validate_handle : Handle → (Engine → Run (ℤ × Engine)) → Run (ℤ × Handle)
unfolding and_then
validate_handle none f = returns (err_invalid_handle, none)
validate_handle (some e) f = and_then (f e) (λ r. returns (r.0, some (r.1)))

-- `VALIDATE_HANDLE_VOID`, and the rest of the function.
unfoldable pub validate_handle_void : Handle → (Engine → Run Engine) → Run Handle
unfolding and_then
validate_handle_void none f = returns none
validate_handle_void (some e) f = and_then (f e) (λ r. returns (some r))

-- `if (!handle) return ...`, of the functions that change nothing.
unfoldable pub query : {A : Type 0} → A → Handle → (Engine → A) → A
query default none f = default
query default (some e) f = f e

pub record Config : Type 0 where
  pub audio_jitter_ms : ℤ
  pub spectrum_max_fps : ℤ
  pub keepalive_interval_s : ℤ
  pub keepalive_max_probes : ℤ
  pub reconnect_max_attempts : ℤ

pub record EngineConfig : Type 0 where
  pub audio_jitter_ms : ℕ
  pub spectrum_max_fps : ℕ
  pub keepalive_interval_s : ℕ
  pub keepalive_max_probes : ℕ
  pub reconnect_max_attempts : ℕ

-- `value > 0 ? value : default`
unfoldable pub positive_or : ℤ → ℕ → ℕ
positive_or (pos n) default = if ltb 0 n then n else default
positive_or (negsuc n) default = default

-- The settings that `qk4_create` makes of its argument.
unfoldable pub engine_config : Option Config → EngineConfig
unfolding positive_or
engine_config none = record {
  audio_jitter_ms = 40;
  spectrum_max_fps = 30;
  keepalive_interval_s = 15;
  keepalive_max_probes = 3;
  reconnect_max_attempts = 10;
}
engine_config (some c) = record {
  audio_jitter_ms = positive_or c.audio_jitter_ms 40;
  spectrum_max_fps = positive_or c.spectrum_max_fps 30;
  keepalive_interval_s = positive_or c.keepalive_interval_s 15;
  keepalive_max_probes = positive_or c.keepalive_max_probes 3;
  reconnect_max_attempts = positive_or c.reconnect_max_attempts 10;
}

-- Given whether there is memory for the engine, and whether its decoder can be set up.
unfoldable pub qk4_create : Bool → Bool → Option Config → Handle
qk4_create allocated ready config =
    if allocated
    then some (Engine.new (engine_config config).reconnect_max_attempts ready)
    else none

-- The engine as it is when its memory is given back. Its destructor calls `shutdown` again.
unfoldable pub qk4_destroy : Handle → Option Engine
qk4_destroy none = none
qk4_destroy (some e) = some (Connection.shutdown (Connection.shutdown e))

-- `psk` is the memory that the key stands in, of at least `psk_len` bytes; `result` is what the
-- engine's client answers.
unfoldable pub key_bytes : Option Bytes → ℕ → Bytes
key_bytes none psk_len = []
key_bytes (some psk) psk_len = if ltb 0 psk_len then take psk_len psk else []

unfoldable pub qk4_connect : ℤ → Handle → Option Bytes → ℕ → Option Bytes → ℕ → ℤ → Run (ℤ × Handle)
unfolding key_bytes
qk4_connect result handle host port psk psk_len use_tls = validate_handle handle (λ e. elim host [
  | none ↦ returns (err_invalid_param, e)
  | some h ↦
      Connection.connect
        (record {
          host = h;
          port = port;
          psk = key_bytes psk psk_len;
          use_tls = not (is_zero use_tls);
        })
        result e
])

unfoldable pub qk4_disconnect : Handle → Run Handle
qk4_disconnect handle = validate_handle_void handle Connection.disconnect

unfoldable pub qk4_get_connection_state : Handle → ℤ
qk4_get_connection_state handle = query Engine.conn_disconnected handle (λ e. e.conn_state)
