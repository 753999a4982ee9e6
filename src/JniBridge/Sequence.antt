-- ===== src/JniBridge/Sequence.antt =====
-- Sequences of calls of the native methods.
use ak.Base.{◌&&◌, ◌≡◌, ◌⊎◌, Bool, true, false, Option, none, some, List, [], ◌∷◌}
use ak.Base.Int.{ℤ}
use ak.Base.Text.{Bytes}
use ak.Engine.{Engine, Run, returns, and_then}
use ak.Api.Offline.{Offline}
use ak.JniBridge.{Methods, Bridge, native_initialize, native_destroy}
use ak.JniBridge.Natives.{
  Result, native_connect, native_disconnect, native_set_frequency, native_set_mode, native_set_ptt,
  native_set_band, native_set_power, native_set_volume, native_cw_key, native_cw_set_speed,
}

-- Calls of the native methods that command the radio.
pub data RadioNative : Type 0 where
  set_frequency set_mode : ℤ → ℤ → RadioNative
  set_ptt : Bool → RadioNative
  set_band set_power : ℤ → RadioNative

-- Calls of the native methods that can change something.
pub data Native : Type 0 where
  radio : RadioNative → Native
  initialize : Bool → Bool → Methods → ℤ → ℤ → Native
  destroy disconnect : Native
  connect : ℤ → Option Bytes → ℤ → Option Bytes → Bool → Native
  set_volume : ℤ → ℤ → Native
  cw_key cw_set_speed : ℤ → Native

unfoldable pub radio_native : RadioNative → Bridge → Result
radio_native (set_frequency vfo freq_hz) b = native_set_frequency vfo freq_hz b
radio_native (set_mode vfo mode) b = native_set_mode vfo mode b
radio_native (set_ptt on) b = native_set_ptt on b
radio_native (set_band band_id) b = native_set_band band_id b
radio_native (set_power watts) b = native_set_power watts b

unfoldable pub native : Native → Bridge → Run Bridge
unfolding and_then
native (radio r) b = and_then (radio_native r b) (λ q. returns q.1)
native (initialize allocated ready found jitter_ms spectrum_fps) b =
    and_then (native_initialize allocated ready found jitter_ms spectrum_fps b) (λ q. returns q.1)
native destroy b = returns (native_destroy b)
native disconnect b = and_then (native_disconnect b) (λ q. returns q.1)
native (connect result host port psk use_tls) b =
    and_then (native_connect result host port psk use_tls b) (λ q. returns q.1)
native (set_volume channel level) b =
    and_then (native_set_volume channel level b) (λ q. returns q.1)
native (cw_key element) b = and_then (native_cw_key element b) (λ q. returns q.1)
native (cw_set_speed wpm) b = and_then (native_cw_set_speed wpm b) (λ q. returns q.1)

unfoldable pub run : List Native → Bridge → Run Bridge
unfolding and_then
run [] b = returns b
run (n ∷ ns) b = and_then (native n b) (run ns)

-- Before `nativeInitialize`, and behind `nativeDestroy`: there is no engine, and no reference.
pub record Off (b : Bridge) : Type 0 where
  pub not_initialized : b.initialized ≡ false
  pub no_handle : b.handle ≡ none
  pub no_object : b.callback_obj ≡ false
  pub no_refs : b.global_refs ≡ 0
  pub no_engines : b.engines ≡ 0

-- Between the two: one engine, whose mutex is free and whose client is not connected, and one
-- reference.
pub record On (b : Bridge) : Type 0 where
  pub initialized : b.initialized ≡ true
  pub engine : Engine
  pub has_handle : b.handle ≡ some engine
  pub has_object : b.callback_obj ≡ true
  pub one_ref : b.global_refs ≡ 1
  pub one_engine : b.engines ≡ 1
  pub is_offline : Offline engine

abbrev pub IsValid : Bridge → Type 0
IsValid b = Off b ⊎ On b

-- Whether a call does not reach the engine's `connect` or `disconnect`.
unfoldable pub is_local : Native → Bool
is_local (connect result (some host) port psk use_tls) = false
is_local disconnect = false
is_local _ = true

unfoldable pub all_local : List Native → Bool
unfolding is_local
all_local [] = true
all_local (n ∷ ns) = is_local n && all_local ns
