-- ===== src/JniBridge/Outcome.antt =====
-- What holds behind any sequence of calls of the native methods.
use mathlib.Core.Path.{subst}
use ak.Base.{
  ◌&&◌, ◌≡◌, refl, sym, ap, ◌∙◌, inl, inr, Bool, true, none, some, List, [], ◌∷◌, arith,
  if◌then◌else◌,
}
use ak.Engine.{Run, returns, deadlock, and_then, err_not_connected}
use ak.Api.{err_invalid_handle}
use ak.Api.Session
use ak.Api.Session.{Call, RadioCall, call, radio_call, Answer}
use ak.Api.Offline.{radio_call-refused}
use ak.Api.Outcome.{hung, stays_off}
use ak.JniBridge.{Bridge, initial, on_load, native_destroy}
use ak.JniBridge.Natives.{
  guarded, native_connect, native_disconnect, native_set_frequency, native_set_mode, native_set_ptt,
  native_set_band, native_set_power, native_set_volume, native_cw_key, native_cw_set_speed,
  to_uint16, one_or_zero, psk_len,
}
use ak.JniBridge.Sequence.{
  RadioNative, set_frequency, set_mode, set_ptt, set_band, set_power, Native, radio, initialize,
  destroy, disconnect, connect, set_volume, cw_key, cw_set_speed, radio_native, native, run,
  is_local, all_local, Off, IsValid,
}
use ak.JniBridge.Calls.{
  returns-injective, guarded-on, guarded-off, guarded-IsValid, guarded-Returns, keep,
}
use ak.JniBridge.Lifecycle.{destroy-Off, initialize-Returns}

native-IsValid : (n : Native) (b q : Bridge) → IsValid b → native n b ≡ returns q → IsValid q
unfolding native radio_native call radio_call Session.local_call Session.number native_connect
    native_disconnect native_set_frequency native_set_mode native_set_ptt native_set_band
    native_set_power native_set_volume native_cw_key native_cw_set_speed
native-IsValid (radio (set_frequency vfo hz)) b q v h =
    guarded-IsValid _ (Session.radio (Session.set_frequency vfo hz)) b q v h
native-IsValid (radio (set_mode vfo mode)) b q v h =
    guarded-IsValid _ (Session.radio (Session.set_mode vfo mode)) b q v h
native-IsValid (radio (set_ptt on)) b q v h =
    guarded-IsValid _ (Session.radio (Session.set_ptt (one_or_zero on))) b q v h
native-IsValid (radio (set_band id)) b q v h =
    guarded-IsValid _ (Session.radio (Session.set_band id)) b q v h
native-IsValid (radio (set_power watts)) b q v h =
    guarded-IsValid _ (Session.radio (Session.set_power watts)) b q v h
native-IsValid (initialize a r f j s) b q v h =
    let (p, e, w) = initialize-Returns a r f j s b v in
    subst IsValid (returns-injective (sym e ∙ h)) w
native-IsValid destroy b q v h = subst IsValid (returns-injective h) (inl (destroy-Off b v))
native-IsValid disconnect b q v h = guarded-IsValid _ Session.disconnect b q v h
native-IsValid (connect r host port psk tls) b q v h =
    guarded-IsValid _ (Session.connect r host (to_uint16 port) psk (psk_len psk) (one_or_zero tls))
      b q v h
native-IsValid (set_volume c l) b q v h =
    guarded-IsValid _ (Session.local (Session.audio_set_volume c l)) b q v h
native-IsValid (cw_key x) b q v h = guarded-IsValid _ (Session.local (Session.cw_key x)) b q v h
native-IsValid (cw_set_speed x) b q v h =
    guarded-IsValid _ (Session.local (Session.cw_set_speed x)) b q v h

native-Returns :
    (n : Native) (b : Bridge)
    → IsValid b
    → is_local n ≡ true
    → (q : Bridge) × (native n b ≡ returns q) × IsValid q
unfolding native radio_native call radio_call Session.local_call Session.number native_connect
    native_set_frequency native_set_mode native_set_ptt native_set_band native_set_power
    native_set_volume native_cw_key native_cw_set_speed is_local stays_off
native-Returns (radio (set_frequency vfo hz)) b v t =
    guarded-Returns _ (Session.radio (Session.set_frequency vfo hz)) b v refl
native-Returns (radio (set_mode vfo mode)) b v t =
    guarded-Returns _ (Session.radio (Session.set_mode vfo mode)) b v refl
native-Returns (radio (set_ptt on)) b v t =
    guarded-Returns _ (Session.radio (Session.set_ptt (one_or_zero on))) b v refl
native-Returns (radio (set_band id)) b v t =
    guarded-Returns _ (Session.radio (Session.set_band id)) b v refl
native-Returns (radio (set_power watts)) b v t =
    guarded-Returns _ (Session.radio (Session.set_power watts)) b v refl
native-Returns (initialize a r f j s) b v t = initialize-Returns a r f j s b v
native-Returns destroy b v t = (native_destroy b, refl, inl (destroy-Off b v))
native-Returns disconnect b v t = cc
native-Returns (connect r none port psk tls) b v t =
    guarded-Returns _ (Session.connect r none (to_uint16 port) psk (psk_len psk) (one_or_zero tls))
      b v refl
native-Returns (connect r (some host) port psk tls) b v t = cc
native-Returns (set_volume c l) b v t =
    guarded-Returns _ (Session.local (Session.audio_set_volume c l)) b v refl
native-Returns (cw_key x) b v t = guarded-Returns _ (Session.local (Session.cw_key x)) b v refl
native-Returns (cw_set_speed x) b v t =
    guarded-Returns _ (Session.local (Session.cw_set_speed x)) b v refl

both : (a b : Bool) → (a && b) ≡ true → (a ≡ true) × (b ≡ true)
both a b h = ground arith

-- From a valid state, every sequence of native methods that does not reach the engine's `connect`
-- or `disconnect` returns.
pub run-Returns :
    (ns : List Native) (b : Bridge)
    → IsValid b
    → all_local ns ≡ true
    → (q : Bridge) × (run ns b ≡ returns q) × IsValid q
unfolding run and_then all_local
run-Returns [] b v h = (b, refl, v)
run-Returns (n ∷ ns) b v h =
    let (s, t) = both (is_local n) (all_local ns) h in
    let (m, e, w) = native-Returns n b v s in
    let (q, k, x) = run-Returns ns m w t in (q, ap (λ r. and_then r (run ns)) e ∙ k, x)

-- A sequence that returned went through a state behind its first call.
and_then-returns :
    (r : Run Bridge) (f : Bridge → Run Bridge) {q : Bridge}
    → and_then r f ≡ returns q
    → (m : Bridge) × (r ≡ returns m) × (f m ≡ returns q)
unfolding and_then
and_then-returns (returns m) f h = (m, refl, h)
and_then-returns deadlock f h = absurd (hung h)

run-IsValid : (ns : List Native) (b q : Bridge) → IsValid b → run ns b ≡ returns q → IsValid q
unfolding run and_then
run-IsValid [] b q v h = subst IsValid (returns-injective h) v
run-IsValid (n ∷ ns) b q v h =
    let (m, e, k) = and_then-returns (native n b) (run ns) h in
    run-IsValid ns m q (native-IsValid n b m v e) k

pub loaded-Off : Off (on_load initial)
unfolding on_load initial
loaded-Off = record {
  not_initialized = refl;
  no_handle = refl;
  no_object = refl;
  no_refs = refl;
  no_engines = refl;
}

-- Behind every sequence of native methods that returned, in any order, repeated and out of place,
-- from the load of the library on: either the bridge is not initialized, and there is no engine and
-- no global reference, or it is initialized, and there is exactly one engine, which the handle
-- points to, and exactly one global reference. `nativeDestroy` then leads to the former.
pub loaded_run-IsValid :
    (ns : List Native) (q : Bridge)
    → run ns (on_load initial) ≡ returns q
    → IsValid q × Off (native_destroy q)
loaded_run-IsValid ns q h =
    let v = run-IsValid ns (on_load initial) q (inl loaded-Off) h in (v, destroy-Off q v)

-- The answer of a method that calls a C function which answers without a change.
refused :
    (c : RadioCall) (b : Bridge)
    → IsValid b
    → guarded (some err_invalid_handle) (λ h. Session.number (radio_call c h)) b
      ≡ returns (some (if b.initialized then err_not_connected else err_invalid_handle), b)
unfolding Session.number and_then
refused c b (inl off) =
    guarded-off b (some err_invalid_handle) (λ h. Session.number (radio_call c h))
      off.not_initialized
    ∙ ap (λ t. returns (some (if t then err_not_connected else err_invalid_handle), b))
        (sym off.not_initialized)
refused c b (inr on) =
    guarded-on b (some err_invalid_handle) (λ h. Session.number (radio_call c h)) (some on.engine)
      on.initialized on.has_handle
    ∙ ap (λ r. keep b (Session.number r)) (radio_call-refused c on.is_offline.offline)
    ∙ ap (λ h. returns (some err_not_connected, record b { handle = h })) (sym on.has_handle)
    ∙ ap (λ t. returns (some (if t then err_not_connected else err_invalid_handle), b))
        (sym on.initialized)

-- The application cannot get a radio to do anything: behind every sequence of native methods that
-- returned, each method that commands the radio answers `QK4_ERR_NOT_CONNECTED`, or
-- `QK4_ERR_INVALID_HANDLE` if the bridge is not initialized, and changes nothing.
pub radio_native-refused :
    (ns : List Native) (q : Bridge) (r : RadioNative)
    → run ns (on_load initial) ≡ returns q
    → radio_native r q
      ≡ returns (some (if q.initialized then err_not_connected else err_invalid_handle), q)
unfolding radio_native radio_call native_set_frequency native_set_mode native_set_ptt
    native_set_band native_set_power
radio_native-refused ns q (set_frequency vfo hz) h =
    refused (Session.set_frequency vfo hz) q (loaded_run-IsValid ns q h).0
radio_native-refused ns q (set_mode vfo mode) h =
    refused (Session.set_mode vfo mode) q (loaded_run-IsValid ns q h).0
radio_native-refused ns q (set_ptt on) h =
    refused (Session.set_ptt (one_or_zero on)) q (loaded_run-IsValid ns q h).0
radio_native-refused ns q (set_band id) h =
    refused (Session.set_band id) q (loaded_run-IsValid ns q h).0
radio_native-refused ns q (set_power watts) h =
    refused (Session.set_power watts) q (loaded_run-IsValid ns q h).0
