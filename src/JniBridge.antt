-- ===== src/JniBridge.antt =====
-- android/app/src/main/cpp/jni_bridge.cpp: the native methods of the Android application's bridge
-- over the C functions. What the Java machine answers is an argument. The functions that take
-- `g_mutex` hold it while they run; each call here runs to its end before the next.
pub mod Natives
pub mod Callbacks
pub mod Sequence
pub mod Calls
pub mod Lifecycle
pub mod Outcome
mod Tests
use ak.Base.{ℕ, suc, ◌-◌, Bool, true, false, none, some, ltb, if◌then◌else◌}
use ak.Base.Int.{ℤ, pos, negsuc}
use ak.Engine.{Run, returns, and_then}
use ak.Api.{Handle, Config, positive_or, qk4_create, qk4_destroy}
use ak.Api.Control.{
  qk4_set_state_callback, qk4_set_connection_callback, qk4_set_error_callback,
  qk4_dxcluster_set_spot_callback,
}

-- The method IDs: whether `GetMethodID` found each.
pub record Methods : Type 0 where
  pub on_state_changed : Bool
  pub on_connection_changed : Bool
  pub on_error : Bool
  pub on_spot_received : Bool

-- The global state. Of `g_jvm` and `g_callbackObj` only whether they are set. Beside it the number
-- of global references that are held, and of engines that exist.
pub record Bridge : Type 0 where
  pub jvm : Bool
  pub handle : Handle
  pub initialized : Bool
  pub callback_obj : Bool
  pub methods : Methods
  pub global_refs : ℕ
  pub engines : ℕ

unfoldable pub initial : Bridge
initial = record {
  jvm = false;
  handle = none;
  initialized = false;
  callback_obj = false;
  methods = record {
    on_state_changed = false;
    on_connection_changed = false;
    on_error = false;
    on_spot_received = false;
  };
  global_refs = 0;
  engines = 0;
}

-- `JNI_OnLoad`
unfoldable pub on_load : Bridge → Bridge
on_load b = record b { jvm = true }

-- `if (g_handle) { qk4_destroy(g_handle); g_handle = nullptr; }`
unfoldable pub drop_engine : Handle → Bridge → Bridge
drop_engine none b = b
drop_engine (some e) b = record b { handle = none; engines = b.engines - 1 }

-- `JNI_OnUnload`
unfoldable pub on_unload : Bridge → Bridge
unfolding drop_engine
on_unload b = record (drop_engine b.handle b) { initialized = false; jvm = false }

-- The settings that `nativeInitialize` makes.
unfoldable pub settings : ℤ → ℤ → Config
settings jitter_ms spectrum_fps = record {
  audio_jitter_ms = pos (positive_or jitter_ms 40);
  spectrum_max_fps = pos (positive_or spectrum_fps 30);
  keepalive_interval_s = pos 15;
  keepalive_max_probes = pos 3;
  reconnect_max_attempts = pos 10;
}

-- The native callbacks that `nativeInitialize` registers.
unfoldable pub register : Handle → Run Handle
unfolding and_then
register h = and_then (qk4_set_state_callback h true) (λ h1.
    and_then (qk4_set_connection_callback h1 true) (λ h2.
      and_then (qk4_set_error_callback h2 true) (λ h3. qk4_dxcluster_set_spot_callback h3 true)))

-- The rest of `nativeInitialize`, behind `qk4_create`. `NewGlobalRef` is taken to succeed: the Java
-- machine gives null only when its memory is exhausted, and the source does not test for that.
unfoldable pub set_up : Methods → Handle → Bridge → Run (Bool × Bridge)
unfolding register and_then
set_up found none b = returns (false, record b { handle = none })
set_up found (some e) b = and_then (register (some e)) (λ h. returns (
  true,
  record b {
    handle = h;
    initialized = true;
    callback_obj = true;
    methods = found;
    global_refs = suc b.global_refs;
    engines = suc b.engines;
  },
))

-- Given whether there is memory for the engine and whether its decoder can be set up, and which
-- methods the application's class has.
unfoldable pub native_initialize : Bool → Bool → Methods → ℤ → ℤ → Bridge → Run (Bool × Bridge)
unfolding set_up settings
native_initialize allocated ready found jitter_ms spectrum_fps b =
    if b.initialized
    then returns (true, b)
    else set_up found (qk4_create allocated ready (some (settings jitter_ms spectrum_fps))) b

-- `if (g_callbackObj) { env->DeleteGlobalRef(g_callbackObj); g_callbackObj = nullptr; }`
unfoldable pub drop_object : Bridge → Bridge
drop_object b =
    if b.callback_obj then record b { callback_obj = false; global_refs = b.global_refs - 1 } else b

unfoldable pub native_destroy : Bridge → Bridge
unfolding drop_engine drop_object
native_destroy b = record (drop_object (drop_engine b.handle b)) { initialized = false }
