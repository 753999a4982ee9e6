-- ===== src/JniBridge/Callbacks.antt =====
-- The native callbacks, which pass what the engine reports on to the application's object.
use Prim.Native.String.{String}
use ak.Base.{Bool, false, ◌&&◌, List, [], ◌∷◌, ◌++◌, if◌then◌else◌}
use ak.Base.Int.{ℤ}
use ak.Base.Text.{Bytes}
use ak.Engine.{Event, state_changed, connection_changed, error_reported}
use ak.JniBridge.{Bridge}

-- What `GetEnv` answers for the thread: its environment, or that it is detached, with whether
-- `AttachCurrentThread` succeeds, or an error.
pub data Thread : Type 0 where
  attached : Thread
  detached : Bool → Thread
  failed : Thread

-- Whether `getEnv` gives an environment.
unfoldable pub get_env : Thread → Bridge → Bool
get_env attached b = b.jvm
get_env (detached attaches) b = b.jvm && attaches
get_env failed b = false

-- A call of a method of the application's object.
pub data JavaCall : Type 0 where
  on_native_state_changed : String → JavaCall
  on_native_connection_changed : ℤ → ℤ → JavaCall
  on_native_error : ℤ → Bytes → JavaCall
  on_native_spot_received : Bytes → ℤ → Bytes → Bytes → ℤ → JavaCall

-- `if (!env || !g_callbackObj || !method) return;`, and the call.
unfoldable pub call_method : Thread → Bridge → Bool → JavaCall → List JavaCall
unfolding get_env
call_method thread b method call =
    if get_env thread b && b.callback_obj && method then call ∷ [] else []

unfoldable pub on_state_changed : Thread → Bridge → String → List JavaCall
unfolding call_method
on_state_changed thread b key =
    call_method thread b b.methods.on_state_changed (on_native_state_changed key)

unfoldable pub on_connection_changed : Thread → Bridge → ℤ → ℤ → List JavaCall
unfolding call_method
on_connection_changed thread b state attempt =
    call_method thread b b.methods.on_connection_changed
      (on_native_connection_changed state attempt)

unfoldable pub on_error : Thread → Bridge → ℤ → Bytes → List JavaCall
unfolding call_method
on_error thread b code message =
    call_method thread b b.methods.on_error (on_native_error code message)

unfoldable pub on_spot_received : Thread → Bridge → Bytes → ℤ → Bytes → Bytes → ℤ → List JavaCall
unfolding call_method
on_spot_received thread b callsign freq_hz spotter comment timestamp =
    call_method thread b b.methods.on_spot_received
      (on_native_spot_received callsign freq_hz spotter comment timestamp)

-- What the application gets of the engine's reports, in order.
unfoldable pub deliver : Thread → Bridge → List Event → List JavaCall
unfolding on_state_changed on_connection_changed on_error
deliver thread b [] = []
deliver thread b (state_changed key ∷ events) =
    on_state_changed thread b key ++ deliver thread b events
deliver thread b (connection_changed state attempt ∷ events) =
    on_connection_changed thread b state attempt ++ deliver thread b events
deliver thread b (error_reported code message ∷ events) =
    on_error thread b code message ++ deliver thread b events
deliver thread b (_ ∷ events) = deliver thread b events
