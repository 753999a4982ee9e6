-- ===== src/JniBridge/Tests.antt =====
-- The bridge at concrete inputs.
use ak.Base.{inl, ◌≡◌, refl, true, false, some, none, List, [], ◌∷◌, if◌then◌else◌}
use ak.Base.Int.{pos, negsuc}
use ak.Engine.{Event, returns, state_changed, connection_changed, tcp_disconnect, err_not_connected}
use ak.Api.{err_invalid_handle}
use ak.JniBridge.{Methods, Bridge, initial, on_load, native_destroy}
use ak.JniBridge.Callbacks.{
  detached, deliver, on_native_state_changed, on_native_connection_changed,
}
use ak.JniBridge.Natives.{to_uint16}
use ak.JniBridge.Sequence.{
  all_local, Native, radio, initialize, destroy, connect, set_frequency, radio_native, run, IsValid,
  Off,
}
use ak.JniBridge.Outcome.{loaded_run-IsValid, radio_native-refused, run-Returns, loaded-Off}

abbrev all_found : Methods
all_found = record {
  on_state_changed = true;
  on_connection_changed = true;
  on_error = true;
  on_spot_received = true;
}

-- The application begins, tunes, ends and begins again, twice.
abbrev calls : List Native
calls =
    radio (set_frequency (pos 0) (pos 7040000))
    ∷ initialize true true all_found (pos 0) (negsuc 0)
    ∷ radio (set_frequency (pos 0) (pos 7040000))
    ∷ connect (pos 0) none (pos 9204) none true
    ∷ destroy
    ∷ destroy
    ∷ initialize false true all_found (pos 40) (pos 30)
    ∷ initialize true true all_found (pos 40) (pos 30)
    ∷ initialize true true all_found (pos 40) (pos 30)
    ∷ []

port_wraps : to_uint16 (negsuc 0) ≡ 65535
unfolding to_uint16
port_wraps = refl

abbrev ready : Bridge
ready = record initial { jvm = true; callback_obj = true; methods = all_found }

abbrev events : List Event
events = state_changed "freq_a" ∷ tcp_disconnect ∷ connection_changed (pos 3) (pos 1) ∷ []

delivered :
    deliver (detached true) ready events
    ≡ on_native_state_changed "freq_a" ∷ on_native_connection_changed (pos 3) (pos 1) ∷ []
unfolding deliver initial
delivered = refl

not_delivered : deliver (detached false) ready events ≡ []
unfolding deliver initial
not_delivered = refl

behind_calls : (q : Bridge) × (run calls (on_load initial) ≡ returns q) × IsValid q
unfolding all_local
behind_calls = run-Returns calls (on_load initial) (inl loaded-Off) refl

loaded_run-IsValid_example : IsValid behind_calls.0 × Off (native_destroy behind_calls.0)
loaded_run-IsValid_example = loaded_run-IsValid calls behind_calls.0 behind_calls.1

radio_native-refused_example :
    radio_native (set_frequency (pos 0) (pos 7040000)) behind_calls.0
    ≡ returns (
      some (if behind_calls.0.initialized then err_not_connected else err_invalid_handle),
      behind_calls.0,
    )
radio_native-refused_example =
    radio_native-refused calls behind_calls.0 (set_frequency (pos 0) (pos 7040000)) behind_calls.1
