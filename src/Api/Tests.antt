-- ===== src/Api/Tests.antt =====
-- The C functions at concrete inputs.
use ak.Base.{◌≡◌, refl, true, false, none, some, List, [], ◌∷◌}
use ak.Base.Int.{pos, negsuc}
use ak.Engine.{Engine, returns, err_not_connected}
use ak.Api.{Config, engine_config, positive_or, qk4_create}
use ak.Api.Session.{
  Call, session, radio_call, radio, local, connect, set_frequency, set_state_callback, set_ptt,
  audio_set_volume,
}
use ak.Api.Offline.{Offline}
use ak.Api.Outcome.{all_stay_off, session-refused, session-Returns}

abbrev settings : Config
settings = record {
  audio_jitter_ms = pos 0;
  spectrum_max_fps = negsuc 4;
  keepalive_interval_s = pos 2;
  keepalive_max_probes = pos 0;
  reconnect_max_attempts = negsuc 0;
}

abbrev quiet : List Call
quiet =
    local (set_state_callback true)
    ∷ local (audio_set_volume (pos 0) (pos 130))
    ∷ radio (set_frequency (pos 0) (pos 7040000))
    ∷ connect (pos 0) none 9204 none 0 (pos 1)
    ∷ []

config_defaults : (engine_config (some settings)).audio_jitter_ms ≡ 40
unfolding engine_config positive_or
config_defaults = refl

quiet_after : Engine
unfolding all_stay_off
quiet_after = (session-Returns true (some settings) quiet refl).0

quiet_returned : session quiet (qk4_create true true (some settings)) ≡ returns (some quiet_after)
unfolding all_stay_off quiet_after
quiet_returned = (session-Returns true (some settings) quiet refl).1

session-refused_example :
    radio_call (set_ptt (pos 1)) (some quiet_after) ≡ returns (err_not_connected, some quiet_after)
session-refused_example =
    session-refused true (some settings) quiet (some quiet_after) (set_ptt (pos 1)) quiet_returned

session-Returns_example :
    (q : Engine) × (session quiet (qk4_create true false none) ≡ returns (some q)) × Offline q
unfolding all_stay_off
session-Returns_example = session-Returns false none quiet refl
