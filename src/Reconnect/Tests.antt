-- ===== src/Reconnect/Tests.antt =====
-- The policy of the engine: 1 s at first, 60 s at most, ten attempts.
use ak.Base.{ℕ, ◌^◌, ◌≡◌, refl, true, [], ◌∷◌, min, map, ◌*◌}
use ak.Reconnect.{Config, ReconnectPolicy, get_next_delay_ms}
use ak.Reconnect.Backoff.{get_next_delay_ms-eq}

abbrev engine_config : Config
engine_config = record { max_attempts = 10; initial_delay_ms = 1000; max_delay_ms = 60000 }

abbrev failed : ℕ → ReconnectPolicy
failed n = record { config = engine_config; attempt = n; reconnecting = true }

delays :
    map (λ n. get_next_delay_ms (failed n)) (0 ∷ 1 ∷ 2 ∷ 3 ∷ 6 ∷ 7 ∷ 9 ∷ [])
    ≡ 1000 ∷ 1000 ∷ 2000 ∷ 4000 ∷ 32000 ∷ 60000 ∷ 60000 ∷ []
unfolding get_next_delay_ms
delays = refl

get_next_delay_ms-eq_example : get_next_delay_ms (failed 4) ≡ min (1000 * 2 ^ 3) 60000
get_next_delay_ms-eq_example = get_next_delay_ms-eq (failed 4) 3 refl
