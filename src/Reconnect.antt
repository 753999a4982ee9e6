-- ===== src/Reconnect.antt =====
-- core/src/network/reconnect_policy.{h,cpp}: how long to wait between the attempts to reconnect,
-- and when to give up. The settings and the counter are integers that the engine keeps at least 0,
-- and stand as natural numbers.
pub mod Backoff
pub mod Attempts
mod Tests
use ak.Base.{
  ℕ, zero, suc, ◌+◌, ◌-◌, ◌*◌, min, Bool, true, false, not, ◌&&◌, ltb, leb, ◌==◌, if◌then◌else◌,
}

pub record Config : Type 0 where
  pub max_attempts : ℕ
  pub initial_delay_ms : ℕ
  pub max_delay_ms : ℕ

pub record ReconnectPolicy : Type 0 where
  pub config : Config
  pub attempt : ℕ
  pub reconnecting : Bool

abbrev pub new : Config → ReconnectPolicy
new config = record { config = config; attempt = 0; reconnecting = false }

unfoldable pub reset : ReconnectPolicy → ReconnectPolicy
reset p = record p { attempt = 0; reconnecting = false }

unfoldable pub on_disconnected : ReconnectPolicy → ReconnectPolicy
on_disconnected p = if p.reconnecting then p else record p { reconnecting = true; attempt = 0 }

unfoldable pub on_connected : ReconnectPolicy → ReconnectPolicy
unfolding reset
on_connected p = reset p

unfoldable pub is_exhausted : ReconnectPolicy → Bool
is_exhausted p = leb p.config.max_attempts p.attempt

-- The new state, and whether attempts remain.
unfoldable pub on_attempt_failed : ReconnectPolicy → ReconnectPolicy × Bool
unfolding is_exhausted
on_attempt_failed p = let q = record p { attempt = p.attempt + 1 } in (q, not (is_exhausted q))

-- `for (i = 1; i < attempt && delay < max; ++i) delay *= 2;` with the rounds left.
unfoldable pub double_while : ℕ → ℕ → ℕ → ℕ
double_while zero limit delay = delay
double_while (suc rounds) limit delay =
    let next = double_while rounds limit (delay * 2) in if ltb delay limit then next else delay

-- The delay is computed in 64 bits. It doubles only below the limit, which has 32 bits, so that
-- nothing wraps.
unfoldable pub get_next_delay_ms : ReconnectPolicy → ℕ
unfolding double_while
get_next_delay_ms p =
    if p.attempt == 0
    then p.config.initial_delay_ms
    else min (double_while (p.attempt - 1) p.config.max_delay_ms p.config.initial_delay_ms)
        p.config.max_delay_ms
