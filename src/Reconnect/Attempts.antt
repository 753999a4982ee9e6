-- ===== src/Reconnect/Attempts.antt =====
-- When the policy gives up.
use ak.Base.{ℕ, zero, suc, ◌+◌, ◌≤◌, ◌<◌, ◌≡◌, ◌↔◌, arith, true}
use ak.Reconnect.{
  Config, ReconnectPolicy, new, reset, on_disconnected, on_connected, is_exhausted,
  on_attempt_failed,
}

-- So many failed attempts, one behind another.
unfoldable pub fail_times : ℕ → ReconnectPolicy → ReconnectPolicy
fail_times zero p = p
fail_times (suc n) p = fail_times n (on_attempt_failed p).0

fail_times-eq :
    (n : ℕ) (p : ReconnectPolicy) → fail_times n p ≡ record p { attempt = p.attempt + n }
unfolding fail_times on_attempt_failed
fail_times-eq zero p = ground arith
fail_times-eq (suc n) p = ground (arith, fail_times-eq n (record p { attempt = p.attempt + 1 }))

-- Behind a lost connection and n failures the policy is in reconnection mode with n as its
-- counter, one more failure reports that attempts remain exactly if n + 1 is below the limit, and
-- the policy is exhausted exactly if n is at least the limit.
pub fail_times_lem :
    (c : Config) (n : ℕ)
    → let p = fail_times n (on_disconnected (new c)) in
      (p.reconnecting ≡ true)
      × (p.attempt ≡ n)
      × (((on_attempt_failed p).1 ≡ true) ↔ (suc n < c.max_attempts))
      × ((is_exhausted p ≡ true) ↔ (c.max_attempts ≤ n))
unfolding on_disconnected on_attempt_failed is_exhausted
fail_times_lem c n = rw (fail_times-eq n (record (new c) { reconnecting = true })) (ground arith)

-- A lost connection is noticed once: while reconnecting, a second notification keeps the counter. A
-- success or a reset brings the policy back to where it began, whatever happened before.
pub back_to_new :
    (p : ReconnectPolicy)
    → (on_disconnected (on_disconnected p) ≡ on_disconnected p)
      × (on_connected p ≡ new p.config)
      × (reset (on_disconnected p) ≡ new p.config)
unfolding on_disconnected on_connected
back_to_new p = ground arith
