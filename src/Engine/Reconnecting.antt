-- ===== src/Engine/Reconnecting.antt =====
-- The thread that `Engine::onDisconnected` starts.
use ak.Base.{
  ◌≡◌, refl, Bool, true, false, not, ◌&&◌, Option, none, some, List, [], ◌∷◌, ◌++◌, if◌then◌else◌,
  Bool-cases, inl, inr,
}
use ak.Base.Int.{ℤ, pos, negsuc}
use ak.Base.Text.{codes, decimal}
use ak.RadioState.{is_zero}
use ak.Protocol
use ak.Reconnect.{is_exhausted, on_connected, on_attempt_failed}
use ak.Engine.{
  Engine, Run, returns, deadlock, and_then, log, notify_connection_state, notify_error, tcp_connect,
  start_read_loop, conn_connected, conn_reconnecting, conn_disconnected,
}
use ak.Engine.Connection.{notify_connection_state-deadlock}

-- What a round finds behind its sleep: whether the engine runs, and what the client's `connect` gives.
pub record Round : Type 0 where
  pub running : Bool
  pub result : ℤ

abbrev pub err_timeout : ℤ
err_timeout = negsuc 2

-- The round behind the test of `m_running`: whether the loop goes on, and the engine.
unfoldable pub attempt : ℤ → Engine → Run (Bool × Engine)
unfolding and_then log
attempt result e =
    let e1 =
      log (tcp_connect e.last.host e.last.port e.last.psk e.last.use_tls)
        (record e { protocol = Protocol.reset e.protocol }) in
    let failed = on_attempt_failed e1.reconnect in
    if is_zero result
    then and_then
        (notify_connection_state conn_connected (pos 0) (record e1 {
          tcp_connected = true;
          reconnect = on_connected e1.reconnect;
          conn_state = conn_connected;
        }))
        (λ q. returns (false, log start_read_loop q))
    else and_then
        (notify_connection_state conn_reconnecting (pos failed.0.attempt)
          (record e1 { reconnect = failed.0 }))
        (λ q.
          if failed.1
          then returns (true, q)
          else and_then
              (notify_connection_state conn_disconnected (pos 0)
                (record q { conn_state = conn_disconnected }))
              (λ s.
                and_then
                  (notify_error err_timeout
                    (codes "Reconnection failed after "
                      ++ (decimal s.reconnect.config.max_attempts ++ codes " attempts"))
                    s)
                  (λ t. returns (false, t))))

unfoldable pub goes_on : Engine → Bool
goes_on e = e.reconnect.reconnecting && not (is_exhausted e.reconnect)

unfoldable pub more_rounds :
    (Engine → Option (Run Engine)) → Run (Bool × Engine) → Option (Run Engine)
more_rounds f deadlock = some deadlock
more_rounds f (returns (go, e)) = if go then f e else some (returns e)

-- `none`: more rounds follow than are given. The sleep of `get_next_delay_ms` is not modelled.
unfoldable pub reconnect_loop : List Round → Engine → Option (Run Engine)
unfolding attempt goes_on more_rounds
reconnect_loop [] e = if goes_on e then none else some (returns e)
reconnect_loop (r ∷ rs) e =
    let next = more_rounds (reconnect_loop rs) (attempt r.result e) in
    if goes_on e then if r.running then next else some (returns e) else some (returns e)

attempt-deadlock : (result : ℤ) (e : Engine) → attempt result e ≡ deadlock
unfolding attempt and_then
attempt-deadlock result e = elim (Bool-cases (is_zero result)) [
  | inl t ↦ rw (t, notify_connection_state-deadlock) refl
  | inr f ↦ rw (f, notify_connection_state-deadlock) refl
]

-- The thread makes one attempt to connect at most, whatever the client's `connect` gives: it returns
-- if there is nothing to reconnect, or the engine was stopped, and else the attempt does not return.
pub reconnect_loop_lem :
    (r : Round) (rs : List Round) (e : Engine)
    → reconnect_loop (r ∷ rs) e ≡ some (if goes_on e && r.running then deadlock else returns e)
unfolding reconnect_loop more_rounds
reconnect_loop_lem r rs e = elim (Bool-cases (goes_on e)) [
  | inl t ↦ elim (Bool-cases r.running) [
    | inl u ↦ rw (t, u, attempt-deadlock) refl
    | inr f ↦ rw (t, f) refl
  ]
  | inr f ↦ rw f refl
]
