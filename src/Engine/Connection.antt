-- ===== src/Engine/Connection.antt =====
-- `connect`, `disconnect`, `shutdown` and `onDisconnected` of qk4_engine.cpp.
use Prim.Native.String.{String}
use ak.Base.{
  ◌≡◌, refl, ap, ◌∙◌, Bool, true, false, [], ◌∷◌, ◌++◌, if◌then◌else◌, Bool-cases, inl, inr,
}
use ak.Base.Int.{ℤ, pos}
use ak.Base.Text.{codes, decimal}
use ak.RadioState.{is_zero}
use ak.Protocol
use ak.RadioState.Receivers.{set_connection_state}
use ak.Reconnect
use ak.Engine.{
  Engine, Target, Event, Run, returns, deadlock, and_then, lock, unlock, log, log_if, on_change,
  on_changes, on_radio, notify_connection_state, notify_error, tcp_connect, tcp_disconnect,
  start_read_loop, stop_read_loop, start_reconnect_thread, connection_changed, conn_disconnected,
  conn_connecting, conn_connected, conn_reconnecting,
}

-- The part of `connect` behind the first notification, given what the client's `connect` returns.
-- The client is connected when that is 0, and not connected otherwise: `TcpClient::connect`
-- disconnects a client that was.
unfoldable pub connect_tcp : Target → ℤ → Engine → Run (ℤ × Engine)
unfolding log
connect_tcp to result e0 =
    let e1 = record e0 {
      protocol = Protocol.reset e0.protocol;
      reconnect = Reconnect.reset e0.reconnect;
    } in
    let e2 = log (tcp_connect to.host to.port to.psk to.use_tls) e1 in
    if is_zero result
    then and_then
        (notify_connection_state conn_connected (pos 0)
          (record e2 { tcp_connected = true; conn_state = conn_connected }))
        (λ e. returns (pos 0, log start_read_loop (record e { running = true })))
    else and_then
        (notify_connection_state conn_disconnected (pos 0)
          (record e2 { tcp_connected = false; conn_state = conn_disconnected }))
        (λ e3.
          and_then
            (notify_error result
              (codes "Connection failed to " ++ (to.host ++ (b':' ∷ decimal to.port))) e3)
            (λ e. returns (result, e)))

unfoldable pub connect : Target → ℤ → Engine → Run (ℤ × Engine)
unfolding connect_tcp
connect to result e =
    and_then
      (notify_connection_state conn_connecting (pos 0)
        (record e { last = to; conn_state = conn_connecting }))
      (connect_tcp to result)

unfoldable pub shutdown : Engine → Engine
unfolding log
shutdown e =
    log tcp_disconnect (log stop_read_loop (record e { running = false; tcp_connected = false }))

unfoldable pub disconnect : Engine → Run Engine
unfolding log
disconnect e =
    let e1 = record e {
      reconnect = Reconnect.reset e.reconnect;
      running = false;
      tcp_connected = false;
      conn_state = conn_disconnected;
    } in
    notify_connection_state conn_disconnected (pos 0) (log tcp_disconnect (log stop_read_loop e1))

-- The handler of a lost connection. The thread that it starts is modelled in Reconnecting.
unfoldable pub on_disconnected : Engine → Run Engine
unfolding log
on_disconnected e =
    and_then
      (notify_connection_state conn_reconnecting (pos 0)
        (record e { conn_state = conn_reconnecting }))
      (λ r. returns (
        log start_reconnect_thread
          (record r { reconnect = Reconnect.on_disconnected r.reconnect })))

notify_locked : (e : Engine) (key : String) → e.cb_locked ≡ true → on_change key e ≡ deadlock
unfolding on_change lock and_then
notify_locked e key h = rw h

on_radio_locked :
    (state attempt : ℤ) (e : Engine)
    → e.cb_locked ≡ true
    → on_radio (set_connection_state state attempt) e ≡ deadlock
unfolding on_radio on_changes set_connection_state and_then
on_radio_locked state attempt e h =
    ap (λ r. and_then r (on_changes []))
      (notify_locked (record e { radio = (set_connection_state state attempt e.radio).0 })
        "connection" h)

log_if_locked : (b : Bool) (event : Event) (e : Engine) → (log_if b event e).cb_locked ≡ e.cb_locked
unfolding log_if log
log_if_locked true event e = refl
log_if_locked false event e = refl

inside_lock :
    (state attempt : ℤ) (l : Engine)
    → l.cb_locked ≡ true
    → and_then
        (on_radio
          (set_connection_state state attempt)
          (log_if l.connection_cb (connection_changed state attempt) l))
        (λ r. returns (unlock r))
      ≡ deadlock
unfolding and_then
inside_lock state attempt l h =
    ap (λ r. and_then r (λ e. returns (unlock e)))
      (on_radio_locked state attempt _
        (log_if_locked l.connection_cb (connection_changed state attempt) l ∙ h))

-- `notifyConnectionState` never returns: it holds the mutex while the radio's state calls the
-- change callback, which locks the mutex again.
pub notify_connection_state-deadlock :
    (state attempt : ℤ) (e : Engine) → notify_connection_state state attempt e ≡ deadlock
unfolding notify_connection_state lock and_then
notify_connection_state-deadlock state attempt e = elim (Bool-cases e.cb_locked) [
  | inl t ↦ rw t
  | inr f ↦ rw (f, inside_lock state attempt (record e { cb_locked = true }) refl)
]

-- An example of a target.
abbrev pub some_target : Target
some_target = record { host = []; port = 0; psk = []; use_tls = false }

-- From any state of the engine, whatever the client's `connect` returns: `connect`, `disconnect`
-- and the handler of a lost connection do not return, since each calls `notifyConnectionState`,
-- which locks a mutex that it holds.
pub connection_calls_deadlock :
    (to : Target) (result : ℤ) (e : Engine)
    → (connect to result e ≡ deadlock) × (disconnect e ≡ deadlock) × (on_disconnected e ≡ deadlock)
unfolding connect disconnect on_disconnected and_then
connection_calls_deadlock to result e = (
  rw notify_connection_state-deadlock,
  notify_connection_state-deadlock _ _ _,
  rw notify_connection_state-deadlock,
)
