-- ===== src/DxCluster/Reconnecting.antt =====
-- Connecting again when a connection is lost.
use ak.Base.{ℕ, ◌≡◌, refl, ◌∙◌, true, false, none, some, List, [], ◌∷◌, ◌++◌, arith}
use ak.Base.Int.{ℤ, pos}
use ak.Base.Text.{Bytes}
use ak.DxCluster.{
  DxClusterClient, Attempt, read_loop, connect, disconnect, first_connected, start_reading,
}
use ak.DxCluster.{login}
use ak.DxCluster.Lines.{read_loop_end}
use ak.Base.Doubles.{Doubles}

-- A client whose thread has ended.
module _ (lost : DxClusterClient) (l : List Attempt) (callsign : Bytes) (fd : ℕ) where
  connect_joinable :
      lost.joinable ≡ true
      → lost.connected ≡ false
      → first_connected l ≡ some fd
      → connect (some l) callsign lost ≡ none
  unfolding connect start_reading
  connect_joinable j h f = ground arith

  connect_disconnected :
      first_connected l ≡ some fd
      → (q : DxClusterClient) × (connect (some l) callsign (disconnect lost) ≡ some (q, pos 0))
        × (q.fd ≡ some fd)
        × (q.connected ≡ true)
        × (q.line_buffer ≡ [])
  unfolding connect disconnect start_reading
  connect_disconnected f = (
    record (disconnect lost) {
      callsign = callsign;
      fd = some fd;
      open_fds = fd ∷ (disconnect lost).open_fds;
      connected = true;
      running = true;
      joinable = true;
      sent = lost.sent ++ (login callsign ∷ []);
    },
    ground arith,
    refl,
    refl,
    refl,
  )

-- When a connection that was read from is lost, whatever was read: to connect again ends the program, as soon
-- as an address of the host answers, since the thread was not joined. Behind a call of `disconnect`
-- it succeeds, with the new socket and an empty buffer.
pub reconnect_terminates :
    (d : Doubles) (reads : List (ℤ × Bytes)) (c : DxClusterClient) (addresses : List Attempt)
    (callsign : Bytes) (fd : ℕ)
    → c.joinable ≡ true
    → first_connected addresses ≡ some fd
    → let lost = (read_loop d reads c).1 in
      (connect (some addresses) callsign lost ≡ none)
      × (q : DxClusterClient) × (connect (some addresses) callsign (disconnect lost)
          ≡ some (q, pos 0))
      × (q.fd ≡ some fd)
      × (q.connected ≡ true)
      × (q.line_buffer ≡ [])
reconnect_terminates d reads c addresses callsign fd j f =
    let e = read_loop_end d reads c in
    let lost = (read_loop d reads c).1 in
    let r = connect_disconnected lost addresses callsign fd f in
    (connect_joinable lost addresses callsign fd (e.0 ∙ j) e.1 f, r.0, r.1, r.2, r.3, r.4)
