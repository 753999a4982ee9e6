-- ===== src/TcpClient/Tests.antt =====
-- The client at concrete inputs.
use ak.Base.{zero, suc, ◌≡◌, refl, true, false, none, some, List, [], ◌∷◌, arith}
use ak.Base.Int.{pos, negsuc}
use ak.TcpClient.{
  TcpClient, Attempt, Tls, new, connect, connect_plain, connect_tls, start_tls, first_connected,
  succeeds, start_read_loop,
}
use ak.TcpClient.Send.{Writer, send}
use ak.TcpClient.Read.{connection_lost}
use ak.TcpClient.Lifecycle.{
  Op, connects, starts, disconnects, loses, run, IsValid, new-IsValid, run-IsConsistent,
  lost_connection_restart,
}

-- A system that takes two bytes at a time.
pairs : Writer
pairs k bytes = pos 2

-- One that takes a byte and then fails.
breaks : Writer
breaks zero bytes = pos 1
breaks (suc k) bytes = negsuc 0

abbrev reading : TcpClient
reading = record new {
  fd = some 5;
  connected = true;
  read_loop_running = true;
  joinable = true;
  reading = true;
  open_fds = 5 ∷ [];
}

abbrev addresses : List Attempt
addresses =
    record {
      socket = none;
      at_once = false;
      in_progress = false;
      writable = false;
      no_error = false;
    }
    ∷ record {
      socket = some 6;
      at_once = false;
      in_progress = true;
      writable = false;
      no_error = true;
    }
    ∷ record {
      socket = some 7;
      at_once = false;
      in_progress = true;
      writable = true;
      no_error = true;
    }
    ∷ []

abbrev tls : Tls
tls = record { context = true; session = true; handshake = true }

reading-IsValid : IsValid reading
reading-IsValid = ground arith

send_in_pairs :
    send pairs (b'a' ∷ b'b' ∷ b'c' ∷ b'd' ∷ []) reading
    ≡ some (pos 0, b'a' ∷ b'b' ∷ b'c' ∷ b'd' ∷ [])
unfolding send pairs
send_in_pairs = refl

send_stops : send breaks (b'a' ∷ b'b' ∷ []) reading ≡ some (negsuc 0, b'a' ∷ [])
unfolding send breaks
send_stops = refl

connect_third : (connect (some addresses) tls true true new).0.fd ≡ some 7
unfolding connect
connect_third = refl

abbrev session : List Op
session =
    connects (some addresses) tls true true
    ∷ starts
    ∷ loses
    ∷ connects (some addresses) tls true false
    ∷ starts
    ∷ disconnects
    ∷ []

run-IsConsistent_example : (d : TcpClient) × (run session new ≡ some d) × IsValid d
run-IsConsistent_example = run-IsConsistent session new new-IsValid

made_again : (connect (some addresses) tls true true (connection_lost reading)).1 ≡ pos 0
unfolding connect first_connected succeeds connect_tls connect_plain start_tls connection_lost
made_again = refl

lost_connection_restart_example :
    let d = (connect (some addresses) tls true true (connection_lost reading)).0 in
    (d.connected ≡ true)
    × (start_read_loop d ≡ some d)
    × (d.reading ≡ false)
    × (d.fd ≡ some 7)
    × (d.open_fds ≡ 7 ∷ 5 ∷ [])
unfolding first_connected succeeds
lost_connection_restart_example =
    lost_connection_restart reading 5 7 true true addresses tls reading-IsValid refl refl refl
      made_again
