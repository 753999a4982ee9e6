-- ===== src/TcpClient/Read.antt =====
-- `TcpClient::readLoopFunc`: what the reading thread hands on, and how it leaves the client.
use ak.Base.{Bool, true, false, List, [], ◌∷◌, if◌then◌else◌}
use ak.Base.Text.{Bytes}
use ak.TcpClient.{TcpClient}

-- What a round of the loop finds: `m_readLoopRunning` is false, or it is still true and the call
-- gives bytes, the end of the connection (`recv` gives 0 or less, or `SSL_read` an error that is an
-- end), or another error of the TLS library.
pub data Reading : Type 0 where
  received : Bytes → Reading
  stopped ended tls_error : Reading

-- The chunks that the data callback is given, and whether the loop has ended. When the rounds run
-- out before, the thread waits for its next one.
unfoldable pub read_loop : Bool → List Reading → List Bytes × Bool
read_loop tls [] = ([], false)
read_loop tls (received bytes ∷ more) = let r = read_loop tls more in (bytes ∷ r.0, r.1)
read_loop tls (stopped ∷ more) = ([], true)
read_loop tls (ended ∷ more) = ([], true)
read_loop tls (tls_error ∷ more) = let r = read_loop tls more in if tls then r else ([], true)

-- Behind the loop, up to the disconnect callback. The thread has ended and has not been joined.
unfoldable pub connection_lost : TcpClient → TcpClient
connection_lost c = record c { connected = false; reading = false }
