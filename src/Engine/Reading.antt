-- ===== src/Engine/Reading.antt =====
-- The reading thread of the engine's client: `TcpClient::readLoopFunc` with the callbacks that the
-- engine's constructor sets.
use ak.Base.{◌≡◌, Bool, false, Option, none, some, List, [], ◌∷◌, if◌then◌else◌}
use ak.Base.Text.{Bytes}
use ak.Protocol.Bounds.{IsQuiet}
use ak.RadioState.Invariant.{IsValid}
use ak.TcpClient.Read.{Reading, read_loop}
use ak.Engine.{Engine, Run, returns, deadlock}
use ak.Engine.Frames.{Decoder, on_data}
use ak.Engine.Connection.{on_disconnected}

-- A call that may need more fuel, and what comes behind it when it returns.
unfoldable pub then_more :
    (Engine → Option (Run Engine)) → Option (Run Engine) → Option (Run Engine)
then_more f none = none
then_more f (some deadlock) = some deadlock
then_more f (some (returns e)) = f e

unfoldable pub on_chunks : Decoder → List Bytes → Engine → Option (Run Engine)
unfolding then_more
on_chunks decode [] e = some (returns e)
on_chunks decode (bytes ∷ more) e = then_more (on_chunks decode more) (on_data decode bytes e)

-- Behind the loop, whatever ended it: `m_connected` is cleared and the disconnect callback called.
unfoldable pub at_end : Bool → Engine → Run Engine
at_end over e = if over then on_disconnected (record e { tcp_connected = false }) else returns e

-- The thread, given what the rounds of its loop find.
unfoldable pub reading_thread : Decoder → Bool → List Reading → Engine → Option (Run Engine)
unfolding on_chunks at_end then_more
reading_thread decode tls readings e =
    let r = read_loop tls readings in then_more (λ q. some (at_end r.1 q)) (on_chunks decode r.0 e)

-- Between two calls of the data callback.
pub record Ready (e : Engine) : Type 0 where
  pub quiet : IsQuiet e.protocol
  pub unlocked : e.cb_locked ≡ false
  pub valid : IsValid e.radio
