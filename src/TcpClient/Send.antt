-- ===== src/TcpClient/Send.antt =====
-- `TcpClient::send`: the loop over partial writes.
use mathlib.Core.Option
use ak.Base.{
  ℕ, zero, suc, ◌≡◌, Option, none, some, [], ◌∷◌, ◌++◌, length, take, drop, if◌then◌else◌,
}
use ak.Base.Int.{ℤ, pos, negsuc}
use ak.Base.Text.{Bytes}
use ak.TcpClient.{TcpClient}

-- What the k-th call of `SSL_write` or `::send` returns for the bytes that are left: how many it
-- took, or 0 or less on an error.
abbrev pub Writer : Type 0
Writer = ℕ → Bytes → ℤ

abbrev pub Sent : Type 0
Sent = Option (ℤ × Bytes)

-- What one result of a write makes of the call: the end of it, or the rest of the loop.
unfoldable pub took : (ℕ → Sent) → Bytes → ℤ → Sent
took next bytes (negsuc n) = some (negsuc 0, [])
took next bytes (pos zero) = some (negsuc 0, [])
took next bytes (pos (suc n)) = Option.map (λ r. (r.0, take (suc n) bytes ++ r.1)) (next (suc n))

-- The loop on fuel: the result, and the bytes that were taken, in order.
unfoldable pub send_loop : Writer → ℕ → ℕ → Bytes → Sent
unfolding took
send_loop write zero k rest = none
send_loop write (suc fuel) k [] = some (pos 0, [])
send_loop write (suc fuel) k (b ∷ rest) =
    took (λ n. send_loop write fuel (suc k) (drop n (b ∷ rest))) (b ∷ rest) (write k (b ∷ rest))

-- Each round takes at least one byte, so that one round more than there are bytes is enough.
unfoldable pub send : Writer → Bytes → TcpClient → Sent
unfolding send_loop
send write bytes c =
    if c.connected then send_loop write (suc (length bytes)) 0 bytes else some (negsuc 0, [])

-- How a call ends: with 0 when all bytes were taken, and else with -1 when a prefix was.
pub data Ends (bytes : Bytes) : Sent → Type 0 where
  all_taken : Ends bytes (some (pos 0, bytes))
  some_taken : (taken rest : Bytes) → bytes ≡ taken ++ rest → Ends bytes (some (negsuc 0, taken))
