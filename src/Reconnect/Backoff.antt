-- ===== src/Reconnect/Backoff.antt =====
-- The delays of `getNextDelayMs` in reconnect_policy.cpp.
use native.Mathlib.Nat.{pow-suc, one-le-pow}
use ak.Base.{
  ℕ, zero, suc, ◌+◌, ◌*◌, ◌^◌, ◌≤◌, ◌≡◌, refl, ap, ◌∙◌, min, arith, ltb, inl, inr, ◌⊎◌, Bool-cases,
}
use ak.Reconnect.{ReconnectPolicy, double_while, get_next_delay_ms, on_attempt_failed}

double_pow : (d r : ℕ) → d * 2 * 2 ^ r ≡ d * 2 ^ suc r
double_pow d r = omega (arith, ap (λ (t : ℕ). d * t) (pow-suc 2 r))

le-mul-pow : (d r : ℕ) → d ≤ d * 2 ^ r
le-mul-pow d r = grind (arith, one-le-pow r 2)

-- The loop stops doubling at the limit, which the minimum does not see.
min-double_while :
    (rounds limit delay : ℕ)
    → min (double_while rounds limit delay) limit ≡ min (delay * 2 ^ rounds) limit
unfolding double_while
min-double_while zero limit delay = omega arith
min-double_while (suc r) limit delay = elim (Bool-cases (ltb delay limit)) [
  | inl e ↦ rw e (min-double_while r limit (delay * 2) ∙ ap (λ t. min t limit) (double_pow delay r))
  | inr e ↦ rw e (ground (arith, le-mul-pow delay (suc r)))
]

-- Behind the k-th failed attempt the delay is `initial * 2^(k-1)`, capped at the maximum.
pub get_next_delay_ms-eq :
    (p : ReconnectPolicy) (k : ℕ)
    → p.attempt ≡ suc k
    → get_next_delay_ms p ≡ min (p.config.initial_delay_ms * 2 ^ k) p.config.max_delay_ms
unfolding get_next_delay_ms
get_next_delay_ms-eq p k e =
    ground (arith, min-double_while k p.config.max_delay_ms p.config.initial_delay_ms)

-- If the initial delay is no longer than the maximum, the wait before the first failure and the
-- wait behind it are both the initial delay.
pub first_delays_eq :
    (p : ReconnectPolicy)
    → p.attempt ≡ 0
    → p.config.initial_delay_ms ≤ p.config.max_delay_ms
    → (get_next_delay_ms p ≡ p.config.initial_delay_ms)
      × (get_next_delay_ms (on_attempt_failed p).0 ≡ p.config.initial_delay_ms)
unfolding get_next_delay_ms on_attempt_failed
first_delays_eq p e h =
    ground (arith, min-double_while 0 p.config.max_delay_ms p.config.initial_delay_ms)

delay_step :
    (p : ReconnectPolicy) (k : ℕ)
    → p.attempt ≡ suc k
    → (get_next_delay_ms p ≤ get_next_delay_ms (on_attempt_failed p).0)
unfolding on_attempt_failed
delay_step p k e = ground (
  arith,
  get_next_delay_ms-eq p k e,
  get_next_delay_ms-eq (record p { attempt = p.attempt + 1 }) (suc k),
  double_pow p.config.initial_delay_ms k,
)

-- If the initial delay is no longer than the maximum, no wait exceeds the maximum, and none is
-- longer than the wait behind one more failure.
pub get_next_delay_ms_bounds :
    (p : ReconnectPolicy)
    → p.config.initial_delay_ms ≤ p.config.max_delay_ms
    → (get_next_delay_ms p ≤ p.config.max_delay_ms)
      × (get_next_delay_ms p ≤ get_next_delay_ms (on_attempt_failed p).0)
get_next_delay_ms_bounds p h = elim (attempt-cases p.attempt) [
  | inl z ↦ let (a, b) = first_delays_eq p z h in (omega arith, omega arith)
  | inr (k, e) ↦ (omega (arith, get_next_delay_ms-eq p k e), delay_step p k e)
]
  where
    attempt-cases : (n : ℕ) → (n ≡ 0) ⊎ ((k : ℕ) × (n ≡ suc k))
    attempt-cases zero = inl refl
    attempt-cases (suc k) = inr (k, refl)
