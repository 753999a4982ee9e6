-- ===== src/RingBuffer/Capacity/Bits.antt =====
-- The laws of the bitwise or that the smearing of `nextPowerOf2` needs.
use Prim.Native.Nat.{bit_or, digits, bit_or-bitwise}
use native.Mathlib.Nat.{div-div-eq-div-mul, pow-suc}
use ak.Base.{ℕ, zero, suc, ◌+◌, ◌*◌, ◌/◌, ◌%◌, ◌^◌, ◌≤◌, ◌≡◌, refl, sym, ap, ◌∙◌, max, arith}

-- The fuel of the library's definition beyond the first number does not matter.
or_digits_fuel :
    (n m a b : ℕ) → a ≤ n → a ≤ m → digits (λ b. b) max n a b ≡ digits (λ b. b) max m a b
or_digits_fuel zero zero zero b p q = refl
or_digits_fuel zero (suc m) zero b p q = refl
or_digits_fuel (suc n) zero zero b p q = refl
or_digits_fuel (suc n) (suc m) zero b p q = refl
or_digits_fuel zero m (suc a) b p q = absurd (omega arith)
or_digits_fuel (suc n) zero (suc a) b p q = absurd (omega arith)
or_digits_fuel (suc n) (suc m) (suc a) b p q =
    ap (λ t. t * 2 + max (suc a % 2) (b % 2))
      (or_digits_fuel n m (suc a / 2) (b / 2) (omega arith) (omega arith))

pub zero-bit_or : (b : ℕ) → bit_or 0 b ≡ b
zero-bit_or b = bit_or-bitwise 0 b

pub bit_or_step : (a b : ℕ) → bit_or a b ≡ bit_or (a / 2) (b / 2) * 2 + max (a % 2) (b % 2)
bit_or_step zero b = omega (arith, zero-bit_or b, zero-bit_or (b / 2))
bit_or_step (suc a) b =
    bit_or-bitwise (suc a) b
    ∙ ap (λ t. t * 2 + max (suc a % 2) (b % 2))
        (or_digits_fuel a (suc a / 2) (suc a / 2) (b / 2) (omega arith) (omega arith)
          ∙ sym (bit_or-bitwise (suc a / 2) (b / 2)))

pub bit_or-half : (a b : ℕ) → bit_or a b / 2 ≡ bit_or (a / 2) (b / 2)
bit_or-half a b = omega (arith, bit_or_step a b)

pub bit_or-parity : (a b : ℕ) → bit_or a b % 2 ≡ max (a % 2) (b % 2)
bit_or-parity a b = omega (arith, bit_or_step a b)

-- Equal lowest digits and equal halves.
by_digits : (a b : ℕ) → a / 2 ≡ b / 2 → a % 2 ≡ b % 2 → a ≡ b
by_digits a b h k = omega arith

bit_or_assoc_fuel : (n a b c : ℕ) → a ≤ n → bit_or (bit_or a b) c ≡ bit_or a (bit_or b c)
bit_or_assoc_fuel n zero b c h =
    ap (λ t. bit_or t c) (zero-bit_or b) ∙ sym (zero-bit_or (bit_or b c))
bit_or_assoc_fuel zero (suc a) b c h = absurd (omega arith)
bit_or_assoc_fuel (suc n) (suc a) b c h =
    by_digits _ _
      (bit_or-half (bit_or (suc a) b) c
        ∙ ap (λ t. bit_or t (c / 2)) (bit_or-half (suc a) b)
        ∙ bit_or_assoc_fuel n (suc a / 2) (b / 2) (c / 2) (omega arith)
        ∙ sym (bit_or-half (suc a) (bit_or b c) ∙ ap (bit_or (suc a / 2)) (bit_or-half b c)))
      (omega (
        arith,
        bit_or-parity (bit_or (suc a) b) c,
        bit_or-parity (suc a) b,
        bit_or-parity (suc a) (bit_or b c),
        bit_or-parity b c,
      ))

pub bit_or_assoc : (a b c : ℕ) → bit_or (bit_or a b) c ≡ bit_or a (bit_or b c)
bit_or_assoc a b c = bit_or_assoc_fuel a a b c (omega arith)

bit_or-zero_fuel : (n a : ℕ) → a ≤ n → bit_or a 0 ≡ a
bit_or-zero_fuel n zero h = zero-bit_or 0
bit_or-zero_fuel zero (suc a) h = absurd (omega arith)
bit_or-zero_fuel (suc n) (suc a) h =
    omega (arith, bit_or_step (suc a) 0, bit_or-zero_fuel n (suc a / 2) (omega arith))

pub bit_or-zero : (a : ℕ) → bit_or a 0 ≡ a
bit_or-zero a = bit_or-zero_fuel a a (omega arith)

-- Halved so many times.
unfoldable pub halves : ℕ → ℕ → ℕ
halves zero x = x
halves (suc k) x = halves k (x / 2)

pub halves-eq-div : (k x : ℕ) → halves k x ≡ x / 2 ^ k
unfolding halves
halves-eq-div zero x = omega arith
halves-eq-div (suc k) x =
    halves-eq-div k (x / 2)
    ∙ div-div-eq-div-mul x 2 (2 ^ k)
    ∙ ap (λ t. x / t) (omega (arith, pow-suc 2 k))

-- The or of a number with its halves, so many in all.
unfoldable pub smear : ℕ → ℕ → ℕ
smear zero x = 0
smear (suc n) x = bit_or x (smear n (x / 2))

pub smear-half : (n x : ℕ) → smear n x / 2 ≡ smear n (x / 2)
unfolding smear
smear-half zero x = refl
smear-half (suc n) x = bit_or-half x (smear n (x / 2)) ∙ ap (bit_or (x / 2)) (smear-half n (x / 2))

halves-smear : (k n x : ℕ) → halves k (smear n x) ≡ smear n (halves k x)
unfolding halves
halves-smear zero n x = refl
halves-smear (suc k) n x = ap (halves k) (smear-half n x) ∙ halves-smear k n (x / 2)

pub smear-add : (n m x : ℕ) → smear (n + m) x ≡ bit_or (smear n x) (smear m (halves n x))
unfolding smear halves
smear-add zero m x =
    let e : 0 + m ≡ m = omega arith in ap (λ n. smear n x) e ∙ sym (zero-bit_or (smear m x))
smear-add (suc n) m x =
    let e : suc n + m ≡ suc (n + m) = omega arith in
    ap (λ n. smear n x) e
    ∙ ap (bit_or x) (smear-add n m (x / 2))
    ∙ sym (bit_or_assoc x (smear n (x / 2)) (smear m (halves n (x / 2))))

pub smear-one : (x : ℕ) → smear 1 x ≡ x
unfolding smear
smear-one x = bit_or-zero x

-- One line of `nextPowerOf2`: `v |= v >> n` doubles the number of the halves.
pub smear-double : (n x : ℕ) → bit_or (smear n x) (smear n x / 2 ^ n) ≡ smear (n + n) x
smear-double n x =
    ap (bit_or (smear n x)) (sym (halves-eq-div n (smear n x)) ∙ halves-smear n n x)
    ∙ sym (smear-add n n x)
