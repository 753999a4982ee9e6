-- ===== src/RingBuffer/Capacity/PowerOf2.antt =====
-- What `nextPowerOf2` computes, and the ring that the constructor makes with it.
use native.Mathlib.Nat.{pow-suc, mul-mod_right}
use Prim.Native.Nat.{bit_or}
use ak.Base.{
  ℕ, zero, suc, ◌+◌, ◌-◌, ◌*◌, ◌/◌, ◌%◌, ◌^◌, ◌≤◌, ◌<◌, ◌≡◌, refl, sym, ap, ◌∙◌, max, arith, ◌==◌,
  if◌then◌else◌, Bool-cases, inl, inr,
}
use ak.RingBuffer.{add_64, sub_64, available}
use ak.RingBuffer.Queue.{IsValid}
use ak.RingBuffer.Capacity.{smear_by, next_power_of_2, create}
use ak.RingBuffer.Capacity.Bits.{
  bit_or-parity, bit_or-zero, halves, halves-eq-div, smear, smear-half, smear-add, smear-one,
  smear-double,
}

-- The least power of two above a number of so many binary digits.
above : ℕ → ℕ → ℕ
above zero x = 1
above (suc n) x = if x == 0 then 1 else 2 * above n (x / 2)

smear-stable : (n x : ℕ) → halves n x ≡ 0 → smear (suc n) x ≡ smear n x
smear-stable n x h =
    let e : suc n ≡ n + 1 = omega arith in
    ap (λ n. smear n x) e
    ∙ smear-add n 1 x
    ∙ ap (bit_or (smear n x)) (smear-one (halves n x) ∙ h)
    ∙ bit_or-zero (smear n x)

above-even : (n x : ℕ) → halves n x ≡ 0 → 0 < x → above n x % 2 ≡ 0
unfolding above halves
above-even zero x h k = absurd (omega arith)
above-even (suc n) x h k = ground arith

above-zero : (n : ℕ) → above n 0 ≡ 1
unfolding above
above-zero zero = refl
above-zero (suc n) = refl

above-of_zero : (n x : ℕ) → x ≡ 0 → above n x ≡ 1
above-of_zero n x h = ap (above n) h ∙ above-zero n

-- Smeared over all its digits, a number is one less than the power of two above it.
smear-above : (n x : ℕ) → halves n x ≡ 0 → smear n x + 1 ≡ above n x
unfolding halves smear above
smear-above zero x h = refl
smear-above (suc n) x h =
    let half : smear (suc n) x / 2 ≡ smear n (x / 2) =
      smear-half (suc n) x ∙ smear-stable n (x / 2) h in
    ground (
      arith,
      half,
      bit_or-parity x (smear n (x / 2)),
      smear-above n (x / 2) h,
      above-even n (x / 2) h,
      above-of_zero n (x / 2),
    )

above-bounds : (n x : ℕ) → halves n x ≡ 0 → (x < above n x) × (above n x ≤ max (2 * x) 1)
unfolding above halves
above-bounds zero x h = omega arith
above-bounds (suc n) x h = ground (arith, above-bounds n (x / 2) h, above-of_zero n (x / 2))

above-divides : (n x : ℕ) → (q : ℕ) × (above n x * q ≡ 2 ^ n)
unfolding above
above-divides zero x = (1, refl)
above-divides (suc n) x = elim (Bool-cases (x == 0)) [
  | inl t ↦ (2 ^ suc n, rw t (omega arith))
  | inr f ↦ let (q, e) = above-divides n (x / 2) in (q, rw f (grind (arith, pow-suc)))
]

smeared :
    (x : ℕ)
    → smear_by 32 (smear_by 16 (smear_by 8 (smear_by 4 (smear_by 2 (smear_by 1 x))))) ≡ smear 64 x
smeared x =
    ap (λ v. smear_by 32 (smear_by 16 (smear_by 8 (smear_by 4 (smear_by 2 v)))))
      (ap (smear_by 1) (sym (smear-one x)) ∙ smear-double 1 x)
    ∙ ap (λ v. smear_by 32 (smear_by 16 (smear_by 8 (smear_by 4 v)))) (smear-double 2 x)
    ∙ ap (λ v. smear_by 32 (smear_by 16 (smear_by 8 v))) (smear-double 4 x)
    ∙ ap (λ v. smear_by 32 (smear_by 16 v)) (smear-double 8 x)
    ∙ ap (smear_by 32) (smear-double 16 x)
    ∙ smear-double 32 x

short : (x : ℕ) → x < 2 ^ 64 → halves 64 x ≡ 0
short x h = halves-eq-div 64 x ∙ omega arith

next_power_of_2-above : (v : ℕ) → 1 ≤ v → v ≤ 2 ^ 63 → next_power_of_2 v ≡ above 64 (v - 1)
unfolding next_power_of_2
next_power_of_2-above v h k =
    let e : sub_64 v 1 ≡ v - 1 = omega arith in
    let d : halves 64 (v - 1) ≡ 0 = short (v - 1) (omega arith) in
    ap (λ t. add_64 t 1) (smeared (sub_64 v 1) ∙ ap (smear 64) e)
    ∙ omega (arith, smear-above 64 (v - 1) d, above-bounds 64 (v - 1) d)

-- The constructor, for a capacity of 1 to 2^63 samples: it makes a ring of at least that capacity
-- and of less than twice that, empty, whose capacity divides 2^64 and is no greater than 2^63, so
-- that all that is proved of rings holds from there on.
pub create-IsValid :
    (capacity_samples : ℕ)
    → 1 ≤ capacity_samples
    → capacity_samples ≤ 2 ^ 63
    → let r = create capacity_samples in
      IsValid r
      × (available r ≡ 0)
      × (capacity_samples ≤ r.capacity)
      × (r.capacity < 2 * capacity_samples)
unfolding create available
create-IsValid n h k =
    let d : halves 64 (n - 1) ≡ 0 = short (n - 1) (omega arith) in
    let e = next_power_of_2-above n h k in
    let (q, f) = above-divides 64 (n - 1) in
    let b = above-bounds 64 (n - 1) d in
    (
      record {
        divides =
            ap (λ t. 2 ^ 64 % t) e
            ∙ ap (λ t. t % above 64 (n - 1)) (sym f)
            ∙ mul-mod_right (above 64 (n - 1)) q;
        small = omega (arith, e, b);
        some_room = omega (arith, e, b);
        read_in_range = omega arith;
        write_in_range = omega arith;
        fill = omega arith;
      },
      refl,
      omega (arith, e, b),
      omega (arith, e, b),
    )
