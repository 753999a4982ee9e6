-- ===== src/Base/Decimal.antt =====
-- Printing a number and reading it back.
use native.Mathlib.Nat.{pow-suc, zero-sub}
use ak.Base.{
  ℕ, zero, suc, ◌+◌, ◌-◌, ◌*◌, ◌/◌, ◌%◌, ◌^◌, ◌≤◌, ◌<◌, ◌≡◌, refl, ◌∙◌, true, false, [], ◌∷◌, ◌++◌,
  some, arith, ltb, length, replicate, length-append, length-replicate, inl, inr, Bool-cases,
}
use ak.Base.Int.{ℤ, pos, negsuc}
use ak.Base.Text.{
  Bytes, is_digit, digits_onto, decimal, padded, print_padded, scan, stoll, stoi, sign_of, signed,
  starts_digit, skip_space, is_space,
}

scan-digit : (a d : ℕ) (cs : Bytes) → d < 10 → scan a ((b'0' + d) ∷ cs) ≡ scan (a * 10 + d) cs
unfolding scan
scan-digit a d cs h = ground arith

scan-digits_onto : (f n : ℕ) (acc : Bytes) → n < f → scan 0 (digits_onto f n acc) ≡ scan n acc
unfolding digits_onto
scan-digits_onto zero n acc h = elim h [ ]
scan-digits_onto (suc f) n acc h = elim (Bool-cases (ltb n 10)) [
  | inl small ↦ ground (arith, scan-digit 0 n acc)
  | inr large ↦
      ground (
        arith,
        scan-digits_onto f (n / 10) ((b'0' + n % 10) ∷ acc),
        scan-digit (n / 10) (n % 10) acc,
      )
]

pub scan-zeros : (k : ℕ) (cs : Bytes) → scan 0 (replicate k b'0' ++ cs) ≡ scan 0 cs
unfolding scan
scan-zeros zero cs = refl
scan-zeros (suc k) cs = scan-zeros k cs

pub scan-padded : (w n : ℕ) → scan 0 (padded w n) ≡ n
unfolding padded decimal
scan-padded w n =
    scan-zeros (w - length (decimal n)) (decimal n)
    ∙ scan-digits_onto (suc n) n [] (omega arith)
    ∙ unfold scan in refl

-- The first character is a digit.
abbrev pub DigitFirst : Bytes → Type 0
DigitFirst t = (c : ℕ) × (cs : Bytes) × (t ≡ c ∷ cs) × (is_digit c ≡ true)

digits_onto-DigitFirst : (f n : ℕ) (acc : Bytes) → n < f → DigitFirst (digits_onto f n acc)
unfolding digits_onto
digits_onto-DigitFirst zero n acc h = elim h [ ]
digits_onto-DigitFirst (suc f) n acc h = elim (Bool-cases (ltb n 10)) [
  | inl small ↦ (b'0' + n, acc, rw small, ground arith)
  | inr large ↦ rw large (digits_onto-DigitFirst f (n / 10) _ (ground arith))
]

replicate-DigitFirst : (k : ℕ) (t : Bytes) → DigitFirst t → DigitFirst (replicate k b'0' ++ t)
replicate-DigitFirst zero t d = d
replicate-DigitFirst (suc k) t d = (b'0', replicate k b'0' ++ t, refl, refl)

pub padded-DigitFirst : (w n : ℕ) → DigitFirst (padded w n)
unfolding padded decimal
padded-DigitFirst w n =
    replicate-DigitFirst (w - length (decimal n)) _
      (digits_onto-DigitFirst (suc n) n [] (omega arith))

length-digits_onto :
    (f k n : ℕ) (acc : Bytes) → n < 10 ^ suc k → length (digits_onto f n acc) ≤ suc k + length acc
unfolding digits_onto
length-digits_onto zero k n acc h = omega arith
length-digits_onto (suc f) zero n acc h = ground arith
length-digits_onto (suc f) (suc k) n acc h =
    ground (arith, pow-suc 10 (suc k), length-digits_onto f k (n / 10) ((b'0' + n % 10) ∷ acc))

-- A number below 10^(k+1) is printed with at most k + 1 digits.
pub length-decimal : (k n : ℕ) → n < 10 ^ suc k → length (decimal n) ≤ suc k
unfolding decimal
length-decimal k n h = omega (arith, length-digits_onto (suc n) k n [] h)

-- A padded number is never narrower than its field, and no wider where it fits.
pub length-padded_ge : (w n : ℕ) → w ≤ length (padded w n)
unfolding padded
length-padded_ge w n = omega (
  arith,
  length-append (replicate (w - length (decimal n)) b'0') (decimal n),
  length-replicate {A = ℕ} (w - length (decimal n)) b'0',
)

pub length-padded_le : (w k n : ℕ) → w ≤ suc k → n < 10 ^ suc k → length (padded w n) ≤ suc k
unfolding padded
length-padded_le w k n h m = omega (
  arith,
  length-append (replicate (w - length (decimal n)) b'0') (decimal n),
  length-replicate {A = ℕ} (w - length (decimal n)) b'0',
  length-decimal k n m,
)

pub padded-zero : (n : ℕ) → padded 0 n ≡ decimal n
unfolding padded
padded-zero n = rw zero-sub

module _ (w : ℕ) where
  -- Text that begins with a digit has no blanks and no sign to skip.
  sign_of-DigitFirst : (t : Bytes) → DigitFirst t → sign_of w (skip_space t) ≡ signed w false t
  unfolding sign_of skip_space is_space
  sign_of-DigitFirst [] (c, cs, e, d) = ground arith
  sign_of-DigitFirst (x ∷ t) (c, cs, e, d) = ground arith

  signed-DigitFirst :
      (t : Bytes) (n : ℕ)
      → DigitFirst t
      → scan 0 t ≡ n
      → n < 2 ^ w
      → signed w false t ≡ some (pos n)
  unfolding signed starts_digit
  signed-DigitFirst [] n (c, cs, e, d) s h = ground arith
  signed-DigitFirst (x ∷ t) n (c, cs, e, d) s h = ground arith

  read_padded : (k n : ℕ) → n < 2 ^ w → sign_of w (skip_space (padded k n)) ≡ some (pos n)
  read_padded k n h =
      sign_of-DigitFirst _ (padded-DigitFirst k n)
      ∙ signed-DigitFirst _ n (padded-DigitFirst k n) (scan-padded k n) h

  read_minus :
      (t : Bytes) (n : ℕ)
      → DigitFirst t
      → scan 0 t ≡ suc n
      → suc n ≤ 2 ^ w
      → sign_of w (skip_space (b'-' ∷ t)) ≡ some (negsuc n)
  unfolding sign_of skip_space is_space signed starts_digit
  read_minus [] n (c, cs, e, d) s h = ground arith
  read_minus (x ∷ t) n (c, cs, e, d) s h = ground arith

-- `std::stoll` of text that begins with a digit.
pub stoll-DigitFirst :
    (t : Bytes) (n : ℕ) → DigitFirst t → scan 0 t ≡ n → n < 2 ^ 63 → stoll t ≡ some (pos n)
unfolding stoll
stoll-DigitFirst t n d s h = sign_of-DigitFirst 63 t d ∙ signed-DigitFirst 63 t n d s h

-- The integers of a signed type of `w + 1` bits.
abbrev pub InRange : ℕ → ℤ → Type 0
InRange w (pos n) = n < 2 ^ w
InRange w (negsuc n) = n < 2 ^ w

-- `std::stoll` reads back every 64-bit number that `%0<k>lld` prints, at every width.
pub stoll-print_padded : (k : ℕ) (z : ℤ) → InRange 63 z → stoll (print_padded k z) ≡ some z
unfolding stoll print_padded
stoll-print_padded k (pos n) h = read_padded 63 k n h
stoll-print_padded k (negsuc n) h =
    read_minus 63 _ n (padded-DigitFirst (k - 1) (suc n)) (scan-padded (k - 1) (suc n)) h

-- `std::stoi` does for 32 bits.
pub stoi-print_padded : (k : ℕ) (z : ℤ) → InRange 31 z → stoi (print_padded k z) ≡ some z
unfolding stoi print_padded
stoi-print_padded k (pos n) h = read_padded 31 k n h
stoi-print_padded k (negsuc n) h =
    read_minus 31 _ n (padded-DigitFirst (k - 1) (suc n)) (scan-padded (k - 1) (suc n)) h
