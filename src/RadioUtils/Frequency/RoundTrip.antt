-- ===== src/RadioUtils/Frequency/RoundTrip.antt =====
-- A formatted frequency is read back.
use mathlib.Core.Option
use mathlib.Core.Path.{subst}
use ak.Base.{
  ℕ, zero, suc, ◌+◌, ◌-◌, ◌/◌, ◌%◌, ◌^◌, ◌≤◌, ◌<◌, ◌≡◌, refl, ap, sym, ◌∙◌, ◌⊎◌, Bool, true, false,
  ◌&&◌, Option, none, some, [], ◌∷◌, ◌++◌, ltb, ◌==◌, length, drop, replicate, arith, inl, inr,
  Bool-cases, Option-cases,
}
use ak.Base.Int.{ℤ, pos, negsuc}
use ak.Base.Text.{Bytes, is_digit, padded, scan, decimal, digits_onto}
use ak.Base.Decimal.{
  DigitFirst, padded-DigitFirst, scan-padded, scan-zeros, stoll-DigitFirst, InRange,
}
use ak.RadioUtils.Frequency.{
  group, find_if, is_dot, not_zero, kept_from, without_zeros, remove_zeros, format_frequency, clean,
  or_minus_one, parse_clean, parse_frequency,
}

-- Every byte is a digit.
all_digits : Bytes → Bool
all_digits [] = true
all_digits (c ∷ cs) = is_digit c && all_digits cs

all_digits-digits_onto :
    (f n : ℕ) (acc : Bytes)
    → n < f
    → all_digits acc ≡ true
    → all_digits (digits_onto f n acc) ≡ true
unfolding digits_onto all_digits
all_digits-digits_onto zero n acc h a = elim h [ ]
all_digits-digits_onto (suc f) n acc h a = elim (Bool-cases (ltb n 10)) [
  | inl small ↦ ground arith
  | inr large ↦ ground (arith, all_digits-digits_onto f (n / 10) ((b'0' + n % 10) ∷ acc))
]

all_digits-zeros : (k : ℕ) (t : Bytes) → all_digits (replicate k b'0' ++ t) ≡ all_digits t
unfolding all_digits
all_digits-zeros zero t = refl
all_digits-zeros (suc k) t = all_digits-zeros k t

all_digits-padded : (w n : ℕ) → all_digits (padded w n) ≡ true
unfolding padded decimal
all_digits-padded w n =
    all_digits-zeros (w - length (decimal n)) (decimal n)
    ∙ all_digits-digits_onto (suc n) n [] (omega arith) (unfold all_digits in refl)

-- Grouping puts in what cleaning takes out.
clean-group : (t : Bytes) → all_digits t ≡ true → clean (group t) ≡ some t
unfolding clean group all_digits
clean-group [] h = refl
clean-group (c ∷ cs) h = ground (arith, clean-group cs)

-- The bytes in front of the first one that is not a zero are zeros.
zeros-none :
    (r : Bytes) (k : ℕ)
    → find_if not_zero r ≡ none
    → k ≤ length r
    → r ≡ replicate k b'0' ++ drop k r
unfolding find_if
zeros-none r zero h l = refl
zeros-none [] (suc k) h l = elim l [ ]
zeros-none (x ∷ r) (suc k) h l = elim (Option-cases (find_if not_zero r)) [
  | inl e ↦ ground (arith, zeros-none r k e)
  | inr (y, e) ↦ absurd (ground arith)
]

zeros-some :
    (r : Bytes) (k z : ℕ) → find_if not_zero r ≡ some z → k ≤ z → r ≡ replicate k b'0' ++ drop k r
unfolding find_if
zeros-some r zero z h l = refl
zeros-some [] (suc k) z h l = absurd (ground arith)
zeros-some (x ∷ r) (suc k) z h l = elim (Option-cases (find_if not_zero r)) [
  | inl e ↦ absurd (ground arith)
  | inr (y, e) ↦ ground (arith, zeros-some r k y e)
]

-- A byte in front of the first period is not a period.
before_dot :
    (r : Bytes) (k f : ℕ)
    → find_if is_dot r ≡ some f
    → k < f
    → (c : ℕ) × (rest : Bytes) × (drop k r ≡ c ∷ rest) × ((c == b'.') ≡ false)
unfolding find_if
before_dot [] k f h l = absurd (ground arith)
before_dot (x ∷ r) zero f h l = (x, r, refl, ground arith)
before_dot (x ∷ r) (suc k) f h l = elim (Option-cases (find_if is_dot r)) [
  | inl e ↦ absurd (ground arith)
  | inr (y, e) ↦ before_dot r k y e (ground arith)
]

-- The text in which zeros in front are left out, and which then begins with a digit.
abbrev Shortened : Bytes → Bytes → Type 0
Shortened r s =
    (k : ℕ) × (c : ℕ) × (rest : Bytes) × (s ≡ c ∷ rest)
    × ((c == b'.') ≡ false)
    × (r ≡ replicate k b'0' ++ s)

find_if-bound : (p : ℕ → Bool) (r : Bytes) {f : ℕ} → find_if p r ≡ some f → f ≤ length r
unfolding find_if
find_if-bound p [] h = absurd (ground arith)
find_if-bound p (x ∷ r) {f} h = elim (Option-cases (find_if p r)) [
  | inl e ↦ ground arith
  | inr (y, e) ↦ ground (arith, find_if-bound p r e)
]

-- Behind at most as many bytes as there are zeros, and in front of the period.
kept_from_lem :
    (r : Bytes) (f : ℕ) (o : Option ℕ)
    → find_if is_dot r ≡ some f
    → 1 ≤ f
    → find_if not_zero r ≡ o
    → (kept_from f o < f) × (r ≡ replicate (kept_from f o) b'0' ++ drop (kept_from f o) r)
unfolding kept_from
kept_from_lem r f none d l h =
    (omega arith, zeros-none r (f - 1) h (omega (arith, find_if-bound is_dot r d)))
kept_from_lem r f (some z) d l h = elim (Bool-cases (ltb z f)) [
  | inl t ↦ rw t (ground arith, zeros-some r z z h (omega arith))
  | inr u ↦ rw u (omega arith, zeros-some r (f - 1) z h (ground arith))
]

first_dot :
    (c : ℕ) (r : Bytes) (f : ℕ) → (c == b'.') ≡ false → find_if is_dot (c ∷ r) ≡ some f → 1 ≤ f
unfolding find_if
first_dot c r f n h = ground arith

without_zeros-Shortened :
    (c : ℕ) (r : Bytes) (o : Option ℕ)
    → (c == b'.') ≡ false
    → find_if is_dot (c ∷ r) ≡ o
    → Shortened (c ∷ r) (without_zeros (c ∷ r) o)
unfolding without_zeros
without_zeros-Shortened c r none n h = (zero, c, r, refl, n, refl)
without_zeros-Shortened c r (some f) n h =
    let k = kept_from_lem (c ∷ r) f (find_if not_zero (c ∷ r)) h (first_dot c r f n h) refl in
    let (b, rest, e, m) = before_dot (c ∷ r) _ f h k.0 in
    (kept_from f (find_if not_zero (c ∷ r)), b, rest, e, m, k.1)

map_id : {A : Type 0} (o : Option A) → o ≡ Option.map (λ x. x) o
map_id none = refl
map_id (some x) = refl

map-map :
    {A B C : Type 0} (f : A → B) (g : B → C) (o : Option A)
    → Option.map g (Option.map f o) ≡ Option.map (λ x. g (f x)) o
map-map f g none = refl
map-map f g (some x) = refl

clean-zeros :
    (k : ℕ) (s : Bytes)
    → clean (replicate k b'0' ++ s) ≡ Option.map (λ t. replicate k b'0' ++ t) (clean s)
unfolding clean
clean-zeros zero s = map_id (clean s)
clean-zeros (suc k) s =
    ap (Option.map (λ t. b'0' ∷ t)) (clean-zeros k s)
    ∙ map-map (λ t. replicate k b'0' ++ t) (λ t. b'0' ∷ t) (clean s)

-- What cleaning makes of text that does not begin with a period.
clean-cons :
    (c : ℕ) (rest : Bytes)
    → (c == b'.') ≡ false
    → (clean (c ∷ rest) ≡ none)
      ⊎ ((u : Bytes) × (clean (c ∷ rest) ≡ some (c ∷ u)) × (is_digit c ≡ true))
unfolding clean
clean-cons c rest n = elim (Bool-cases (is_digit c)) [
  | inl d ↦ elim (Option-cases (clean rest)) [
    | inl e ↦ inl (rw (d, e) refl)
    | inr (u, e) ↦ inr (u, rw (d, e) refl, d)
  ]
  | inr d ↦ inl (rw (d, n) refl)
]

some_inj : {A : Type 0} {x y : A} → some x ≡ some y → x ≡ y
some_inj h = ground arith

none_ne_some : {A : Type 0} {x : A} → none ≡ some x → ⊥
none_ne_some h = ground arith

parse_Shortened :
    (r s t : Bytes) (n : ℕ)
    → Shortened r s
    → clean r ≡ some t
    → scan 0 t ≡ n
    → n < 2 ^ 63
    → parse_clean (clean s) ≡ pos n
unfolding parse_clean or_minus_one
parse_Shortened r s t n (k, c, rest, e, m, z) h v b =
    let whole = ap clean (z ∙ ap (λ q. replicate k b'0' ++ q) e) ∙ clean-zeros k (c ∷ rest) in
    let zeros = λ (q : Bytes). replicate k b'0' ++ q in
    elim (clean-cons c rest m) [
      | inl f ↦ absurd (none_ne_some (sym (ap (Option.map zeros) f) ∙ sym whole ∙ h))
      | inr (u, f, d) ↦
          let digits = some_inj (sym h ∙ whole ∙ ap (Option.map zeros) f) in
          ap (λ q. parse_clean (clean q)) e
          ∙ ap parse_clean f
          ∙ ap or_minus_one (
              stoll-DigitFirst (c ∷ u) n (c, u, refl, d)
                (sym (scan-zeros k (c ∷ u)) ∙ sym (ap (scan 0) digits) ∙ v) b)
    ]

group-cons : (c : ℕ) (cs : Bytes) → (rest : Bytes) × (group (c ∷ cs) ≡ c ∷ rest)
unfolding group
group-cons c cs = elim (Bool-cases (ltb 0 (length cs) && length cs % 3 == 0)) [
  | inl e ↦ (b'.' ∷ group cs, rw e refl)
  | inr e ↦ (group cs, rw e refl)
]

remove_zeros-group : (t : Bytes) → DigitFirst t → Shortened (group t) (remove_zeros (group t))
unfolding remove_zeros
remove_zeros-group t (c, cs, e, d) =
    let (rest, g) = group-cons c cs in
    subst (λ r. Shortened r (without_zeros r (find_if is_dot r))) (sym (ap group e ∙ g))
      (without_zeros-Shortened c rest (find_if is_dot (c ∷ rest)) (ground arith) refl)

format_lem : (n : ℕ) → n < 2 ^ 63 → parse_frequency (remove_zeros (group (padded 7 n))) ≡ pos n
unfolding parse_frequency
format_lem n h =
    parse_Shortened (group (padded 7 n)) _ (padded 7 n) n
      (remove_zeros-group (padded 7 n) (padded-DigitFirst 7 n))
      (clean-group (padded 7 n) (all_digits-padded 7 n)) (scan-padded 7 n) h

-- What stands for a frequency on the display: a negative one is shown as 0.
unfoldable pub shown : ℤ → ℤ
shown (pos n) = pos n
shown (negsuc n) = pos 0

-- `parseFrequency` reads back every 64-bit frequency that `formatFrequency` prints, with its padding
-- and its periods; a negative one is printed, and read back, as 0.
pub parse_frequency-format_frequency :
    (z : ℤ) → InRange 63 z → parse_frequency (format_frequency z) ≡ shown z
unfolding format_frequency shown
parse_frequency-format_frequency (pos n) h = format_lem n h
parse_frequency-format_frequency (negsuc n) h = format_lem 0 (ground arith)
