-- ===== src/DxCluster/Text.antt =====
-- The steps of `parseSpot` on text that is put together from its parts.
use mathlib.Core.List.{append_assoc}
use ak.Base.{
  ℕ, zero, suc, ◌-◌, ◌≡◌, refl, ap, sym, ◌∙◌, Bool, true, false, not, ◌&&◌, some, List, [], ◌∷◌,
  ◌++◌, leb, ◌==◌, length, take, drop, replicate, arith, length-append,
}
use ak.Base.Text.{Bytes, is_digit, is_space, skip_space}
use ak.DxCluster.Spot.{
  find, put_trimmed, trim_end, span, word, getline, drop_blanks, trim_start, or_whole, not_empty,
  is_time, drop_time, comment_of,
}

-- No byte of a text is this one; none is a blank of any kind.
unfoldable pub lacks : ℕ → Bytes → Bool
lacks c [] = true
lacks c (x ∷ xs) = not (x == c) && lacks c xs

unfoldable pub no_space : Bytes → Bool
no_space [] = true
no_space (x ∷ xs) = not (is_space x) && no_space xs

-- The last byte is not a blank, and neither is the first.
unfoldable pub ends_well : Bytes → Bool
ends_well [] = true
ends_well (x ∷ xs) = elim xs [ [] ↦ not (x == b' ') | y ∷ ys ↦ ends_well xs ]

unfoldable pub starts_well : Bytes → Bool
starts_well [] = true
starts_well (x ∷ xs) = not (x == b' ')

abbrev pub blanks : ℕ → Bytes
blanks n = replicate n b' '

module _ {ℓ} {A : Type ℓ} where
  pub take_front : (xs ys : List A) → take (length xs) (xs ++ ys) ≡ xs
  take_front [] ys = refl
  take_front (x ∷ xs) ys = ap (λ t. x ∷ t) (take_front xs ys)

  drop_front : (xs ys : List A) → drop (length xs) (xs ++ ys) ≡ ys
  drop_front [] ys = refl
  drop_front (x ∷ xs) ys = drop_front xs ys

  pub drop_past : (xs : List A) (y : A) (ys : List A) → drop (suc (length xs)) (xs ++ (y ∷ ys)) ≡ ys
  drop_past [] y ys = refl
  drop_past (x ∷ xs) y ys = drop_past xs y ys

pub find-lacks :
    (c : ℕ) (s t : Bytes) → lacks c s ≡ true → find c zero (s ++ (c ∷ t)) ≡ some (length s)
unfolding find lacks
find-lacks c [] t h = ground arith
find-lacks c (x ∷ s) t h = ground (arith, find-lacks c s t)

getline-lacks : (s : Bytes) → lacks b'\n' s ≡ true → getline s ≡ s
unfolding getline lacks
getline-lacks [] h = refl
getline-lacks (x ∷ s) h = ground (arith, getline-lacks s)

lacks-append : (c : ℕ) (s t : Bytes) → lacks c (s ++ t) ≡ (lacks c s && lacks c t)
unfolding lacks
lacks-append c [] t = refl
lacks-append c (x ∷ s) t = ground (arith, lacks-append c s t)

lacks-blanks : (n : ℕ) → lacks b'\n' (blanks n) ≡ true
unfolding lacks
lacks-blanks zero = refl
lacks-blanks (suc n) = lacks-blanks n

trim_end-blanks : (n : ℕ) → trim_end (blanks n) ≡ []
unfolding trim_end put_trimmed
trim_end-blanks zero = refl
trim_end-blanks (suc n) = rw (trim_end-blanks n)

trim_end-append : (t : Bytes) (n : ℕ) → ends_well t ≡ true → trim_end (t ++ blanks n) ≡ t
unfolding trim_end put_trimmed ends_well
trim_end-append [] n h = trim_end-blanks n
trim_end-append (x ∷ []) n h = ground (arith, trim_end-blanks n)
trim_end-append (x ∷ y ∷ ys) n h = rw (trim_end-append (y ∷ ys) n h)

pub trim_end-whole : (t : Bytes) → ends_well t ≡ true → trim_end t ≡ t
unfolding trim_end put_trimmed ends_well
trim_end-whole [] h = refl
trim_end-whole (x ∷ []) h = ground arith
trim_end-whole (x ∷ y ∷ ys) h = rw (trim_end-whole (y ∷ ys) h)

drop_blanks-blanks : (n : ℕ) (t : Bytes) → drop_blanks (blanks n ++ t) ≡ drop_blanks t
unfolding drop_blanks
drop_blanks-blanks zero t = refl
drop_blanks-blanks (suc n) t = drop_blanks-blanks n t

drop_blanks-cons : (x : ℕ) (t : Bytes) → (x == b' ') ≡ false → drop_blanks (x ∷ t) ≡ x ∷ t
unfolding drop_blanks
drop_blanks-cons x t h = rw h

skip_space-blanks :
    (n : ℕ) (x : ℕ) (t : Bytes) → is_space x ≡ false → skip_space (blanks n ++ (x ∷ t)) ≡ x ∷ t
unfolding skip_space is_space
skip_space-blanks zero x t h = rw h
skip_space-blanks (suc n) x t h = skip_space-blanks n x t h

span-no_space : (w t : Bytes) → no_space w ≡ true → span (w ++ (b' ' ∷ t)) ≡ (w, b' ' ∷ t)
unfolding span no_space
span-no_space [] t h = unfold is_space in refl
span-no_space (x ∷ w) t h = ground (arith, span-no_space w t)

pub word-blanks :
    (n x : ℕ) (w t : Bytes)
    → no_space (x ∷ w) ≡ true
    → word (blanks n ++ ((x ∷ w) ++ (b' ' ∷ t))) ≡ some (x ∷ w, b' ' ∷ t)
unfolding word not_empty no_space
word-blanks n x w t h =
    ap (λ s. not_empty (span s)) (skip_space-blanks n x (w ++ (b' ' ∷ t)) (ground arith))
    ∙ ap not_empty (span-no_space (x ∷ w) t h)

-- The time that is printed: four digits and a `Z`.
abbrev pub AllDigits : ℕ → ℕ → ℕ → ℕ → Type 0
AllDigits a b c d =
    (is_digit a ≡ true) × (is_digit b ≡ true) × (is_digit c ≡ true) × (is_digit d ≡ true)

abbrev pub time : ℕ → ℕ → ℕ → ℕ → Bytes
time a b c d = a ∷ b ∷ c ∷ d ∷ b'Z' ∷ []

drop_time-time : (t : Bytes) (a b c d : ℕ) → AllDigits a b c d → drop_time (t ++ time a b c d) ≡ t
unfolding drop_time is_time
drop_time-time t a b c d h =
    rw (from_end, long, drop_front t (time a b c d), take_front t (time a b c d), digits)
  where
    from_end : length (t ++ time a b c d) - 5 ≡ length t
    from_end = omega (arith, length-append t (time a b c d))

    long : leb 5 (length (t ++ time a b c d)) ≡ true
    long = ground (arith, length-append t (time a b c d))

    digits : is_time (time a b c d) ≡ true
    digits = ground arith

module _ (a b c d : ℕ) (h : AllDigits a b c d) where
  digit_not_blank : (a == b' ') ≡ false
  digit_not_blank = ground arith

  lacks-time : lacks b'\n' (time a b c d) ≡ true
  unfolding lacks
  lacks-time = ground arith

  -- Behind the callsign, without the blanks in front.
  trim_start-comment :
      (i j : ℕ) (comment : Bytes)
      → starts_well comment ≡ true
      → (k : ℕ) × (trim_start (blanks i ++ (comment ++ (blanks j ++ time a b c d)))
          ≡ comment ++ (blanks k ++ time a b c d))
  unfolding trim_start or_whole starts_well
  trim_start-comment i j [] s = (
    zero,
    ap (or_whole _)
        (drop_blanks-blanks i _ ∙ drop_blanks-blanks j _ ∙ drop_blanks-cons a _ digit_not_blank),
  )
  trim_start-comment i j (x ∷ xs) s =
      (j, ap (or_whole _) (drop_blanks-blanks i _ ∙ drop_blanks-cons x _ (ground arith)))

  pub comment_of_lem :
      (i j : ℕ) (comment : Bytes)
      → starts_well comment ≡ true
      → ends_well comment ≡ true
      → lacks b'\n' comment ≡ true
      → comment_of (blanks i ++ (comment ++ (blanks j ++ time a b c d))) ≡ comment
  unfolding comment_of
  comment_of_lem i j comment s e l =
      let (k, trimmed) = trim_start-comment i j comment s in
      ap (λ t. trim_end (drop_time (trim_start t))) (getline-lacks _ one_line)
      ∙ ap (λ t. trim_end (drop_time t))
          (trimmed ∙ sym (append_assoc comment (blanks k) (time a b c d)))
      ∙ ap trim_end (drop_time-time (comment ++ blanks k) a b c d h)
      ∙ trim_end-append comment k e
    where
      one_line : lacks b'\n' (blanks i ++ (comment ++ (blanks j ++ time a b c d))) ≡ true
      one_line =
          rw (
            lacks-append,
            lacks-append,
            lacks-append,
            lacks-blanks i,
            lacks-blanks j,
            l,
            lacks-time,
          )
