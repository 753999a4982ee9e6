-- ===== src/Protocol/Seek.antt =====
-- The search for the start marker of a frame, and what survives in the buffer when it fails.
use mathlib.Core.Option
use mathlib.Core.Option.{Option}
use ak.Base.{
  ℕ, zero, suc, ◌+◌, ◌-◌, ◌≤◌, ◌≡◌, refl, ap, ◌∙◌, sym, true, false, [], ◌∷◌, ◌++◌, ◌⊎◌, none, some,
  arith, ltb, lt→ltb, inl, inr, Bool-cases, Option-cases, length, drop, take, length-append,
  length-drop, min,
}
use ak.Protocol.{Bytes, start_marker, begins_with, find_start_marker, keep_last3}

-- A marker that fits is found or not whatever follows.
pub begins_with-append :
    (m xs ys : Bytes) → length m ≤ length xs → begins_with m (xs ++ ys) ≡ begins_with m xs
unfolding begins_with
begins_with-append [] xs ys h = refl
begins_with-append (x ∷ m) [] ys h = absurd (omega arith)
begins_with-append (x ∷ m) (y ∷ xs) ys h = ground (arith, begins_with-append m xs ys (omega arith))

length_of_begins_with : (m xs : Bytes) → begins_with m xs ≡ true → length m ≤ length xs
unfolding begins_with
length_of_begins_with [] xs h = omega arith
length_of_begins_with (x ∷ m) [] h = ground arith
length_of_begins_with (x ∷ m) (y ∷ xs) h = ground (arith, length_of_begins_with m xs)

-- A marker that is found lies inside the buffer.
pub find_start_marker_bound :
    (xs : Bytes) (i : ℕ) → find_start_marker xs ≡ some i → i + 4 ≤ length xs
unfolding find_start_marker
find_start_marker_bound [] i h = ground arith
find_start_marker_bound (b ∷ bs) i h = elim (Bool-cases (begins_with start_marker (b ∷ bs))) [
  | inl e ↦ ground (arith, length_of_begins_with start_marker (b ∷ bs) e)
  | inr e ↦ elim (Option-cases (find_start_marker bs)) [
    | inl n ↦ ground arith
    | inr (j, f) ↦ ground (arith, find_start_marker_bound bs j f)
  ]
]

-- A marker that is found stays the first one when more bytes arrive.
pub find_start_marker-append :
    (xs ys : Bytes) (i : ℕ) → find_start_marker xs ≡ some i → find_start_marker (xs ++ ys) ≡ some i
unfolding find_start_marker
find_start_marker-append [] ys i h = ground arith
find_start_marker-append (b ∷ bs) ys i h = elim (Bool-cases (begins_with start_marker (b ∷ bs))) [
  | inl e ↦ ground (
    arith,
    length_of_begins_with start_marker (b ∷ bs) e,
    begins_with-append start_marker (b ∷ bs) ys,
  )
  | inr e ↦ elim (Option-cases (find_start_marker bs)) [
    | inl n ↦ ground arith
    | inr (j, f) ↦ ground (
      arith,
      find_start_marker_bound bs j f,
      begins_with-append start_marker (b ∷ bs) ys,
      find_start_marker-append bs ys j f,
    )
  ]
]

-- What stands behind the first marker.
unfoldable pub after_marker : Bytes → Option Bytes
after_marker xs = Option.map (λ i. drop (i + 4) xs) (find_start_marker xs)

pub keep_last3-small : (xs : Bytes) → length xs ≤ 3 → keep_last3 xs ≡ xs
unfolding keep_last3
keep_last3-small xs h = ground arith

keep_last3-cons : (b : ℕ) (bs : Bytes) → 3 ≤ length bs → keep_last3 (b ∷ bs) ≡ keep_last3 bs
unfolding keep_last3
keep_last3-cons b bs h =
    let e : suc (length bs) - 3 ≡ suc (length bs - 3) = omega arith in
    elim (Bool-cases (ltb 3 (length bs))) [
      | inl more ↦ rw (more, lt→ltb 3 (suc (length bs)) (omega arith), e)
      | inr three ↦
          let z : length bs - 3 ≡ 0 = ground arith in
          rw (three, lt→ltb 3 (suc (length bs)) (omega arith), e, z)
    ]

after_marker-cons :
    (b : ℕ) (bs : Bytes)
    → begins_with start_marker (b ∷ bs) ≡ false
    → after_marker (b ∷ bs) ≡ after_marker bs
unfolding find_start_marker after_marker
after_marker-cons b bs h = elim (Option-cases (find_start_marker bs)) [
  | inl n ↦ rw (h, n)
  | inr (j, f) ↦ let e : suc j + 4 ≡ suc (j + 4) = omega arith in rw (h, f) (rw e)
]

find_start_marker-cons_none :
    (b : ℕ) (bs : Bytes)
    → find_start_marker (b ∷ bs) ≡ none
    → (begins_with start_marker (b ∷ bs) ≡ false) × (find_start_marker bs ≡ none)
unfolding find_start_marker
find_start_marker-cons_none b bs h = ground arith

-- After a failed search it is enough to keep the last three bytes: with more bytes behind them
-- the marker is found where it would have been found in the whole buffer.
pub after_marker-keep_last3 :
    (xs ys : Bytes)
    → find_start_marker xs ≡ none
    → after_marker (keep_last3 xs ++ ys) ≡ after_marker (xs ++ ys)
after_marker-keep_last3 [] ys h = rw (keep_last3-small [] (omega arith))
after_marker-keep_last3 (b ∷ bs) ys h = elim (Bool-cases (ltb (length bs) 3)) [
  | inl short ↦ rw (keep_last3-small (b ∷ bs) (ground arith))
  | inr long ↦
      let (e, n) = find_start_marker-cons_none b bs h in
      rw (keep_last3-cons b bs (ground arith)) (
        after_marker-keep_last3 bs ys n
        ∙ sym (
            after_marker-cons b (bs ++ ys)
              (begins_with-append start_marker (b ∷ bs) ys (ground arith) ∙ e)))
]

-- The bytes that are kept are those that the whole buffer would have kept.
pub keep_last3-append : (xs ys : Bytes) → keep_last3 (keep_last3 xs ++ ys) ≡ keep_last3 (xs ++ ys)
keep_last3-append [] ys = rw (keep_last3-small [] (omega arith))
keep_last3-append (b ∷ bs) ys = elim (Bool-cases (ltb (length bs) 3)) [
  | inl short ↦ rw (keep_last3-small (b ∷ bs) (ground arith))
  | inr long ↦ rw (keep_last3-cons b bs (ground arith)) (
      keep_last3-append bs ys
      ∙ sym (keep_last3-cons b (bs ++ ys) (ground (arith, length-append bs ys))))
]

pub length-keep_last3 : (xs : Bytes) → length (keep_last3 xs) ≡ min 3 (length xs)
unfolding keep_last3
length-keep_last3 xs = ground (arith, length-drop (length xs - 3) xs)

pub keep_last3-nil : keep_last3 [] ≡ []
unfolding keep_last3
keep_last3-nil = refl

pub drop-append : (n : ℕ) (xs ys : Bytes) → n ≤ length xs → drop n (xs ++ ys) ≡ drop n xs ++ ys
drop-append zero xs ys h = refl
drop-append (suc n) [] ys h = absurd (omega arith)
drop-append (suc n) (x ∷ xs) ys h = drop-append n xs ys (omega arith)

pub take-append : (n : ℕ) (xs ys : Bytes) → n ≤ length xs → take n (xs ++ ys) ≡ take n xs
take-append zero xs ys h = refl
take-append (suc n) [] ys h = absurd (omega arith)
take-append (suc n) (x ∷ xs) ys h = ap (λ t. x ∷ t) (take-append n xs ys (omega arith))

-- Two searches that fail or succeed together, and leave the same bytes, make the same round.
pub find_start_marker_iff :
    (xs : Bytes)
    → (after_marker xs ≡ none) × (find_start_marker xs ≡ none)
      ⊎ ((i : ℕ) × (find_start_marker xs ≡ some i) × (after_marker xs ≡ some (drop (i + 4) xs)))
unfolding after_marker
find_start_marker_iff xs = elim (Option-cases (find_start_marker xs)) [
  | inl n ↦ inl (rw n, n)
  | inr (i, f) ↦ inr (i, f, rw f)
]
