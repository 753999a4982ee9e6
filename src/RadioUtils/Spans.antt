-- ===== src/RadioUtils/Spans.antt =====
-- The span tiers of the spectrum display: `snapToSpanTier`, `nextSpanTier`, `prevSpanTier`.
use mathlib.Core.Path.{subst}
use mathlib.Core.List.{reverse}
use ak.Base.{
  ℕ, suc, ◌+◌, ◌-◌, ◌≤◌, ◌<◌, ◌≡◌, ◌⊎◌, inl, inr, refl, sym, List, [], ◌∷◌, arith, ltb, leb,
  if◌then◌else◌, Bool-cases,
}
use ak.Base.Int.{ℤ, pos, negsuc, leb_ℤ}

-- `s_spanTiers`
abbrev pub span_tiers : List ℕ
span_tiers =
    2000 ∷ 3000 ∷ 4000 ∷ 5000 ∷ 7000 ∷ 10000 ∷ 15000 ∷ 20000 ∷ 30000 ∷ 50000 ∷ 75000 ∷ 100000
    ∷ 150000 ∷ 200000 ∷ 300000 ∷ 500000 ∷ []

-- `std::abs(span_hz - tier)`; the difference of two `int32_t` does not overflow unless the span is
-- below -2^31 + 500000.
abbrev pub distance : ℤ → ℕ → ℕ
distance (pos n) t = if leb t n then n - t else t - n
distance (negsuc n) t = suc n + t

-- The loop over the tiers; `closest` is `closest`, and its distance is `minDiff`.
unfoldable pub closest_of : ℤ → List ℕ → ℕ → ℕ
closest_of span [] closest = closest
closest_of span (tier ∷ tiers) closest =
    closest_of span tiers
      (if ltb (distance span tier) (distance span closest) then tier else closest)

unfoldable pub snap_to_span_tier : ℤ → ℕ
unfolding closest_of
snap_to_span_tier span = closest_of span span_tiers 2000

-- The loop stops in front of the last tier, which is what it falls back to.
unfoldable pub next_from : List ℕ → ℤ → ℕ
next_from [] current = 0
next_from (t ∷ []) current = t
next_from (t ∷ u ∷ ts) current = if leb_ℤ current (pos t) then u else next_from (u ∷ ts) current

unfoldable pub next_span_tier : ℤ → ℕ
unfolding next_from
next_span_tier current = next_from span_tiers current

-- The loop runs from the last tier down, and stops in front of the first.
unfoldable pub prev_from : List ℕ → ℤ → ℕ
prev_from [] current = 0
prev_from (t ∷ []) current = t
prev_from (t ∷ u ∷ ts) current = if leb_ℤ (pos t) current then u else prev_from (u ∷ ts) current

unfoldable pub prev_span_tier : ℤ → ℕ
unfolding prev_from
prev_span_tier current = prev_from (reverse span_tiers) current

abbrev pub Mem : ℕ → List ℕ → Type 0
Mem t [] = ⊥
Mem t (u ∷ us) = (t ≡ u) ⊎ Mem t us

abbrev pub NoCloser : ℤ → ℕ → List ℕ → Type 0
NoCloser span c [] = Unit
NoCloser span c (t ∷ ts) = (distance span c ≤ distance span t) × NoCloser span c ts

closest_of_le :
    (span : ℤ) (ts : List ℕ) (c : ℕ) → distance span (closest_of span ts c) ≤ distance span c
unfolding closest_of
closest_of_le span [] c = omega arith
closest_of_le span (t ∷ ts) c = elim (Bool-cases (ltb (distance span t) (distance span c))) [
  | inl e ↦ rw e (ground (arith, closest_of_le span ts t))
  | inr e ↦ rw e (closest_of_le span ts c)
]

closest_of-cons :
    (span : ℤ) (t : ℕ) (ts : List ℕ) (c : ℕ)
    → (closest_of span (t ∷ ts) c ≡ closest_of span ts t)
      ⊎ ((closest_of span (t ∷ ts) c ≡ closest_of span ts c) × (distance span c ≤ distance span t))
unfolding closest_of
closest_of-cons span t ts c = elim (Bool-cases (ltb (distance span t) (distance span c))) [
  | inl e ↦ inl (rw e)
  | inr e ↦ inr (rw e, ground arith)
]

closest_of-NoCloser : (span : ℤ) (ts : List ℕ) (c : ℕ) → NoCloser span (closest_of span ts c) ts
closest_of-NoCloser span [] c = tt
closest_of-NoCloser span (t ∷ ts) c = elim (closest_of-cons span t ts c) [
  | inl e ↦
      subst (λ k. NoCloser span k (t ∷ ts)) (sym e)
        (closest_of_le span ts t, closest_of-NoCloser span ts t)
  | inr (e, h) ↦
      subst (λ k. NoCloser span k (t ∷ ts)) (sym e)
        (omega (arith, closest_of_le span ts c), closest_of-NoCloser span ts c)
]

closest_of-Mem : (span : ℤ) (ts : List ℕ) (c : ℕ) → Mem (closest_of span ts c) (c ∷ ts)
closest_of-Mem span [] c = inl (unfold closest_of in refl)
closest_of-Mem span (t ∷ ts) c = elim (closest_of-cons span t ts c) [
  | inl e ↦ subst (λ k. Mem k (c ∷ t ∷ ts)) (sym e) (inr (closest_of-Mem span ts t))
  | inr (e, h) ↦
      subst (λ k. Mem k (c ∷ t ∷ ts)) (sym e)
        (elim (closest_of-Mem span ts c) [ inl m ↦ inl m | inr m ↦ inr (inr m) ])
]

-- Snapping gives a supported tier, and no supported tier is closer, for every span.
pub snap_to_span_tier_lem :
    (span : ℤ)
    → Mem (snap_to_span_tier span) span_tiers × NoCloser span (snap_to_span_tier span) span_tiers
unfolding snap_to_span_tier
snap_to_span_tier_lem span = (
  elim (closest_of-Mem span span_tiers 2000) [ inl m ↦ inl m | inr m ↦ m ],
  closest_of-NoCloser span span_tiers 2000,
)

abbrev Rising : List ℕ → Type 0
Rising [] = Unit
Rising (t ∷ []) = Unit
Rising (t ∷ u ∷ ts) = (t < u) × Rising (u ∷ ts)

abbrev Falling : List ℕ → Type 0
Falling [] = Unit
Falling (t ∷ []) = Unit
Falling (t ∷ u ∷ ts) = (u < t) × Falling (u ∷ ts)

abbrev last : List ℕ → ℕ
last [] = 0
last (t ∷ []) = t
last (t ∷ u ∷ ts) = last (u ∷ ts)

next_from_wider : (ts : List ℕ) (n : ℕ) → Rising ts → n < last ts → n < next_from ts (pos n)
unfolding next_from
next_from_wider [] n r h = h
next_from_wider (t ∷ []) n r h = h
next_from_wider (t ∷ u ∷ ts) n r h = ground (arith, next_from_wider (u ∷ ts) n)

prev_from_narrower : (ts : List ℕ) (n : ℕ) → Falling ts → last ts < n → prev_from ts (pos n) < n
unfolding prev_from
prev_from_narrower [] n r h = h
prev_from_narrower (t ∷ []) n r h = h
prev_from_narrower (t ∷ u ∷ ts) n r h = ground (arith, prev_from_narrower (u ∷ ts) n)

-- Below the widest tier the next tier is wider, and above the narrowest the previous is narrower,
-- at every span, supported or not.
pub span_tiers_step :
    (n : ℕ) → (n < 500000 → n < next_span_tier (pos n)) × (2000 < n → prev_span_tier (pos n) < n)
unfolding next_span_tier prev_span_tier
span_tiers_step n = (
  next_from_wider span_tiers n (omega arith),
  prev_from_narrower (reverse span_tiers) n (omega arith),
)

next_from_skips :
    (t u v : ℕ) (ts : List ℕ) (n : ℕ) → t < n → n < u → next_from (t ∷ u ∷ v ∷ ts) (pos n) ≡ v
unfolding next_from
next_from_skips t u v ts n h k = ground arith

-- A span strictly between 5 and 7 kHz is stepped past the next wider tier, to 10 kHz, and one
-- strictly between 100 and 150 kHz is stepped to 200 kHz.
pub next_span_tier_skips :
    (n : ℕ)
    → (5000 < n → n < 7000 → next_span_tier (pos n) ≡ 10000)
      × (100000 < n → n < 150000 → next_span_tier (pos n) ≡ 200000)
unfolding next_span_tier
next_span_tier_skips n = ground arith
