-- ===== src/Base/Lines.antt =====
-- Cutting a receive buffer at a delimiter: the loop
-- `while ((pos = buffer.find(sep)) != npos) { line = buffer.substr(0, pos); buffer.erase(0, pos + 1); ... }`
-- that the CAT server and the DX cluster client share.
use mathlib.Core.Option
use mathlib.Core.Option.{Option}
use ak.Base.{
  ℕ, zero, suc, ◌≤◌, ◌<◌, ◌≡◌, refl, false, List, [], ◌∷◌, ◌++◌, none, some, arith, ◌==◌,
  if◌then◌else◌, length, inl, inr, Bool-cases, Option-cases,
}
use ak.Base.Text.{Bytes}

-- The text in front of the first delimiter, and the text behind it.
unfoldable pub next_line : ℕ → Bytes → Option (Bytes × Bytes)
next_line sep [] = none
next_line sep (c ∷ cs) =
    if c == sep then some ([], cs) else Option.map (λ r. (c ∷ r.0, r.1)) (next_line sep cs)

-- The loop on fuel: the lines taken off, and what stays in the buffer.
unfoldable pub drain : ℕ → ℕ → Bytes → List Bytes × Bytes
drain sep zero buffer = ([], buffer)
drain sep (suc n) buffer = elim (next_line sep buffer) [
  | none ↦ ([], buffer)
  | some (line, rest) ↦ let r = drain sep n rest in (line ∷ r.0, r.1)
]

-- Each round takes off at least the delimiter, so one round more than there are bytes is enough.
unfoldable pub lines : ℕ → Bytes → List Bytes × Bytes
lines sep buffer = drain sep (suc (length buffer)) buffer

-- The same by recursion on the text.
unfoldable pub put : ℕ → List Bytes × Bytes → List Bytes × Bytes
put c ([], r) = ([], c ∷ r)
put c (l ∷ ls, r) = ((c ∷ l) ∷ ls, r)

unfoldable pub split : ℕ → Bytes → List Bytes × Bytes
split sep [] = ([], [])
split sep (c ∷ cs) = let r = split sep cs in if c == sep then ([] ∷ r.0, r.1) else put c r

pub split-next_line-none : (sep : ℕ) (b : Bytes) → next_line sep b ≡ none → split sep b ≡ ([], b)
unfolding next_line split put
split-next_line-none sep [] h = refl
split-next_line-none sep (c ∷ cs) h = ground (arith, split-next_line-none sep cs)

split-next_line :
    (sep : ℕ) (b : Bytes) {line rest : Bytes}
    → next_line sep b ≡ some (line, rest)
    → (split sep b ≡ (line ∷ (split sep rest).0, (split sep rest).1)) × (length rest < length b)
unfolding next_line split put
split-next_line sep [] h = ground arith
split-next_line sep (c ∷ cs) {line} {rest} h = elim (Option-cases (next_line sep cs)) [
  | inl n ↦ ground (arith)
  | inr ((l, r), e) ↦ ground (arith, split-next_line sep cs e)
]

drain-split : (sep n : ℕ) (b : Bytes) → length b < n → drain sep n b ≡ split sep b
unfolding drain
drain-split sep zero b h = elim h [ ]
drain-split sep (suc n) b h = elim (Option-cases (next_line sep b)) [
  | inl e ↦ ground (arith, split-next_line-none sep b e)
  | inr ((l, r), e) ↦ ground (arith, split-next_line sep b e, drain-split sep n r)
]

pub lines-split : (sep : ℕ) (b : Bytes) → lines sep b ≡ split sep b
unfolding lines
lines-split sep b = drain-split sep (suc (length b)) b (omega arith)

-- `p` is the split of a text, and `b` what follows the text.
put-append :
    (sep c : ℕ) (p : List Bytes × Bytes) (b : Bytes)
    → (c == sep) ≡ false
    → put c (p.0 ++ (split sep (p.1 ++ b)).0, (split sep (p.1 ++ b)).1)
      ≡ ((put c p).0 ++ (split sep ((put c p).1 ++ b)).0, (split sep ((put c p).1 ++ b)).1)
unfolding split put
put-append sep c ([], r) b e = rw e
put-append sep c (l ∷ ls, r) b e = refl

-- Taking the lines off a text, and then off what it leaves with more text behind, is taking them
-- off the whole.
pub split-append :
    (sep : ℕ) (a b : Bytes)
    → split sep (a ++ b) ≡ (
      (split sep a).0 ++ (split sep ((split sep a).1 ++ b)).0,
      (split sep ((split sep a).1 ++ b)).1,
    )
unfolding split
split-append sep [] b = refl
split-append sep (c ∷ cs) b = elim (Bool-cases (c == sep)) [
  | inl e ↦ rw (e, split-append sep cs b)
  | inr e ↦ rw (e, split-append sep cs b) (put-append sep c (split sep cs) b e)
]

put-none :
    (sep c : ℕ) (p : List Bytes × Bytes)
    → (c == sep) ≡ false
    → next_line sep p.1 ≡ none
    → next_line sep (put c p).1 ≡ none
unfolding next_line put
put-none sep c ([], r) e h = rw (e, h)
put-none sep c (l ∷ ls, r) e h = h

pub split-none : (sep : ℕ) (b : Bytes) → next_line sep (split sep b).1 ≡ none
unfolding split
split-none sep [] = unfold next_line in refl
split-none sep (c ∷ cs) = elim (Bool-cases (c == sep)) [
  | inl e ↦ rw e (split-none sep cs)
  | inr e ↦ rw e (put-none sep c (split sep cs) e (split-none sep cs))
]

-- No delimiter stays in the buffer: the loop ended by its own test.
pub lines-none : (sep : ℕ) (b : Bytes) → next_line sep (lines sep b).1 ≡ none
lines-none sep b = rw lines-split (split-none sep b)

-- What stays in the buffer is no longer than what was there.
pub length-split : (sep : ℕ) (b : Bytes) → length (split sep b).1 ≤ length b
unfolding split put
length-split sep [] = omega arith
length-split sep (c ∷ cs) = ground (arith, length-split sep cs)
