-- ===== src/RadioUtils/Tuning.antt =====
-- The tuning rates and the cycle through them: `nextTuningRate`, `prevTuningRate`.
use mathlib.Core.Option
use mathlib.Core.Option.{Option}
use ak.Base.{
  ℕ, zero, suc, ◌+◌, ◌≡◌, refl, ◌⊎◌, inl, inr, Bool, true, ◌&&◌, List, [], ◌∷◌, none, some, arith,
  if◌then◌else◌, get_or,
}
use ak.Base.Int.{ℤ, pos, eq_ℤ, eq_ℤ_iff}

-- `s_tuningRates`
abbrev pub tuning_rates : List ℕ
tuning_rates = 1 ∷ 10 ∷ 20 ∷ 50 ∷ 100 ∷ 200 ∷ 500 ∷ 1000 ∷ 2000 ∷ 5000 ∷ 10000 ∷ []

-- `std::find`, as a position.
unfoldable pub find : List ℕ → ℤ → Option ℕ
find [] rate = none
find (r ∷ rs) rate = if eq_ℤ (pos r) rate then some 0 else Option.map suc (find rs rate)

abbrev first_rate : ℕ
first_rate = get_or tuning_rates 0 0

abbrev last_rate : ℕ
last_rate = get_or tuning_rates 10 0

unfoldable pub next_tuning_rate : ℤ → ℕ
unfolding find
next_tuning_rate rate = elim (find tuning_rates rate) [
  | none ↦ first_rate
  | some i ↦ get_or tuning_rates (i + 1) first_rate
]

unfoldable pub prev_tuning_rate : ℤ → ℕ
unfolding find
prev_tuning_rate rate = elim (find tuning_rates rate) [
  | none ↦ last_rate
  | some i ↦ elim i [ zero ↦ last_rate | suc j ↦ get_or tuning_rates j 0 ]
]

abbrev pub IsOneOf : ℤ → List ℕ → Type 0
IsOneOf v [] = ⊥
IsOneOf v (r ∷ rs) = (v ≡ pos r) ⊎ IsOneOf v rs

all : (ℤ → Bool) → List ℕ → Bool
all P [] = true
all P (r ∷ rs) = P (pos r) && all P rs

-- A property of all the members of a list that is decided by evaluation.
IsOneOf-all :
    (P : ℤ → Bool) (rates : List ℕ) (v : ℤ) → all P rates ≡ true → IsOneOf v rates → P v ≡ true
unfolding all
IsOneOf-all P [] v h m = absurd m
IsOneOf-all P (r ∷ rs) v h (inl e) = rw e (ground arith)
IsOneOf-all P (r ∷ rs) v h (inr m) = IsOneOf-all P rs v (ground arith) m

returns : ℤ → Bool
returns r = eq_ℤ (pos (prev_tuning_rate (pos (next_tuning_rate r)))) r

advances : ℤ → Bool
advances r = eq_ℤ (pos (next_tuning_rate (pos (prev_tuning_rate r)))) r

returns_table : all returns tuning_rates ≡ true
unfolding all returns next_tuning_rate prev_tuning_rate
returns_table = refl

advances_table : all advances tuning_rates ≡ true
unfolding all advances next_tuning_rate prev_tuning_rate
advances_table = refl

-- The steps up and down undo one another on every supported rate, round both ends of the list.
pub tuning_rates_cycle :
    (rate : ℤ)
    → IsOneOf rate tuning_rates
    → (pos (prev_tuning_rate (pos (next_tuning_rate rate))) ≡ rate)
      × (pos (next_tuning_rate (pos (prev_tuning_rate rate))) ≡ rate)
unfolding returns advances
tuning_rates_cycle rate m = (
  (eq_ℤ_iff _ rate).0 (IsOneOf-all returns tuning_rates rate returns_table m),
  (eq_ℤ_iff _ rate).0 (IsOneOf-all advances tuning_rates rate advances_table m),
)
