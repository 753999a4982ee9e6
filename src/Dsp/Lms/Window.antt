-- ===== src/Dsp/Lms/Window.antt =====
-- The delay line as a ring is the list of the last inputs.
use native.Mathlib.Nat.{mod-eq_of_lt, add-mod_right, mod_self, mod-lt}
use ak.Base.{
  ℕ, zero, suc, ◌⊎◌, ◌+◌, ◌-◌, ◌/◌, ◌%◌, ◌≤◌, ◌<◌, ◌≡◌, ◌≢◌, refl, ap, ap₂, ◌∙◌, true, List, [],
  ◌∷◌, ltb, leb, inl, inr, Bool-cases, arith,
}
use ak.Base.Int.{ℤ, pos, negsuc}
use ak.Dsp.{Floats, clamp}
use ak.Dsp.Lms.{
  NrLms, slot, store, sum, norm_factor, adapt, process_sample, of_sample, to_sample, process_all,
  process, set_enabled, set_level, clamp_level, nought,
}

-- The adaptive filter by the book: the weights, and the inputs so far, the newest first.
pub record Filter (f : Floats) : Type 0 where
  pub weights : ℕ → f.Float
  pub inputs : ℕ → f.Float

unfoldable pub cons : {A : Type 0} → A → (ℕ → A) → ℕ → A
cons x h zero = x
cons x h (suc j) = h j

-- `w(0) x(0) + ... + w(n-1) x(n-1)`, added from the left to 0.
unfoldable pub dot : (f : Floats) → ℕ → (ℕ → f.Float) → (ℕ → f.Float) → f.Float
dot f zero w x = f.of_int (pos 0)
dot f (suc n) w x = f.plus (dot f n w x) (f.times (w n) (x n))

module _ (f : Floats) (taps : ℕ) (mu : f.Float) where
  -- The error is the input of `taps / 2` samples ago less the estimate, the inner product of the
  -- weights and the inputs. It is put out, and each weight moves by the step size
  -- `mu / (1 + mu * taps)` times the error times its input.
  unfoldable pub filter_sample : f.Float → Filter f → Filter f × f.Float
  unfolding cons dot
  filter_sample input q =
      let inputs = cons input q.inputs in
      let error = f.minus (inputs (taps / 2)) (dot f taps q.weights inputs) in
      let size = f.divided mu (f.plus (f.of_int (pos 1)) (f.times mu (f.of_int (pos taps)))) in
      (
        record {
          weights = λ j. f.plus (q.weights j) (f.times (f.times size error) (inputs j));
          inputs = inputs;
        },
        error,
      )

  -- A sample of 16 bits stands for its part of 32768, and an output of -1 to 1, beyond which it is
  -- cut, is scaled by 32767.
  unfoldable pub filter_all : List ℤ → Filter f → List ℤ
  unfolding filter_sample
  filter_all [] q = []
  filter_all (x ∷ xs) q =
      let r = filter_sample (f.divided (f.of_int x) (f.of_int (pos 32768))) q in
      let y = clamp f r.1 (f.of_int (negsuc 0)) (f.of_int (pos 1)) in
      f.to_int16 (f.times y (f.of_int (pos 32767))) ∷ filter_all xs r.0

-- Where an input stands: at most `index` samples ago in front of it, and else at the end.
slot_le : (t i j : ℕ) → i < t → j ≤ i → slot t i j ≡ i - j
unfolding slot
slot_le t i j h k =
    ap (λ n. n % t) (omega arith) ∙ add-mod_right (i - j) t ∙ mod-eq_of_lt (omega arith)

slot_gt : (t i j : ℕ) → i < j → j ≤ t → slot t i j ≡ i + t - j
unfolding slot
slot_gt t i j h k = mod-eq_of_lt (omega arith)

slot_zero : (t i : ℕ) → i < t → slot t i 0 ≡ i
slot_zero t i h = slot_le t i 0 h (omega arith) ∙ omega arith

le_or_lt : (a b : ℕ) → (a ≤ b) ⊎ (b < a)
le_or_lt a b = elim (Bool-cases (leb a b)) [
  | inl e ↦ inl (ground arith)
  | inr e ↦ inr (ground arith)
]

slot_ne : (t i j : ℕ) → i < t → j < t → 0 < j → slot t i j ≢ i
slot_ne t i j h k l s = elim (le_or_lt j i) [
  | inl e ↦ omega (arith, slot_le t i j h e, s)
  | inr e ↦ omega (arith, slot_gt t i j e (omega arith), s)
]

slot_next_inside : (t i j : ℕ) → suc i < t → suc j < t → slot t (suc i) (suc j) ≡ slot t i j
slot_next_inside t i j h k = elim (le_or_lt j i) [
  | inl e ↦ omega (arith, slot_le t (suc i) (suc j) h (omega arith), slot_le t i j (omega arith) e)
  | inr e ↦
      omega (
        arith,
        slot_gt t (suc i) (suc j) (omega arith) (omega arith),
        slot_gt t i j e (omega arith),
      )
]

slot_next_wrap : (t i j : ℕ) → i < t → t ≤ i + 1 → suc j < t → slot t 0 (suc j) ≡ slot t i j
slot_next_wrap t i j h e k =
    omega (arith, slot_gt t 0 (suc j) (omega arith) (omega arith), slot_le t i j h (omega arith))

slot_next : (t i j : ℕ) → i < t → suc j < t → slot t ((i + 1) % t) (suc j) ≡ slot t i j
slot_next t i j h k = elim (le_or_lt t (i + 1)) [
  | inl e ↦
      ap (λ n. slot t (n % t) (suc j)) (omega arith)
      ∙ ap (λ n. slot t n (suc j)) (mod_self t)
      ∙ slot_next_wrap t i j h e k
  | inr e ↦
      ap (λ n. slot t n (suc j)) (mod-eq_of_lt e ∙ omega arith)
      ∙ slot_next_inside t i j (omega arith) k
]

clamp_level_bounds : (level : ℤ) → (1 ≤ clamp_level level) × (clamp_level level ≤ 10)
unfolding clamp_level
clamp_level_bounds (pos n) = ground arith
clamp_level_bounds (negsuc n) = ground arith

module _ (f : Floats) where
  -- The ring holds the inputs of the filter: each of the last ones stands at its slot.
  pub record Holds (p : NrLms f) (q : Filter f) : Type 0 where
    pub index_bound : p.delay_index < p.taps
    pub same_weights : (j : ℕ) → j < p.taps → p.weights j ≡ q.weights j
    pub same_inputs :
        (j : ℕ) → suc j < p.taps → p.delay_line (slot p.taps p.delay_index (suc j)) ≡ q.inputs j

  sum-dot :
      (n : ℕ) (w v x y : ℕ → f.Float)
      → ((j : ℕ) → j < n → w j ≡ v j)
      → ((j : ℕ) → j < n → x j ≡ y j)
      → sum f n w x ≡ dot f n v y
  unfolding sum dot
  sum-dot zero w v x y h k = refl
  sum-dot (suc n) w v x y h k =
      ap₂ f.plus (sum-dot n w v x y (λ j l. h j (omega arith)) (λ j l. k j (omega arith)))
        (ap₂ f.times (h n (omega arith)) (k n (omega arith)))

  adapt-below :
      (n j : ℕ) (s : f.Float) (w x : ℕ → f.Float)
      → j < n
      → adapt f n s w x j ≡ f.plus (w j) (f.times s (x j))
  unfolding adapt
  adapt-below n j s w x h = let t : ltb j n ≡ true = ground arith in rw t

  store_same : (i : ℕ) (x : f.Float) (line : ℕ → f.Float) {j : ℕ} → j ≡ i → store f i x line j ≡ x
  unfolding store
  store_same i x line h = ground arith

  store_other :
      (i : ℕ) (x : f.Float) (line : ℕ → f.Float) {j : ℕ} → j ≢ i → store f i x line j ≡ line j
  unfolding store
  store_other i x line h = ground arith

  -- The inputs that the sums read, behind the store.
  stored :
      (input : f.Float) (p : NrLms f) (q : Filter f)
      → Holds p q
      → (j : ℕ) → j < p.taps
      → store f p.delay_index input p.delay_line (slot p.taps p.delay_index j)
        ≡ cons input q.inputs j
  unfolding cons
  stored input p q h zero l =
      store_same p.delay_index input p.delay_line (slot_zero p.taps p.delay_index h.index_bound)
  stored input p q h (suc j) l =
      store_other p.delay_index input p.delay_line
        (slot_ne p.taps p.delay_index (suc j) h.index_bound l (omega arith))
      ∙ h.same_inputs j l

  -- One sample.
  process_sample-Holds :
      (input : f.Float) (p : NrLms f) (q : Filter f)
      → Holds p q
      → Holds (process_sample f input p).0 (filter_sample f p.taps p.mu input q).0
        × ((process_sample f input p).1 ≡ (filter_sample f p.taps p.mu input q).1)
  unfolding process_sample filter_sample norm_factor
  process_sample-Holds input p q h =
      let line = store f p.delay_index input p.delay_line in
      let inputs = λ (j : ℕ). line (slot p.taps p.delay_index j) in
      let window = stored input p q h in
      let error =
        ap₂ f.minus (window (p.taps / 2) (omega (arith, h.index_bound)))
          (sum-dot p.taps p.weights q.weights inputs (cons input q.inputs) h.same_weights window) in
      (
        record {
          index_bound = mod-lt (p.delay_index + 1) (omega (arith, h.index_bound));
          same_weights = λ j l.
              adapt-below p.taps j _ p.weights inputs l
              ∙ ap₂ f.plus (h.same_weights j l)
                  (ap₂ f.times (ap (f.times (norm_factor f p.taps p.mu)) error) (window j l));
          same_inputs = λ j l.
              ap line (slot_next p.taps p.delay_index j h.index_bound l) ∙ window j (omega arith);
        },
        error,
      )

  process_all-Holds :
      (xs : List ℤ) (p : NrLms f) (q : Filter f)
      → Holds p q
      → (process_all f xs p).1 ≡ filter_all f p.taps p.mu xs q
  unfolding process_all filter_all of_sample to_sample
  process_all-Holds [] p q h = refl
  process_all-Holds (x ∷ xs) p q h =
      let r = process_sample-Holds (of_sample f x) p q h in
      ap₂ (λ y ys. y ∷ ys) (ap (to_sample f) r.1)
        (unfold process_sample in process_all-Holds xs _ _ r.0)

  abbrev pub silent : Filter f
  silent = record { weights = λ j. nought f; inputs = λ j. nought f }

  -- Behind `setLevel`, at every level, the filter that is switched on puts out, for any samples, what
  -- the adaptive filter by the book does: the error between the input of half its length ago and the
  -- inner product of the weights and the last inputs, by which each weight then moves in proportion
  -- to its input. The book's filter keeps the whole list of its inputs, so the ring of the delay line
  -- loses none that is still read. There are 40 to 112 taps.
  pub process-filter_all :
      (level : ℤ) (p : NrLms f) (xs : List ℤ)
      → let q = set_enabled f true (set_level f level p) in
        (40 ≤ q.taps) × (q.taps ≤ 112) × ((process f xs q).1 ≡ filter_all f q.taps q.mu xs silent)
  unfolding process set_enabled set_level
  process-filter_all level p xs = (
    omega (arith, clamp_level_bounds level),
    omega (arith, clamp_level_bounds level),
    process_all-Holds xs _ silent (record {
      index_bound = omega arith;
      same_weights = λ j l. refl;
      same_inputs = λ j l. refl;
    }),
  )
