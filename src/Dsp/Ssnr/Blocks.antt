-- ===== src/Dsp/Ssnr/Blocks.antt =====
-- Samples that do not fill the input buffer of nr_ssnr.cpp.
use ak.Base.{
  ℕ, zero, suc, ◌+◌, ◌%◌, ◌<◌, ◌≤◌, ◌≡◌, refl, ap, ap₂, ◌∙◌, inl, inr, false, List, [], ◌∷◌, ◌++◌,
  map, length, arith, leb, ◌==◌, if◌then◌else◌, Bool-cases,
}
use ak.Base.Int.{ℤ}
use ak.Dsp.{Floats}
use ak.Dsp.Ssnr.{Maths, NrSsnr, nought, put}
use ak.Dsp.Ssnr.Stream.{to_float, to_sample, take_frame, give, process_sample, process_all}

-- The elements of a vector from an index on, and the same set to a value.
unfoldable pub reads : {A : Type 0} → ℕ → ℕ → (ℕ → A) → List A
reads zero o a = []
reads (suc n) o a = a o ∷ reads n (suc o) a

pub clear : {A : Type 0} → A → ℕ → ℕ → (ℕ → A) → ℕ → A
clear v zero o a = a
clear v (suc n) o a = clear v n (suc o) (put o v a)

module _ {A : Type 0} where
  pub put-other : (i j : ℕ) (v : A) (a : ℕ → A) → (j ≡ i → ⊥) → put i v a j ≡ a j
  unfolding put
  put-other i j v a h = ground arith

  pub put-same : (i : ℕ) (v : A) (a : ℕ → A) → put i v a i ≡ v
  unfolding put
  put-same i v a = ground arith

  reads-put : (n o j : ℕ) (v : A) (a : ℕ → A) → j < o → reads n o (put j v a) ≡ reads n o a
  unfolding reads
  reads-put zero o j v a h = refl
  reads-put (suc n) o j v a h =
      ap₂ (λ x xs. x ∷ xs) (put-other j o v a (λ e. absurd (omega (arith, e, h))))
        (reads-put n (suc o) j v a (omega arith))

  pub reads-same :
      (n o : ℕ) (a b : ℕ → A)
      → ((j : ℕ) → o ≤ j → j < o + n → a j ≡ b j)
      → reads n o a ≡ reads n o b
  unfolding reads
  reads-same zero o a b h = refl
  reads-same (suc n) o a b h =
      ap₂ (λ x xs. x ∷ xs) (h o (omega arith) (omega arith))
        (reads-same n (suc o) a b (λ j k l. h j (omega arith) (omega arith)))

  pub clear-below : (v : A) (n o j : ℕ) (a : ℕ → A) → j < o → clear v n o a j ≡ a j
  unfolding clear
  clear-below v zero o j a h = refl
  clear-below v (suc n) o j a h =
      clear-below v n (suc o) j (put o v a) (omega arith)
      ∙ put-other o j v a (λ e. absurd (omega (arith, e, h)))

  pub clear-above : (v : A) (n o j : ℕ) (a : ℕ → A) → o + n ≤ j → clear v n o a j ≡ a j
  unfolding clear
  clear-above v zero o j a h = refl
  clear-above v (suc n) o j a h =
      clear-above v n (suc o) j (put o v a) (omega arith)
      ∙ put-other o j v a (λ e. absurd (omega (arith, e, h)))

  pub clear-within : (v : A) (n o j : ℕ) (a : ℕ → A) → o ≤ j → j < o + n → clear v n o a j ≡ v
  unfolding clear
  clear-within v zero o j a h k = absurd (omega arith)
  clear-within v (suc n) o j a h k = elim (Bool-cases (j == o)) [
    | inl e ↦
        clear-below v n (suc o) j (put o v a) (ground arith)
        ∙ ap (put o v a) (ground arith)
        ∙ put-same o v a
    | inr e ↦ clear-within v n (suc o) j (put o v a) (ground arith) (omega arith)
  ]

module _ (f : Floats) (m : Maths f) where
  -- A state with other buffers and positions.
  abbrev pub at : NrSsnr f → (ℕ → f.Float) → ℕ → ℕ → (ℕ → f.Float) → NrSsnr f
  at p b i o a = record p { input_buffer = b; input_pos = i; output_pos = o; overlap_add = a }

  pub fill : List ℤ → ℕ → (ℕ → f.Float) → ℕ → f.Float
  fill [] i b = b
  fill (x ∷ xs) i b = fill xs (suc i) (put i (to_float f m x) b)

  pub fill-below : (xs : List ℤ) (i j : ℕ) (b : ℕ → f.Float) → j < i → fill xs i b j ≡ b j
  unfolding fill
  fill-below [] i j b h = refl
  fill-below (x ∷ xs) i j b h =
      fill-below xs (suc i) j (put i (to_float f m x) b) (omega arith)
      ∙ put-other i j (to_float f m x) b (λ e. absurd (omega (arith, e, h)))

  pub fill-append :
      (xs : List ℤ) (x : ℤ) (i : ℕ) (b : ℕ → f.Float)
      → fill (xs ++ x ∷ []) i b ≡ put (i + length xs) (to_float f m x) (fill xs i b)
  unfolding fill
  fill-append [] x i b = ap (λ k. put k (to_float f m x) b) (omega arith)
  fill-append (y ∷ ys) x i b =
      let c = put i (to_float f m y) b in
      fill-append ys x (suc i) c
      ∙ ap (λ k. put k (to_float f m x) (fill ys (suc i) c)) (omega arith)

  -- The samples stand one behind another.
  pub reads-fill :
      (xs : List ℤ) (i : ℕ) (b : ℕ → f.Float)
      → reads (length xs) i (fill xs i b) ≡ map (to_float f m) xs
  unfolding reads fill
  reads-fill [] i b = refl
  reads-fill (x ∷ xs) i b =
      let c = put i (to_float f m x) b in
      ap₂ (λ y ys. y ∷ ys) (fill-below xs (suc i) i c (omega arith) ∙ put-same i (to_float f m x) b)
        (reads-fill xs (suc i) c)

  process_sample-at :
      (x : ℤ) (p : NrSsnr f) (b a : ℕ → f.Float) (i o : ℕ)
      → suc i < 256
      → suc o < 256
      → process_sample f m x (at p b i o a) ≡ (
        at p (put i (to_float f m x) b) (suc i) (suc o) (put o (nought f) a),
        to_sample f m (a o),
      )
  unfolding process_sample give
  process_sample-at x p b a i o h k =
      let q = at p (put i (to_float f m x) b) (suc i) o a in
      let t : leb 256 (suc i) ≡ false = ground arith in
      let e : (o + 1) % 256 ≡ suc o = omega arith in
      ap (λ t. give f m (if t then take_frame f m q else q)) t
      ∙ ap (λ o'. (at q q.input_buffer q.input_pos o' (put o (nought f) a), to_sample f m (a o))) e

  -- Samples that do not fill the input buffer.
  pub process_all-at :
      (xs : List ℤ) (p : NrSsnr f) (b a : ℕ → f.Float) (i o : ℕ)
      → i + length xs < 256
      → o + length xs < 256
      → process_all f m xs (at p b i o a) ≡ (
        at p (fill xs i b) (i + length xs) (o + length xs) (clear (nought f) (length xs) o a),
        map (to_sample f m) (reads (length xs) o a),
      )
  unfolding process_all fill clear reads
  process_all-at [] p b a i o h k = ap₂ (λ i o. (at p b i o a, [])) (omega arith) (omega arith)
  process_all-at (x ∷ xs) p b a i o h k =
      let c = put o (nought f) a in
      let n = length xs in
      ap (λ r. let t = process_all f m xs r.0 in (t.0, r.1 ∷ t.1))
        (process_sample-at x p b a i o (omega arith) (omega arith))
      ∙ ap (λ t. (t.0, to_sample f m (a o) ∷ t.1))
          (process_all-at xs p (put i (to_float f m x) b) c (suc i) (suc o) (omega arith)
            (omega arith))
      ∙ ap₂
          (λ i' o'. (
            at p (fill xs (suc i) (put i (to_float f m x) b)) i' o' (clear (nought f) n (suc o) c),
            to_sample f m (a o) ∷ map (to_sample f m) (reads n (suc o) c),
          ))
          (omega arith) (omega arith)
      ∙ ap
          (λ l. (
            at p (fill xs (suc i) (put i (to_float f m x) b)) (i + suc n) (o + suc n)
                (clear (nought f) n (suc o) c),
            to_sample f m (a o) ∷ map (to_sample f m) l,
          ))
          (reads-put n (suc o) o (nought f) a (omega arith))
