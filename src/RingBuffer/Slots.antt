-- ===== src/RingBuffer/Slots.antt =====
-- Which slots the positions of the ring have, and what the copying loops do to them.
use mathlib.Core.Path.{subst}
use native.Mathlib.Nat.{
  dvd_of_mod-eq-zero, mod-mod_of_dvd, mod-add-mod, mod-eq-sub-mod, mod-eq_of_lt, mod-lt,
}
use ak.Base.{
  ℕ, zero, suc, ◌+◌, ◌-◌, ◌%◌, ◌^◌, ◌≤◌, ◌<◌, ◌≡◌, ◌≢◌, refl, sym, ap, ap₂, ◌∙◌, inl, inr, List, [],
  ◌∷◌, ◌++◌, arith, length, Bool-cases, ltb,
}
use ak.Base.Int.{ℤ, pos}
use ak.RingBuffer.{slot, store, store_all, load_all}

-- Two positions less than the divisor apart have different remainders.
mod_apart : (c r d : ℕ) → r < c → 0 < d → d < c → (r + d) % c ≢ r
mod_apart c r d h z k e = elim (Bool-cases (ltb (r + d) c)) [
  | inl t ↦ ground (arith, mod-eq_of_lt {n = r + d} {m = c})
  | inr f ↦ ground (arith, mod-eq-sub-mod {n = r + d} {m = c}, mod-eq_of_lt {n = r + d - c} {m = c})
]

store-other : (i j : ℕ) (x : ℤ) (b : ℕ → ℤ) → j ≢ i → store i x b j ≡ b j
unfolding store
store-other i j x b h = ground arith

pub store-same : (i : ℕ) (x : ℤ) (b : ℕ → ℤ) → store i x b i ≡ x
unfolding store
store-same i x b = ground arith

suc_right : (p n : ℕ) → suc (p + n) ≡ p + suc n
suc_right p n = omega arith

zero_right : (p : ℕ) → p ≡ p + 0
zero_right p = omega arith

zero_left : (n : ℕ) → 0 + n ≡ n
zero_left n = omega arith

suc_left : (m n : ℕ) → suc m + n ≡ suc (m + n)
suc_left m n = omega arith

suc_both : (p m : ℕ) → suc p + m ≡ p + suc m
suc_both p m = omega arith

suc_one : (p : ℕ) → suc p ≡ p + 1
suc_one p = omega arith

first : List ℤ → ℤ
first [] = pos 0
first (x ∷ xs) = x

module _ (c : ℕ) (v : 2 ^ 64 % c ≡ 0) where
  slot-mod : (p : ℕ) → slot c p ≡ p % c
  unfolding slot
  slot-mod p = mod-mod_of_dvd c p (dvd_of_mod-eq-zero c v)

  slot_apart : (p d : ℕ) → 0 < d → d < c → slot c p ≢ slot c (p + d)
  slot_apart p d z k e =
      mod_apart c (p % c) d (mod-lt p (omega arith)) z k
        (mod-add-mod p c d ∙ sym (slot-mod (p + d)) ∙ sym e ∙ slot-mod p)

  -- What stands in a stretch of slots is not touched by a store behind it.
  pub load_all-store :
      (p d n : ℕ) (x : ℤ) (b : ℕ → ℤ)
      → n ≤ d
      → d < c
      → load_all c p n (store (slot c (p + d)) x b) ≡ load_all c p n b
  unfolding load_all
  load_all-store p d zero x b h k = refl
  load_all-store p zero (suc n) x b h k = absurd (omega arith)
  load_all-store p (suc d) (suc n) x b h k =
      ap₂ (λ y ys. y ∷ ys) (store-other _ _ x b (slot_apart p (suc d) (omega arith) k))
        (subst (λ q. load_all c (suc p) n (store (slot c q) x b) ≡ load_all c (suc p) n b)
          (omega arith) (load_all-store (suc p) d n x b (omega arith) (omega arith)))

  pub load_all-store_all :
      (p n : ℕ) (xs : List ℤ) (b : ℕ → ℤ) (m : ℕ)
      → m ≤ n
      → n + length xs ≤ c
      → load_all c p m (store_all c (p + n) xs b) ≡ load_all c p m b
  unfolding store_all
  load_all-store_all p n [] b m k h = refl
  load_all-store_all p n (x ∷ xs) b m k h =
      let stored = store (slot c (p + n)) x b in
      ap (λ q. load_all c p m (store_all c q xs stored)) (suc_right p n)
      ∙ load_all-store_all p (suc n) xs stored m (omega arith) (omega arith)
      ∙ load_all-store p n m x b k (omega arith)

  pub load_all-add :
      (p m n : ℕ) (b : ℕ → ℤ) → load_all c p (m + n) b ≡ load_all c p m b ++ load_all c (p + m) n b
  unfolding load_all
  load_all-add p zero n b =
      ap (λ k. load_all c p k b) (zero_left n) ∙ ap (λ q. load_all c q n b) (zero_right p)
  load_all-add p (suc m) n b =
      ap (λ k. load_all c p k b) (suc_left m n)
      ∙ ap (λ ys. b (slot c p) ∷ ys)
          (load_all-add (suc p) m n b
            ∙ ap (λ q. load_all c (suc p) m b ++ load_all c q n b) (suc_both p m))

  -- What was stored is what stands there.
  pub load_all-stored :
      (p : ℕ) (xs : List ℤ) (b : ℕ → ℤ)
      → length xs ≤ c
      → load_all c p (length xs) (store_all c p xs b) ≡ xs
  unfolding store_all load_all first
  load_all-stored p [] b h = refl
  load_all-stored p (x ∷ xs) b h =
      let stored = store (slot c p) x b in
      ap₂ (λ y ys. y ∷ ys)
        (ap first (
            ap (λ q. load_all c p 1 (store_all c q xs stored)) (suc_one p)
            ∙ load_all-store_all p 1 xs stored 1 (omega arith) (omega arith))
          ∙ store-same (slot c p) x b)
        (load_all-stored (suc p) xs stored (omega arith))

-- Positions are read modulo 2^64.
pub load_all-wrap :
    (c p q n : ℕ) (b : ℕ → ℤ) → p % 2 ^ 64 ≡ q % 2 ^ 64 → load_all c p n b ≡ load_all c q n b
unfolding load_all slot
load_all-wrap c p q zero b h = refl
load_all-wrap c p q (suc n) b h =
    ap₂ (λ y ys. y ∷ ys) (ap (λ t. b (t % c)) h)
      (load_all-wrap c (suc p) (suc q) n b (omega (arith, h)))

pub store_all-wrap :
    (c p q : ℕ) (xs : List ℤ) (b : ℕ → ℤ)
    → p % 2 ^ 64 ≡ q % 2 ^ 64
    → store_all c p xs b ≡ store_all c q xs b
unfolding store_all slot
store_all-wrap c p q [] b h = refl
store_all-wrap c p q (x ∷ xs) b h =
    ap (λ t. store_all c (suc p) xs (store (t % c) x b)) h
    ∙ store_all-wrap c (suc p) (suc q) xs _ (omega (arith, h))
