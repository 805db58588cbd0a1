-- ===== src/Matmul/Positive.antt =====
-- Products of positive factors are positive.
use native.Mathlib.Nat.{mul-le-mul_right}
use ml_tt_lang.Prelude.{
  ℕ, zero, suc, ◌*◌, ◌≤◌, inl, inr, List, [], ◌∷◌, ◌++◌, map, ltb, leb, replicate, All, Bool-cases,
  arith,
}
use ml_tt_lang.Block.{prod, member}
use ml_tt_lang.Matmul.{insert, sorted, extend, update, products_from, larger, smaller}

pub mul-pos : (b o : ℕ) → 1 ≤ b → 1 ≤ o → 1 ≤ b * o
mul-pos b o hb ho = let more = mul-le-mul_right o hb in omega arith

-- Numbers that are at least 1.
abbrev pub Positive : List ℕ → Type 0
Positive = All (λ n. 1 ≤ n)

-- What holds of all numbers of a list holds of all that are sorted, or put into a set.
module _ (P : ℕ → Type 0) where
  insert-All : (n : ℕ) (xs : List ℕ) → P n → All P xs → All P (insert n xs)
  insert-All n [] h w = (h, tt)
  insert-All n (x ∷ xs) h (hx, w) = elim (Bool-cases (leb n x)) [
    | inl le ↦ rw (insert, le) (h, (hx, w))
    | inr gt ↦ rw (insert, gt) (hx, insert-All n xs h w)
  ]

  pub sorted-All : (xs : List ℕ) → All P xs → All P (sorted xs)
  unfolding sorted
  sorted-All [] w = tt
  sorted-All (x ∷ xs) (h, w) = insert-All x (sorted xs) h (sorted-All xs w)

  pub update-All : (new s : List ℕ) → All P new → All P s → All P (update new s)
  update-All [] s w v = v
  update-All (n ∷ new) s (h, w) v = elim (Bool-cases (member n s)) [
    | inl old ↦ rw (update, old) (update-All new s w v)
    | inr fresh ↦ rw (update, fresh) (update-All new (n ∷ s) w (h, v))
  ]

pub sorted-Positive : (xs : List ℕ) → Positive xs → Positive (sorted xs)
sorted-Positive xs w = sorted-All (λ n. 1 ≤ n) xs w

replicate-Positive :
    (count prime : ℕ) (xs : List ℕ)
    → 1 ≤ prime
    → Positive xs
    → Positive (replicate count prime ++ xs)
replicate-Positive zero prime xs h w = w
replicate-Positive (suc count) prime xs h w = (h, replicate-Positive count prime xs h w)

pub extend-Positive :
    (factors : List (ℕ × ℕ)) → All (λ (f : ℕ × ℕ). 1 ≤ f.0) factors → Positive (extend factors)
extend-Positive [] w = tt
extend-Positive ((prime, count) ∷ factors) (h, w) =
    replicate-Positive count prime (extend factors) h (extend-Positive factors w)

pub larger-Positive : (n : ℕ) (xs : List ℕ) → Positive xs → 1 ≤ prod (larger n xs)
larger-Positive n [] w = omega arith
larger-Positive n (x ∷ xs) (h, w) = elim (Bool-cases (ltb n x)) [
  | inl lt ↦ rw (larger, lt) (mul-pos x (prod (larger n xs)) h (larger-Positive n xs w))
  | inr ge ↦ rw (larger, ge) (larger-Positive n xs w)
]

pub smaller-Positive : (n : ℕ) (xs : List ℕ) → Positive xs → Positive (smaller n xs)
smaller-Positive n [] w = tt
smaller-Positive n (x ∷ xs) (h, w) = elim (Bool-cases (leb x n)) [
  | inl le ↦ rw (smaller, le) (h, smaller-Positive n xs w)
  | inr gt ↦ rw (smaller, gt) (smaller-Positive n xs w)
]

scaled-Positive : (p : ℕ) (s : List ℕ) → 1 ≤ p → Positive s → Positive (map (λ q. q * p) s)
scaled-Positive p [] h w = tt
scaled-Positive p (q ∷ s) h (hq, w) = (mul-pos q p hq h, scaled-Positive p s h w)

pub products-Positive :
    (factors s : List ℕ) → Positive factors → Positive s → Positive (products_from factors s)
products-Positive [] s w v = v
products-Positive (p ∷ factors) s (h, w) v =
    products-Positive factors _ w
      (update-All (λ n. 1 ≤ n) (map (λ q. q * p) s) s (scaled-Positive p s h v) v)
