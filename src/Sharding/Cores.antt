-- ===== src/Sharding/Cores.antt =====
-- The shards of elements, and sums over the cores.
use native.Mathlib.Nat.{
  le-div_iff_mul-le, div-lt_iff_lt-mul, div-add-mod', mul-add-div_right, div-eq_of_lt,
  mul-le-mul_right,
}
use mathlib.Core.Path.{subst}
use ml_tt_lang.Prelude.{
  ℕ, zero, suc, ◌+◌, ◌*◌, ◌/◌, ◌%◌, ◌≤◌, ◌<◌, ◌≡◌, refl, sym, ap, ◌∙◌, Bool, ◌&&◌, List, [], ◌∷◌,
  ◌++◌, map, length, length-append, ltb, leb, ◌==◌, All, inl, inr, Bool-cases, arith, if◌then◌else◌,
  ==_iff, lt→ltb, ltb→lt, le→leb, leb→le, leb→gt, gt→leb, ltb→ge, ge→ltb,
}
use ml_tt_lang.Pipe.{steps}
use ml_tt_lang.Sharding.{count_if, in_shard, cells}

-- The sum over the cores below `n`.
abbrev pub sum_cores : ℕ → (ℕ → ℕ) → ℕ
sum_cores zero f = 0
sum_cores (suc n) f = sum_cores n f + f n

sum_cores-add : (n : ℕ) (f g : ℕ → ℕ) → sum_cores n (λ k. f k + g k) ≡ sum_cores n f + sum_cores n g
sum_cores-add zero f g = refl
sum_cores-add (suc n) f g = omega (arith, sum_cores-add n f g)

pub sum_cores-mul : (n : ℕ) (f : ℕ → ℕ) (w : ℕ) → sum_cores n (λ k. f k * w) ≡ sum_cores n f * w
sum_cores-mul zero f w = omega arith
sum_cores-mul (suc n) f w = omega (arith, sum_cores-mul n f w)

pub sum_cores-ext : (n : ℕ) (f g : ℕ → ℕ) → ((k : ℕ) → f k ≡ g k) → sum_cores n f ≡ sum_cores n g
sum_cores-ext zero f g e = refl
sum_cores-ext (suc n) f g e = omega (arith, sum_cores-ext n f g e, e n)

pub sum_cores-zero : (n : ℕ) → sum_cores n (λ k. 0) ≡ 0
sum_cores-zero zero = refl
sum_cores-zero (suc n) = omega (arith, sum_cores-zero n)

-- One core is the owner.
abbrev pub one_if : Bool → ℕ
one_if b = if b then 1 else 0

sum_cores-none : (n o : ℕ) → n ≤ o → sum_cores n (λ k. one_if (o == k)) ≡ 0
sum_cores-none zero o h = refl
sum_cores-none (suc n) o h = ground (arith, sum_cores-none n o)

sum_cores-owner : (n o : ℕ) → o < n → sum_cores n (λ k. one_if (o == k)) ≡ 1
sum_cores-owner zero o h = absurd (omega arith)
sum_cores-owner (suc n) o h = elim (Bool-cases (o == n)) [
  | inl e ↦
      let same : n ≤ o = let eq = (==_iff o n).0 e in omega arith in
      rw e (omega (arith, sum_cores-none n o same))
  | inr ne ↦ let less : o < n = ground arith in rw ne (omega (arith, sum_cores-owner n o less))
]

module _ {A : Type 0} (n : ℕ) (test : ℕ → A → Bool) (owner : A → ℕ) where
  -- The element is counted for its owner, which is a core, and for no other.
  abbrev pub Owned : A → Type 0
  Owned x = (owner x < n) × ((k : ℕ) → test k x ≡ (owner x == k))

  pub count_if-partition :
      (xs : List A) → All Owned xs → sum_cores n (λ k. count_if (test k) xs) ≡ length xs
  count_if-partition [] w = sum_cores-zero n
  count_if-partition (x ∷ xs) ((less, own), w) =
      let here =
        sum_cores-ext n (λ k. one_if (test k x)) (λ k. one_if (owner x == k))
          (λ k. ap one_if (own k)) in
      let one = sum_cores-owner n (owner x) less in
      sum_cores-add n (λ k. one_if (test k x)) (λ k. count_if (test k) xs)
      ∙ omega (arith, here, one, count_if-partition xs w)

-- The shard of an element along a dimension.
pub in_shard-owner : (size k x : ℕ) → 1 ≤ size → in_shard size k x ≡ (x / size == k)
in_shard-owner size k x h =
    let low : leb (k * size) x ≡ leb k (x / size) = elim (Bool-cases (leb k (x / size))) [
      | inl le ↦
          le→leb (k * size) x (
            (le-div_iff_mul-le {k = size} {x = k} {y = x} (omega arith)).0 (leb→le k (x / size) le))
          ∙ sym le
      | inr gt ↦
          let less =
            (div-lt_iff_lt-mul {k = size} {x = x} {y = k} (omega arith)).0
              (leb→gt k (x / size) gt) in
          gt→leb (k * size) x less ∙ sym gt
    ] in
    let high : ltb x ((k + 1) * size) ≡ ltb (x / size) (k + 1) =
      elim (Bool-cases (ltb (x / size) (k + 1))) [
        | inl lt ↦
            lt→ltb x ((k + 1) * size) (
              (div-lt_iff_lt-mul {k = size} {x = x} {y = k + 1} (omega arith)).0
                (ltb→lt (x / size) (k + 1) lt))
            ∙ sym lt
        | inr ge ↦
            let more =
              (le-div_iff_mul-le {k = size} {x = k + 1} {y = x} (omega arith)).0
                (ltb→ge (x / size) (k + 1) ge) in
            ge→ltb x ((k + 1) * size) more ∙ sym ge
      ] in
    rw (low, high) (ground arith)

pub pair-owner :
    (cols a b k : ℕ) → b < cols → ((a == k / cols) && (b == k % cols)) ≡ (a * cols + b == k)
pair-owner cols a b k h = elim (Bool-cases (a * cols + b == k)) [
  | inl e ↦
      let number : a * cols + b ≡ k = (==_iff (a * cols + b) k).0 e in
      let pos : zero < cols = omega arith in
      let quotient : k / cols ≡ a =
        ap (λ z. z / cols) (sym number)
        ∙ mul-add-div_right pos a b
        ∙ rw (div-eq_of_lt h) (omega arith) in
      let whole = div-add-mod' k cols in
      let rest : k % cols ≡ b =
        let whole' = subst (λ z. z * cols + k % cols ≡ k) quotient whole in omega arith in
      rw (quotient, rest) (ground arith)
  | inr ne ↦ elim (Bool-cases (a == k / cols)) [
    | inr other ↦ rw (other, ne) refl
    | inl same ↦ elim (Bool-cases (b == k % cols)) [
      | inr other ↦ rw (other, ne) (ground arith)
      | inl last_one ↦
          let number : a * cols + b ≡ k =
            ap (λ z. z * cols + b) ((==_iff a (k / cols)).0 same)
            ∙ ap (λ z. k / cols * cols + z) ((==_iff b (k % cols)).0 last_one)
            ∙ div-add-mod' k cols in
          cc ((==_iff (a * cols + b) k).1 number, ne)
    ]
  ]
]

pub pair-lt : (rows cols a b : ℕ) → a < rows → b < cols → a * cols + b < rows * cols
pair-lt rows cols a b ha hb =
    let room : (a + 1) * cols ≤ rows * cols = mul-le-mul_right cols (omega arith) in omega arith

pub length-steps : (n start step : ℕ) → length (steps n start step) ≡ n
unfolding steps
length-steps zero start step = refl
length-steps (suc n) start step = ap suc (length-steps n (start + step) step)

pub All-steps :
    (P : ℕ → Type 0) (n start : ℕ)
    → ((x : ℕ) → start ≤ x → x < start + n → P x)
    → All P (steps n start 1)
unfolding steps
All-steps P zero start h = tt
All-steps P (suc n) start h = (
  h start (omega arith) (omega arith),
  All-steps P n (start + 1) (λ x lo hi. h x (omega arith) (omega arith)),
)

All-append : {A : Type 0} (P : A → Type 0) (xs ys : List A) → All P xs → All P ys → All P (xs ++ ys)
All-append P [] ys p q = q
All-append P (x ∷ xs) ys (p, ps) q = (p, All-append P xs ys ps q)

module _ (P Q : ℕ → Type 0) (R : ℕ × ℕ → Type 0) (both : (r c : ℕ) → P r → Q c → R (r, c)) where
  All-line : (r : ℕ) (cols : List ℕ) → P r → All Q cols → All R (map (λ c. (r, c)) cols)
  All-line r [] p q = tt
  All-line r (c ∷ cols) p (q, qs) = (both r c p q, All-line r cols p qs)

  pub All-cells : (rows cols : List ℕ) → All P rows → All Q cols → All R (cells rows cols)
  All-cells [] cols p q = tt
  All-cells (r ∷ rows) cols (p, ps) q =
      All-append R (map (λ c. (r, c)) cols) (cells rows cols) (All-line r cols p q)
        (All-cells rows cols ps q)

length-line : (r : ℕ) (cols : List ℕ) → length {A = ℕ × ℕ} (map (λ c. (r, c)) cols) ≡ length cols
length-line r [] = refl
length-line r (c ∷ cols) = ap suc (length-line r cols)

pub length-cells : (rows cols : List ℕ) → length (cells rows cols) ≡ length rows * length cols
length-cells [] cols = omega arith
length-cells (r ∷ rows) cols = omega (
  arith,
  length-append {A = ℕ × ℕ} (map (λ c. (r, c)) cols) (cells rows cols),
  length-line r cols,
  length-cells rows cols,
)
