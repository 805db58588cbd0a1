-- ===== src/NodeContext/AllNodes.antt =====
-- Sums over the nodes of a grid (python/sim/nodecontext.py).
use native.Mathlib.Nat.{mul-add-div_right, div-eq_of_lt, div-add-mod', mul_comm, mul_assoc}
use ml_tt_lang.Prelude.{
  ℕ, zero, suc, ◌+◌, ◌*◌, ◌/◌, ◌%◌, ◌<◌, ◌≡◌, refl, ap, ◌∙◌, List, [], ◌∷◌, Bool, true, false, ◌&&◌,
  arith,
}
use ml_tt_lang.Block.{prod}
use ml_tt_lang.NodeContext.{split_coords}
use ml_tt_lang.Sharding.Cores.{sum_cores, sum_cores-ext, sum_cores-zero, one_if}

sum-bounded : (n : ℕ) (f g : ℕ → ℕ) → ((k : ℕ) → k < n → f k ≡ g k) → sum_cores n f ≡ sum_cores n g
sum-bounded zero f g e = refl
sum-bounded (suc n) f g e =
    omega (arith, sum-bounded n f g (λ k h. e k (omega arith)), e n (omega arith))

sum-append :
    (a b : ℕ) (f : ℕ → ℕ) → sum_cores (a + b) f ≡ sum_cores a f + sum_cores b (λ k. f (a + k))
sum-append a zero f =
    let none_left : a + 0 ≡ a = omega arith in ap (λ n. sum_cores n f) none_left ∙ omega arith
sum-append a (suc b) f =
    let one_more : a + suc b ≡ suc (a + b) = omega arith in
    ap (λ n. sum_cores n f) one_more ∙ omega (arith, sum-append a b f)

-- A sum in rows of `s`.
pub row_of : (m s k : ℕ) → k < s → ((m * s + k) / s ≡ m) × ((m * s + k) % s ≡ k)
row_of m s k h =
    let positive : zero < s = omega arith in
    let quotient : (m * s + k) / s ≡ m =
      mul-add-div_right positive m k ∙ rw (div-eq_of_lt h) (omega arith) in
    let whole = div-add-mod' (m * s + k) s in
    let same = ap (λ z. z * s) quotient in (quotient, omega arith)

sum-rows :
    (m s : ℕ) (f : ℕ → ℕ → ℕ)
    → sum_cores (m * s) (λ r. f (r / s) (r % s)) ≡ sum_cores m (λ a. sum_cores s (λ b. f a b))
sum-rows zero s f =
    let none_left : 0 * s ≡ 0 = omega arith in
    ap (λ n. sum_cores n (λ r. f (r / s) (r % s))) none_left
sum-rows (suc m) s f =
    let g : ℕ → ℕ = λ r. f (r / s) (r % s) in
    let one_more : suc m * s ≡ m * s + s = omega arith in
    let last_row =
      sum-bounded s (λ k. g (m * s + k)) (f m)
        (λ k h. let (q, r) = row_of m s k h in ap (λ z. f z ((m * s + k) % s)) q ∙ ap (f m) r) in
    ap (λ n. sum_cores n g) one_more
    ∙ sum-append (m * s) s g
    ∙ omega (arith, sum-rows m s f, last_row)

-- The sum over all coordinates of a grid.
abbrev pub sum_grid : List ℕ → (List ℕ → ℕ) → ℕ
sum_grid [] f = f []
sum_grid (s ∷ grid) f = sum_cores s (λ c. sum_grid grid (λ coords. f (c ∷ coords)))

-- Each number below the grid's size is the number of one node.
pub sum-split :
    (grid : List ℕ) (m : ℕ) (f : ℕ → List ℕ → ℕ)
    → sum_cores (prod grid * m) (λ nid. f (split_coords grid nid).0 (split_coords grid nid).1)
      ≡ sum_cores m (λ r. sum_grid grid (f r))
unfolding split_coords
sum-split [] m f =
    let one_row : 1 * m ≡ m = omega arith in ap (λ n. sum_cores n (λ r. f r [])) one_row
sum-split (s ∷ grid) m f =
    let rows : s * prod grid * m ≡ prod grid * (m * s) =
      ap (λ z. z * m) (mul_comm s (prod grid))
      ∙ mul_assoc (prod grid) s m
      ∙ ap (λ z. prod grid * z) (mul_comm s m) in
    ap
      (λ n. sum_cores n (λ nid.
        f ((split_coords grid nid).0 / s)
          ((split_coords grid nid).0 % s ∷ (split_coords grid nid).1)))
      rows
    ∙ sum-split grid (m * s) (λ r coords. f (r / s) (r % s ∷ coords))
    ∙ sum-rows m s (λ a c. sum_grid grid (λ coords. f a (c ∷ coords)))

sum_grid-ext :
    (grid : List ℕ) (f g : List ℕ → ℕ)
    → ((coords : List ℕ) → f coords ≡ g coords)
    → sum_grid grid f ≡ sum_grid grid g
sum_grid-ext [] f g e = e []
sum_grid-ext (s ∷ grid) f g e =
    sum_cores-ext s (λ c. sum_grid grid (λ cs. f (c ∷ cs))) (λ c. sum_grid grid (λ cs. g (c ∷ cs)))
      (λ c. sum_grid-ext grid (λ cs. f (c ∷ cs)) (λ cs. g (c ∷ cs)) (λ cs. e (c ∷ cs)))

sum_grid-zero : (grid : List ℕ) → sum_grid grid (λ cs. 0) ≡ 0
sum_grid-zero [] = refl
sum_grid-zero (s ∷ grid) =
    sum_cores-ext s (λ c. sum_grid grid (λ cs. 0)) (λ c. 0) (λ c. sum_grid-zero grid)
    ∙ sum_cores-zero s

-- A condition on all coordinates and one on a first coordinate.
pub sum_grid-and :
    (grid : List ℕ) (b : Bool) (p : List ℕ → Bool)
    → sum_grid grid (λ cs. one_if (b && p cs)) ≡ one_if b * sum_grid grid (λ cs. one_if (p cs))
sum_grid-and grid true p = omega arith
sum_grid-and grid false p = sum_grid-zero grid ∙ omega arith
