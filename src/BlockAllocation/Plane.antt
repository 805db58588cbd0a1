-- ===== src/BlockAllocation/Plane.antt =====
-- A grid that has two dimensions once the leading ones are gone: its nodes, and the places that
-- `split_work_to_nodes` reaches in it.
use native.Mathlib.Nat.{mod-add-div'}
use mathlib.Core.List.{append-nil}
use ml_tt_lang.Prelude.{
  ℕ, zero, suc, ◌+◌, ◌-◌, ◌*◌, ◌/◌, ◌%◌, ◌≤◌, ◌<◌, ◌≡◌, refl, ap, Bool, true, false, List, [], ◌∷◌,
  ◌++◌, map, arith, length, replicate, leb, ltb, ◌==◌, if◌then◌else◌, lt→ltb, leb→le, leb→gt,
  ltb→lt, ltb→ge, not, ◌⊎◌, ==_iff, Bool-cases, inl, inr,
}
use ml_tt_lang.Result.{ok}
use ml_tt_lang.BlockAllocation.{
  last_or, second_last_or, remove_leading_ones, number_of_nodes_from, fill_end, fill_full, fill,
  coord, to_range, origin, last_end, next_start,
}
use ml_tt_lang.BlockAllocation.Cells.{quotient_pos}
use ml_tt_lang.BlockAllocation.Ranges.{
  line_size, line_count, at, line_of-at, place_of-at, to_range-at,
}

number_step :
    (c d : ℕ) (ds : List ℕ) {t : ℕ}
    → number_of_nodes_from c (d ∷ ds) ≡ ok t
    → (1 ≤ d) × (number_of_nodes_from (c * d) ds ≡ ok t)
unfolding number_of_nodes_from
number_step c d ds h = elim (Bool-cases (ltb 0 d)) [
  | inl p ↦ (ltb→lt 0 d p, rw p at h)
  | inr p ↦ cc (rw p at h)
]

ones_step :
    (z : ℕ) (ds : List ℕ)
    → length (remove_leading_ones (z ∷ ds)) ≡ 2
    → ((z ≡ 1) × (length (remove_leading_ones ds) ≡ 2)) ⊎ (length ds ≡ 1)
unfolding remove_leading_ones
ones_step z ds h = elim (Bool-cases (z == 1)) [
  | inl p ↦ inl ((==_iff z 1).0 p, rw p at h)
  | inr p ↦ inr (let q = rw p at h in omega arith)
]

mul_pos : (a b : ℕ) → 1 ≤ a → 1 ≤ b → 1 ≤ a * b
mul_pos a b p q = grind arith

-- Once the leading ones are gone, a grid with two dimensions has the nodes of its last two.
pub plane_size :
    (c d : ℕ) (grid : List ℕ) {t : ℕ}
    → 1 ≤ c
    → length (remove_leading_ones grid) ≡ 2
    → number_of_nodes_from c grid ≡ ok t
    → (t ≡ c * (second_last_or d grid * last_or d grid)) × (2 ≤ length grid) × (1 ≤ t)
unfolding second_last_or last_or
plane_size c d [] pos flat h = absurd (unfold remove_leading_ones in omega arith)
plane_size c d (x ∷ []) pos flat h =
    absurd (unfold remove_leading_ones in ground (arith, ones_step x [] flat))
plane_size c d (y ∷ x ∷ []) {t} pos flat h =
    let (hy, h') = number_step c y (x ∷ []) h in
    let (hx, h'') = number_step (c * y) x [] h' in
    let e : t ≡ c * y * x = unfold number_of_nodes_from in cc h'' in
    (omega arith, omega arith, rw e (mul_pos (c * y) x (mul_pos c y pos hy) hx))
plane_size c d (z ∷ y ∷ x ∷ xs) {t} pos flat h = elim (ones_step z (y ∷ x ∷ xs) flat) [
  | inl (one, rest) ↦
      let (p, counted) = number_step c z (y ∷ x ∷ xs) h in
      let same : c * z ≡ c = rw one (omega arith) in
      let (size, rank, some_node) = plane_size c d (y ∷ x ∷ xs) pos rest (rw same at counted) in
      (size, omega arith, some_node)
  | inr short ↦ absurd (omega arith)
]

last_of_line :
    (k size t : ℕ) → 1 ≤ size → 1 ≤ k → k * size ≡ t → (0 + k - 1) * size + (size - 1) + 1 ≡ t
last_of_line k size t hs hk e =
    let f : k ≡ 1 + (0 + k - 1) = omega arith in omega (arith, ap (λ (n : ℕ). n * size) f)

mod_bound : (n m : ℕ) → 1 ≤ m → n % m < m
mod_bound n m h = omega arith

-- The last node that `fill` takes from the start of the grid.
pub fill-last :
    (rank : ℕ) (r : Bool) (size t : ℕ)
    → 1 ≤ size
    → 1 ≤ t
    → (l p : ℕ) × (last_end (map (to_range rank r) (fill size 0 0 t)) ≡ ok (at rank r l p))
      × (l * size + p + 1 ≡ t)
      × (p < size)
unfolding fill fill_full fill_end last_end
fill-last rank r size t hs ht = elim (Bool-cases (leb size t)) [
  | inl whole ↦ elim (Bool-cases (ltb 0 (t - t / size * size))) [
    | inl part ↦ (
      0 + t / size,
      0 + (t - t / size * size) - 1,
      rw (whole, part, to_range-at) refl,
      omega (arith, mod-add-div' t size, ltb→lt _ _ part),
      omega (arith, mod-add-div' t size, ltb→lt _ _ part, mod_bound t size hs),
    )
    | inr none_left ↦ (
      0 + t / size - 1,
      size - 1,
      rw (whole, none_left, to_range-at) refl,
      last_of_line (t / size) size t hs (quotient_pos size t hs (leb→le size t whole))
          (omega (arith, mod-add-div' t size, ltb→ge _ _ none_left)),
      omega arith,
    )
  ]
  | inr less ↦ (
    0,
    0 + t - 1,
    rw (less, lt→ltb 0 t ht, to_range-at) refl,
    omega arith,
    omega (arith, leb→gt size t less),
  )
]

pub next_start-at :
    (rank nx ny l p : ℕ) (r : Bool)
    → next_start rank nx ny r (second_last_or 0 (at rank r l p)) (last_or 0 (at rank r l p))
      ≡ (if not (p == (if r then nx else ny) - 1) then at rank r l (p + 1) else at rank r (l + 1) 0)
unfolding next_start
next_start-at rank nx ny l p true = rw (place_of-at rank true l p, line_of-at rank true l p) refl
next_start-at rank nx ny l p false = rw (place_of-at rank false l p, line_of-at rank false l p) refl

-- The whole grid, by lines.
pub lines_times :
    (grid : List ℕ) (r : Bool) {t : ℕ}
    → t ≡ 1 * (second_last_or 1 grid * last_or 1 grid)
    → t ≡ line_count grid r * line_size grid r
lines_times grid true e = omega arith
lines_times grid false e = omega arith

replicate-snoc : (n a : ℕ) (xs : List ℕ) → replicate n a ++ (a ∷ xs) ≡ a ∷ replicate n a ++ xs
replicate-snoc zero a xs = refl
replicate-snoc (suc n) a xs = ap (λ ys. a ∷ ys) (replicate-snoc n a xs)

origin-coord : (n : ℕ) → origin (suc (suc n)) ≡ coord (suc (suc n)) 0 0
origin-coord n =
    let e : suc (suc n) - 2 ≡ n = omega arith in rw (e, replicate-snoc, replicate-snoc, append-nil)

pub origin-at : (rank : ℕ) (r : Bool) → 2 ≤ rank → origin rank ≡ at rank r 0 0
origin-at zero r h = absurd (omega arith)
origin-at (suc zero) r h = absurd (omega arith)
origin-at (suc (suc n)) true h = origin-coord n
origin-at (suc (suc n)) false h = origin-coord n
