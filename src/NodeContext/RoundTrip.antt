-- ===== src/NodeContext/RoundTrip.antt =====
-- The number of a node and its coordinates determine each other.
use native.Mathlib.Nat.{
  div-add-mod', mod-lt, div-lt_iff_lt-mul, mul_comm, mul_assoc, mod-eq_of_lt, mul-div_cancel,
  mul-mod_left, div-lt_self, mul-le-mul_right, mul-lt-mul_of_pos_left,
}
use mathlib.Core.Path.{subst}
use ml_tt_lang.Prelude.{
  ℕ, zero, suc, ◌+◌, ◌-◌, ◌*◌, ◌/◌, ◌%◌, ◌≤◌, ◌<◌, ◌≡◌, refl, sym, ap, ◌∙◌, some, List, [], ◌∷◌,
  ◌++◌, length, ge→ltb, replicate, arith,
}
use mathlib.Core.List.{append-nil}
use ml_tt_lang.Block.{prod}
use ml_tt_lang.NodeContext.{
  flatten_from, flatten_node_index, split_coords, flatten_first, fit_coords, node, grid_size,
}

-- Flattening undoes the splitting, with what is left of the number in front.
pub split-flatten :
    (grid : List ℕ) (nid : ℕ)
    → flatten_from (split_coords grid nid).0 grid (split_coords grid nid).1 ≡ some nid
unfolding split_coords flatten_from
split-flatten [] nid = refl
split-flatten (s ∷ grid) nid =
    ap (λ z. flatten_from z grid (split_coords grid nid).1)
      (div-add-mod' (split_coords grid nid).0 s)
    ∙ split-flatten grid nid

-- Each coordinate less than its dimension.
abbrev pub Within : List ℕ → List ℕ → Type 0
Within [] [] = Unit
Within (c ∷ coords) (s ∷ grid) = (c < s) × Within coords grid
Within _ _ = ⊥

rotate : (a b c : ℕ) → a * b * c ≡ b * (c * a)
rotate a b c = ap (λ z. z * c) (mul_comm a b) ∙ mul_assoc b a c ∙ ap (λ z. b * z) (mul_comm a c)

pub split-Within :
    (grid : List ℕ) (nid m : ℕ)
    → nid < prod grid * m
    → Within (split_coords grid nid).1 grid × ((split_coords grid nid).0 < m)
unfolding split_coords
split-Within [] nid m h = (tt, omega arith)
split-Within (zero ∷ grid) nid m h = absurd (omega arith)
split-Within (suc s ∷ grid) nid m h =
    let h' : nid < prod grid * (m * suc s) =
      subst (λ z. nid < z) (rotate (suc s) (prod grid) m) h in
    let (within, less) = split-Within grid nid (m * suc s) h' in
    let positive : zero < suc s = omega arith in
    (
      (mod-lt (split_coords grid nid).0 positive, within),
      (div-lt_iff_lt-mul {x = (split_coords grid nid).0} {y = m} positive).1 less,
    )

pub split-length : (grid : List ℕ) (nid : ℕ) → length (split_coords grid nid).1 ≡ length grid
unfolding split_coords
split-length [] nid = refl
split-length (s ∷ grid) nid = ap suc (split-length grid nid)

-- With as many dimensions as the grid has, the coordinates are left as they are.
pub node-split :
    (g : ℕ) (grid : List ℕ) (nid : ℕ)
    → node (suc (length grid)) (g ∷ grid) nid ≡ (split_coords (g ∷ grid) nid).1
unfolding node fit_coords split_coords
node-split g grid nid =
    let cs = (split_coords grid nid).1 in
    let len = split-length grid nid in
    let none_more : suc (length grid) - suc (length cs) ≡ 0 = omega arith in
    rw (ge→ltb (suc (length grid)) (suc (length cs)) (omega arith)) (
      ap (λ z. (split_coords (g ∷ grid) nid).1 ++ replicate z 0) none_more
      ∙ append-nil (split_coords (g ∷ grid) nid).1)

-- For a grid of any rank and a node of it, the node's coordinates of the grid's own rank lie within
-- the grid, and `flatten_node_index` gives back the node's number.
pub node-flatten :
    (g : ℕ) (grid : List ℕ) (nid : ℕ)
    → nid < prod (g ∷ grid)
    → (flatten_node_index (g ∷ grid) (node (suc (length grid)) (g ∷ grid) nid) ≡ some nid)
      × Within (node (suc (length grid)) (g ∷ grid) nid) (g ∷ grid)
unfolding flatten_node_index split_coords
node-flatten g grid nid h =
    let rest = (split_coords grid nid).0 in
    let cs = (split_coords grid nid).1 in
    let h₁ : nid < prod grid * g = subst (λ z. nid < z) (mul_comm g (prod grid)) h in
    let h₂ : nid < prod (g ∷ grid) * 1 = omega arith in
    let small : rest < g = (split-Within grid nid g h₁).1 in
    let first : rest % g ≡ rest = mod-eq_of_lt small in
    (
      ap (flatten_node_index (g ∷ grid)) (node-split g grid nid)
          ∙ ap (λ z. flatten_from z grid cs) first
          ∙ split-flatten grid nid,
      subst (λ z. Within z (g ∷ grid)) (sym (node-split g grid nid))
          (split-Within (g ∷ grid) nid 1 h₂).0,
    )

-- On a grid of three dimensions `node(2)` makes the first two coordinates one, while `grid_size(2)`
-- makes the last two sizes one; so where the second dimension is at least 2, some node of the grid has
-- a first coordinate that is not less than the first size.
pub node-beyond_grid_size :
    (a b c : ℕ)
    → 1 ≤ a
    → 2 ≤ b
    → 1 ≤ c
    → (a * c < prod (a ∷ b ∷ c ∷ []))
      × (node 2 (a ∷ b ∷ c ∷ []) (a * c) ≡ a ∷ 0 ∷ [])
      × (grid_size 2 (a ∷ b ∷ c ∷ []) ≡ some (a ∷ b * (c * 1) ∷ []))
unfolding node grid_size flatten_first
node-beyond_grid_size a b c ha hb hc =
    let column : a * c / c ≡ a = mul-div_cancel a (omega arith) in
    let start : a * c % c ≡ 0 = mul-mod_left a c in
    let few : a / b < a = div-lt_self (omega arith) (omega arith) in
    let merged : a / b % a * b + a % b ≡ a =
      ap (λ z. z * b + a % b) (mod-eq_of_lt few) ∙ div-add-mod' a b in
    let room : 2 * (c * 1) ≤ b * (c * 1) = mul-le-mul_right (c * 1) hb in
    let more : c < b * (c * 1) = omega arith in
    (mul-lt-mul_of_pos_left more (omega arith), rw (column, start, merged) refl, refl)
