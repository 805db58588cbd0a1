-- ===== src/BlockAllocation/Work.antt =====
-- `split_work_to_nodes` on a two-dimensional grid, and on a grid of one node.
use native.Mathlib.Decide.{ℕ_discrete}
use ml_tt_lang.Prelude.{
  none, ℕ, zero, suc, ◌*◌, ◌%◌, ◌≤◌, ◌≡◌, refl, Bool, false, some, List, [], ◌∷◌, arith, length,
  leb, ◌==◌, if◌then◌else◌, lt→ltb, leb→le, leb→gt, ==_iff, Bool-cases, inl, inr,
}
use ml_tt_lang.Result.{ok}
use ml_tt_lang.BlockAllocation.{
  Split, remove_leading_ones, number_of_nodes_from, get_number_of_nodes, split_2d, assign_2d,
  split_by_rank, one_device, split_work_to_nodes,
}
use ml_tt_lang.BlockAllocation.Plane.{plane_size, lines_times}
use ml_tt_lang.BlockAllocation.Ranges.{line_size, line_count}
use ml_tt_lang.BlockAllocation.Shares.{
  Divides, IsPlane, assign_2d-Divides, split_even-Divides, split_uneven-Divides,
}

plane :
    (grid : List ℕ) (r : Bool) {total : ℕ}
    → length (remove_leading_ones grid) ≡ 2
    → get_number_of_nodes grid ≡ ok total
    → IsPlane grid r total
unfolding get_number_of_nodes
plane grid r {total} flat counted =
    let (size, rank, some_node) = plane_size 1 1 grid (omega arith) flat counted in
    let by_lines : total ≡ line_count grid r * line_size grid r = lines_times grid r size in
    record {
      rank = rank;
      flat = flat;
      size = by_lines;
      some_node = some_node;
      some_line = factor_pos (line_count grid r) (line_size grid r) (omega arith);
      some_place = factor_pos (line_size grid r) (line_count grid r) (omega arith);
    }
  where
    factor_pos : (a b : ℕ) → 1 ≤ a * b → 1 ≤ a
    factor_pos zero b h = omega arith
    factor_pos (suc a) b h = omega arith

-- The three ways of a two-dimensional grid.
plane_split :
    (grid : List ℕ) (units : ℕ) (r : Bool) {total : ℕ}
    → IsPlane grid r total
    → (s : Split) × ((if leb units total
          then assign_2d grid units r
          else split_2d grid total units r)
        ≡ ok s)
      × Divides grid r total units s
plane_split grid units r {total} v = elim (Bool-cases (leb units total)) [
  | inl few ↦ rw few (assign_2d-Divides grid r total v units (leb→le units total few))
  | inr many ↦ rw many (elim (ℕ_discrete (units % total) 0) [
    | yes e ↦ split_even-Divides grid r total v units e (leb→gt units total many)
    | no n ↦ split_uneven-Divides grid r total v units (omega arith) (leb→gt units total many)
  ])
]

-- On a grid that has two dimensions besides leading ones, and for any positive number of units, the
-- call succeeds and divides the units among the nodes, by rows or by columns, as `Divides` says.
pub split_work_to_nodes-Divides :
    (grid : List ℕ) (units : ℕ) (r : Bool) {total : ℕ}
    → length (remove_leading_ones grid) ≡ 2
    → get_number_of_nodes grid ≡ ok total
    → 1 ≤ units
    → (s : Split) × (split_work_to_nodes grid units r ≡ ok (some s)) × Divides grid r total units s
unfolding split_work_to_nodes one_device split_by_rank
split_work_to_nodes-Divides grid units r {total} flat counted some_unit =
    let v = plane grid r flat counted in
    let (s, e, d) = plane_split grid units r v in
    let nonzero : (units == 0) ≡ false = ground arith in
    (s, rw (nonzero, flat, counted, lt→ltb 0 total v.some_node, e) refl, d)

single_node :
    (c : ℕ) (grid : List ℕ)
    → length (remove_leading_ones grid) ≡ 0
    → number_of_nodes_from c grid ≡ ok c
unfolding remove_leading_ones number_of_nodes_from
single_node c [] h = refl
single_node c (d ∷ ds) h = elim (Bool-cases (d == 1)) [
  | inl one ↦
      let e = (==_iff d 1).0 one in
      let same : c * 1 ≡ c = omega arith in rw (e, same) (single_node c ds (rw one at h))
  | inr other ↦ absurd (let q = rw other at h in omega arith)
]

-- On a grid of one node, given by ones alone, no branch returns, and the result is `None`, for any
-- positive number of units.
pub split_work_to_nodes-single :
    (grid : List ℕ) (units : ℕ) (r : Bool)
    → length (remove_leading_ones grid) ≡ 0
    → 1 ≤ units
    → split_work_to_nodes grid units r ≡ ok none
unfolding split_work_to_nodes one_device split_by_rank get_number_of_nodes
split_work_to_nodes-single grid units r flat some_unit =
    let nonzero : (units == 0) ≡ false = ground arith in
    rw (nonzero, flat, single_node 1 grid flat) refl
