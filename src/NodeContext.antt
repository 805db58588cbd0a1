-- ===== src/NodeContext.antt =====
-- python/sim/nodecontext.py: the coordinates of a node, and the size of the grid. What the functions
-- find on the call stack, the grid and the number of the node, are arguments. A single `Index` and a
-- tuple of one are both a list of one number.
pub mod RoundTrip
pub mod AllNodes
mod Tests
use ml_tt_lang.Prelude.{
  ℕ, zero, suc, ◌+◌, ◌-◌, ◌*◌, ◌/◌, ◌%◌, Bool, Option, none, some, List, [], ◌∷◌, ◌++◌, length, ltb,
  replicate, if◌then◌else◌,
}
use ml_tt_lang.Block.{prod}

-- The loop of `flatten_node_index` from dimension 1 on; `none` is an index out of range.
unfoldable pub flatten_from : ℕ → List ℕ → List ℕ → Option ℕ
flatten_from linear grid [] = some linear
flatten_from linear [] (c ∷ cs) = none
flatten_from linear (g ∷ grid) (c ∷ cs) = flatten_from (linear * g + c) grid cs

unfoldable pub flatten_node_index : List ℕ → List ℕ → Option ℕ
flatten_node_index grid [] = none
flatten_node_index [] (c ∷ []) = some c
flatten_node_index [] (c ∷ _ ∷ _) = none
flatten_node_index (g ∷ grid) (c ∷ cs) = flatten_from c grid cs

-- The loop of `node` over the dimensions from the last one on: what is left of the number, and the
-- coordinates.
unfoldable pub split_coords : List ℕ → ℕ → ℕ × List ℕ
split_coords [] nid = (nid, [])
split_coords (s ∷ grid) nid =
    let (rest, coords) = split_coords grid nid in (rest / s, (rest % s) ∷ coords)

-- The first coordinates made one: `k` more of them after `linear`.
unfoldable pub flatten_first : ℕ → ℕ → List ℕ → List ℕ → List ℕ
flatten_first zero linear grid coords = linear ∷ coords
flatten_first (suc k) linear (g ∷ grid) (c ∷ coords) = flatten_first k (linear * g + c) grid coords
flatten_first (suc k) linear _ _ = linear ∷ []

-- The end of `node`, for at least one dimension.
unfoldable pub fit_coords : ℕ → List ℕ → List ℕ → List ℕ
fit_coords dims (g ∷ grid) (c ∷ coords) =
    if ltb dims (length (c ∷ coords))
    then flatten_first (length (c ∷ coords) - dims) c grid coords
    else (c ∷ coords) ++ replicate (dims - length (c ∷ coords)) 0
fit_coords dims grid coords = coords ++ replicate (dims - length coords) 0

unfoldable pub node : ℕ → List ℕ → ℕ → List ℕ
unfolding split_coords fit_coords
node dims grid nid = fit_coords dims grid (split_coords grid nid).1

-- `tuple(grid[:k])` and the product of `grid[k:]`.
unfoldable pub flatten_last : ℕ → List ℕ → List ℕ
flatten_last zero grid = prod grid ∷ []
flatten_last (suc k) [] = 1 ∷ []
flatten_last (suc k) (g ∷ grid) = g ∷ flatten_last k grid

-- `grid_size`; `none` stands for the error that `dims` is not positive.
unfoldable pub grid_size : ℕ → List ℕ → Option (List ℕ)
unfolding flatten_last
grid_size zero grid = none
grid_size (suc k) grid = some (
    if ltb (suc k) (length grid)
    then flatten_last k grid
    else grid ++ replicate (suc k - length grid) 1)
