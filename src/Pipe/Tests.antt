-- ===== src/Pipe/Tests.antt =====
-- Pipes on a grid of 4 by 2 nodes.
use ml_tt_lang.Prelude.{ℕ, ◌≤◌, ◌≡◌, refl, true, false, some, none, List, [], ◌∷◌, arith}
use ml_tt_lang.Result.{ok}
use ml_tt_lang.NodeContext.{node, grid_size}
use ml_tt_lang.Pipe.{
  Pipe, Item, index, slice, tuple, make_pipe, validate_axes, expand_node_range, node_in_dst_range,
  in_items, num_receivers, steps, dim_ranges, cartesian_product,
}
use ml_tt_lang.Pipe.Range.{has_coords, node_in_dst_range-expand}
use ml_tt_lang.Pipe.Receivers.{num_receivers-node_in_dst_range}
use ml_tt_lang.Sharding.Cores.{sum_cores, one_if}

-- Rows 1 and 2 of column 1.
abbrev rows : List Item
rows = slice (some 1) (some 3) none ∷ index 1 ∷ []

abbrev multicast : Pipe
multicast = record { src = 0 ∷ 0 ∷ []; dst = tuple rows }

make-multicast : make_pipe (0 ∷ 0 ∷ []) (tuple rows) ≡ ok multicast
unfolding make_pipe
make-multicast = refl

node_in_dst_range-expand_example :
    (nodes : List (List ℕ)) × (expand_node_range (4 ∷ 2 ∷ []) rows ≡ ok nodes)
    × (node_in_dst_range (4 ∷ 2 ∷ []) 5 (tuple rows) ≡ has_coords (node 2 (4 ∷ 2 ∷ []) 5) nodes)
node_in_dst_range-expand_example =
    node_in_dst_range-expand (4 ∷ 2 ∷ []) 5 (0 ∷ 0 ∷ []) rows make-multicast refl (omega arith)

num_receivers-node_in_dst_range_example :
    (n : ℕ) × (num_receivers (4 ∷ 2 ∷ []) (tuple rows) ≡ ok n)
    × (sum_cores 8 (λ nid. one_if (node_in_dst_range (4 ∷ 2 ∷ []) nid (tuple rows))) ≡ n)
num_receivers-node_in_dst_range_example =
    num_receivers-node_in_dst_range 4 (2 ∷ []) (0 ∷ 0 ∷ []) rows make-multicast refl refl
      (omega arith) ((let within : 3 ≤ 4 = omega arith in within), (omega arith, tt))

-- A range that ends beyond the grid counts receivers that are not there.
beyond_grid : num_receivers (4 ∷ []) (tuple (slice (some 2) (some 7) none ∷ [])) ≡ ok 5
unfolding num_receivers expand_node_range steps grid_size dim_ranges cartesian_product
beyond_grid = refl

-- Node 5 is (2, 1), a receiver.
in_rows : node_in_dst_range (4 ∷ 2 ∷ []) 5 (tuple rows) ≡ true
unfolding node_in_dst_range in_items node grid_size
in_rows = refl

-- A tuple of one number names no node: `node` returns a number for one dimension.
one_tuple : node_in_dst_range (4 ∷ []) 3 (tuple (index 3 ∷ [])) ≡ false
unfolding node_in_dst_range
one_tuple = refl

-- A fourth axis is not checked.
fourth_axis :
    validate_axes 3 (index 0 ∷ index 0 ∷ index 0 ∷ slice (some 5) (some 2) none ∷ []) ≡ ok tt
unfolding validate_axes
fourth_axis = refl
