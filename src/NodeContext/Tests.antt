-- ===== src/NodeContext/Tests.antt =====
-- Nodes of a grid of 2 by 3 by 4.
use ml_tt_lang.Prelude.{ℕ, ◌<◌, ◌≡◌, some, List, [], ◌∷◌, arith}
use ml_tt_lang.Block.{prod}
use ml_tt_lang.NodeContext.{flatten_node_index, node, grid_size}
use ml_tt_lang.NodeContext.RoundTrip.{Within, node-flatten, node-beyond_grid_size}

abbrev grid : List ℕ
grid = 2 ∷ 3 ∷ 4 ∷ []

node-flatten_example :
    (flatten_node_index grid (node 3 grid 17) ≡ some 17) × Within (node 3 grid 17) grid
node-flatten_example = node-flatten 2 (3 ∷ 4 ∷ []) 17 (omega arith)

node-beyond_grid_size_example :
    (8 < prod grid) × (node 2 grid 8 ≡ 2 ∷ 0 ∷ []) × (grid_size 2 grid ≡ some (2 ∷ 12 ∷ []))
node-beyond_grid_size_example =
    node-beyond_grid_size 2 3 4 (omega arith) (omega arith) (omega arith)
