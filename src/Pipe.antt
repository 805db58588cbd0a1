-- ===== src/Pipe.antt =====
-- python/sim/pipe.py: pipes from a node to other nodes, and which nodes receive. A coordinate is a
-- natural number, and a `NodeCoord` of one dimension is a list of one where the code treats the number
-- and the tuple alike. The grid and the current node's number, which the code finds on the call stack,
-- are arguments.
pub mod Range
pub mod Receivers
mod Tests
use ml_tt_lang.Prelude.{
  ℕ, zero, suc, ◌+◌, ◌-◌, ◌*◌, ◌/◌, ◌%◌, Bool, true, false, not, ◌&&◌, ◌||◌, Option, none, some,
  List, [], ◌∷◌, ◌++◌, map, ◌==◌, ltb, leb, length, if◌then◌else◌,
}
use ml_tt_lang.Result.{Result, ok, err, ◌>>=◌, ◌>>◌, guard}
use ml_tt_lang.Block.{shape_eq}
use ml_tt_lang.NodeContext.{node, grid_size, flatten_node_index}

-- An entry of a destination tuple; a slice's parts may be left out.
pub data Item : Type 0 where
  index : ℕ → Item
  slice : Option ℕ → Option ℕ → Option ℕ → Item

-- A destination: one number, or a tuple.
pub data Dst : Type 0 where
  single : ℕ → Dst
  tuple : List Item → Dst

pub record Pipe : Type 0 where
  pub src : List ℕ
  pub dst : Dst

pub data PipeError : Type 0 where
  open_slice empty_slice strided_slice zero_step no_dimension : PipeError

-- `_validate_dst_slice`
unfoldable pub validate_dst_slice : Item → Result PipeError (Unit {0})
validate_dst_slice (slice (some start) (some stop) step) = do
  guard (ltb start stop) empty_slice
  elim step [ none ↦ ok tt | some s ↦ guard (s == 1) strided_slice ]
validate_dst_slice (slice _ _ _) = err open_slice
validate_dst_slice (index _) = ok tt

-- The loop of `Pipe.__post_init__`, over as many entries as there are names of axes.
unfoldable pub validate_axes : ℕ → List Item → Result PipeError (Unit {0})
unfolding validate_dst_slice
validate_axes (suc axes) (item ∷ items) = validate_dst_slice item >> validate_axes axes items
validate_axes _ _ = ok tt

-- `Pipe.__post_init__`
unfoldable pub make_pipe : List ℕ → Dst → Result PipeError Pipe
unfolding validate_axes
make_pipe src (single i) = ok (record { src = src; dst = single i })
make_pipe src (tuple items) = do validate_axes 3 items; ok (record { src = src; dst = tuple items })

abbrev pub has_slice : List Item → Bool
has_slice [] = false
has_slice (index _ ∷ items) = has_slice items
has_slice (slice _ _ _ ∷ items) = true

abbrev pub or_value : ℕ → Option ℕ → ℕ
or_value d none = d
or_value d (some n) = n

-- `n` numbers from `start` on, by `step`.
unfoldable pub steps : ℕ → ℕ → ℕ → List ℕ
steps zero start step = []
steps (suc n) start step = start ∷ steps n (start + step) step

-- `list(range(start, stop, step))`, for a step that is not 0.
unfoldable pub range : ℕ → ℕ → ℕ → List ℕ
unfolding steps
range start stop step = steps ((stop - start + (step - 1)) / step) start step

-- One round of the loop over the dimensions in `expand_node_range`.
unfoldable pub dim_range : ℕ → Item → Result PipeError (List ℕ)
unfolding range
dim_range size (index i) = ok (i ∷ [])
dim_range size (slice start stop step) = do
  guard (not (or_value 1 step == 0)) zero_step
  ok (range (or_value 0 start) (or_value size stop) (or_value 1 step))

unfoldable pub dim_ranges : List ℕ → List Item → Result PipeError (List (List ℕ))
unfolding dim_range
dim_ranges (size ∷ sizes) (item ∷ items) = do
  r ← dim_range size item
  rs ← dim_ranges sizes items
  ok (r ∷ rs)
dim_ranges _ _ = ok []

-- `_cartesian_product`
unfoldable pub prefix_each : List ℕ → List (List ℕ) → List (List ℕ)
prefix_each [] rest = []
prefix_each (v ∷ vs) rest = map (λ r. v ∷ r) rest ++ prefix_each vs rest

unfoldable pub cartesian_product : List (List ℕ) → List (List ℕ)
unfolding prefix_each
cartesian_product [] = [] ∷ []
cartesian_product (r ∷ ranges) = prefix_each r (cartesian_product ranges)

unfoldable pub expand_node_range : List ℕ → List Item → Result PipeError (List (List ℕ))
expand_node_range grid items = do
  sizes ← elim (grid_size (length items) grid) [ none ↦ err no_dimension | some s ↦ ok s ]
  ranges ← dim_ranges sizes items
  ok (cartesian_product ranges)

-- The test of one dimension in `node_in_dst_range`.
unfoldable pub in_item : ℕ → ℕ → Item → Bool
in_item size c (index i) = c == i
in_item size c (slice start stop step) =
    leb (or_value 0 start) c
    && (ltb c (or_value size stop) && ((c - or_value 0 start) % or_value 1 step == 0))

unfoldable pub in_items : List ℕ → List ℕ → List Item → Bool
unfolding in_item
in_items sizes [] [] = true
in_items (size ∷ sizes) (c ∷ coords) (item ∷ items) =
    in_item size c item && in_items sizes coords items
in_items _ _ _ = false

abbrev pub indices : List Item → List ℕ
indices [] = []
indices (index i ∷ items) = i ∷ indices items
indices (slice _ _ _ ∷ items) = indices items

-- `node_in_dst_range`. For one dimension `node` returns a number, which no tuple equals.
unfoldable pub node_in_dst_range : List ℕ → ℕ → Dst → Bool
node_in_dst_range grid nid (single i) = shape_eq (node 1 grid nid) (i ∷ [])
node_in_dst_range grid nid (tuple items) =
    if has_slice items
    then in_items (elim (grid_size (length items) grid) [ none ↦ [] | some s ↦ s ])
        (node (length items) grid nid) items
    else not (length items == 1) && shape_eq (node (length items) grid nid) (indices items)

-- The count of receivers in `BlockToPipeHandler.transfer` (python/sim/copyhandlers.py).
unfoldable pub num_receivers : List ℕ → Dst → Result PipeError ℕ
num_receivers grid (single i) = ok 1
num_receivers grid (tuple items) =
    if has_slice items
    then (expand_node_range grid items >>= (λ nodes. ok (length nodes)))
    else ok 1

-- `PipeNet.is_src`, `is_dst` and `is_active`
unfoldable pub is_source : List ℕ → ℕ → Pipe → Bool
is_source grid nid p = elim (flatten_node_index grid p.src) [
  | none ↦ false
  | some n ↦ shape_eq (node 1 grid nid) (n ∷ [])
]

unfoldable pub is_src : List ℕ → ℕ → List Pipe → Bool
unfolding is_source
is_src grid nid [] = false
is_src grid nid (p ∷ pipes) = is_source grid nid p || is_src grid nid pipes

unfoldable pub is_dst : List ℕ → ℕ → List Pipe → Bool
is_dst grid nid [] = false
is_dst grid nid (p ∷ pipes) = node_in_dst_range grid nid p.dst || is_dst grid nid pipes

unfoldable pub is_active : List ℕ → ℕ → List Pipe → Bool
unfolding is_src is_dst
is_active grid nid pipes = is_src grid nid pipes || is_dst grid nid pipes

-- `if_src` and `if_dst`: the pipes for which the given function is called, in order.
unfoldable pub if_src : List ℕ → ℕ → List Pipe → List Pipe
unfolding is_source
if_src grid nid [] = []
if_src grid nid (p ∷ pipes) =
    let rest = if_src grid nid pipes in if is_source grid nid p then p ∷ rest else rest

unfoldable pub if_dst : List ℕ → ℕ → List Pipe → List Pipe
if_dst grid nid [] = []
if_dst grid nid (p ∷ pipes) =
    let rest = if_dst grid nid pipes in if node_in_dst_range grid nid p.dst then p ∷ rest else rest
