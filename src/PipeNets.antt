-- ===== src/PipeNets.antt =====
-- python/ttl/_pipenets/__init__.py: the graph of an operation's pipe nets, and python/sim/pipe.py,
-- where the simulator makes it from its own pipes. A set is a list without repetitions, and the
-- `dict` that counts pipes by source is an association list.
mod Coords
mod Rect
pub mod Active
pub mod Semaphores
pub mod Validation
mod Tests
use ml_tt_lang.Prelude.{
  ℕ, zero, suc, ◌+◌, ◌*◌, max, Bool, true, false, not, ◌&&◌, ◌||◌, Option, none, some, List, [],
  ◌∷◌, ◌++◌, ltb, leb, ◌==◌, length, if◌then◌else◌,
}
use ml_tt_lang.Result.{Result, ok, err, ◌>>=◌, ◌>>◌, guard}
use ml_tt_lang.Block.{shape_eq, member, add}
use ml_tt_lang.Pipe.{
  Item, index, slice, Dst, single, tuple, Pipe, has_slice, range, cartesian_product, indices,
}

-- `NodeCoord` or `NodeRange`
pub data Destination : Type 0 where
  node_coord : List ℕ → Destination
  node_range : List ℕ → List ℕ → Destination

pub record PipeUse : Type 0 where
  pub src : List ℕ
  pub dst : Destination

pub record PipeNetUse : Type 0 where
  pub id : ℕ
  pub pipes : List PipeUse

-- `no_bound` is the comparison of `None` with a number, `no_coords` an index out of range.
pub data NetError : Type 0 where
  rank_mismatch empty_axis no_bound rank_exceeds no_coords no_pipes mixed_kinds mixed_ranks :
      NetError

abbrev pub check_bounds : List ℕ → List ℕ → Result NetError (Unit {0})
check_bounds (lo ∷ los) (hi ∷ his) = guard (ltb lo hi) empty_axis >> check_bounds los his
check_bounds _ _ = ok tt

-- `NodeRange.__post_init__`
unfoldable pub make_node_range : List ℕ → List ℕ → Result NetError Destination
make_node_range lo hi = do
  guard (length lo == length hi) rank_mismatch
  check_bounds lo hi
  ok (node_range lo hi)

-- `add_pipe_net`
unfoldable pub add_pipe_net : List PipeUse → List PipeNetUse → List PipeNetUse
add_pipe_net pipes nets = nets ++ (record { id = length nets; pipes = pipes } ∷ [])

-- `_linearize`
abbrev pub linearize_from : ℕ → List ℕ → List ℕ → Result NetError ℕ
linearize_from linear [] grid = ok linear
linearize_from linear (c ∷ coords) [] = err no_coords
linearize_from linear (c ∷ coords) (g ∷ grid) = linearize_from (linear * g + c) coords grid

unfoldable pub linearize : List ℕ → List ℕ → Result NetError ℕ
linearize [] grid = err no_coords
linearize (c ∷ coords) [] = err rank_exceeds
linearize (c ∷ coords) (g ∷ grid) = do
  guard (leb (length coords) (length grid)) rank_exceeds
  linearize_from c coords grid

-- `_expand_dst`
abbrev pub axis_ranges : List ℕ → List ℕ → List (List ℕ)
axis_ranges (lo ∷ los) (hi ∷ his) = range lo hi 1 ∷ axis_ranges los his
axis_ranges _ _ = []

unfoldable pub expand_dst : Destination → List (List ℕ)
expand_dst (node_coord coords) = coords ∷ []
expand_dst (node_range lo hi) = cartesian_product (axis_ranges lo hi)

-- `active_node_set`: the loops over the destination's coordinates, over the pipes and over the nets.
abbrev pub add_coords : List ℕ → List (List ℕ) → List ℕ → Result NetError (List ℕ)
add_coords grid [] active = ok active
add_coords grid (c ∷ coords) active = do n ← linearize c grid; add_coords grid coords (add n active)

abbrev pub add_pipes : List ℕ → List PipeUse → List ℕ → Result NetError (List ℕ)
add_pipes grid [] active = ok active
add_pipes grid (p ∷ pipes) active = do
  n ← linearize p.src grid
  active' ← add_coords grid (expand_dst p.dst) (add n active)
  add_pipes grid pipes active'

abbrev pub add_nets : List ℕ → List PipeNetUse → List ℕ → Result NetError (List ℕ)
add_nets grid [] active = ok active
add_nets grid (net ∷ nets) active = do
  active' ← add_pipes grid net.pipes active
  add_nets grid nets active'

unfoldable pub active_node_set : List ℕ → List PipeNetUse → Result NetError (Option (List ℕ))
active_node_set grid [] = ok none
active_node_set grid (net ∷ nets) = do active ← add_nets grid (net ∷ nets) []; ok (some active)

-- `_validate_no_mixed_kinds`
abbrev pub is_range : Destination → Bool
is_range (node_coord _) = false
is_range (node_range _ _) = true

abbrev pub has_collective : List PipeUse → Bool
has_collective [] = false
has_collective (p ∷ pipes) = is_range p.dst || has_collective pipes

abbrev pub has_point_to_point : List PipeUse → Bool
has_point_to_point [] = false
has_point_to_point (p ∷ pipes) = not (is_range p.dst) || has_point_to_point pipes

-- `_validate_consistent_coord_rank`: the set of the ranks.
abbrev pub dst_rank : Destination → ℕ
dst_rank (node_coord coords) = length coords
dst_rank (node_range lo hi) = length lo

abbrev pub pipe_ranks : List PipeUse → List ℕ → List ℕ
pipe_ranks [] ranks = ranks
pipe_ranks (p ∷ pipes) ranks = pipe_ranks pipes (add (dst_rank p.dst) (add (length p.src) ranks))

abbrev pub net_ranks : List PipeNetUse → List ℕ → List ℕ
net_ranks [] ranks = ranks
net_ranks (net ∷ nets) ranks = net_ranks nets (pipe_ranks net.pipes ranks)

abbrev pub is_nonempty : List PipeUse → Bool
is_nonempty [] = false
is_nonempty (p ∷ pipes) = true

abbrev pub validate_nets : List PipeNetUse → Result NetError (Unit {0})
validate_nets [] = ok tt
validate_nets (net ∷ nets) = do
  guard (is_nonempty net.pipes) no_pipes
  guard (not (has_point_to_point net.pipes && has_collective net.pipes)) mixed_kinds
  validate_nets nets

unfoldable pub validate : List PipeNetUse → Result NetError (Unit {0})
validate nets = do validate_nets nets; guard (leb (length (net_ranks nets [])) 1) mixed_ranks

-- `_max_pipes_per_source`
abbrev pub count_source : List ℕ → List (List ℕ × ℕ) → List (List ℕ × ℕ)
count_source src [] = (src, 1) ∷ []
count_source src ((s, n) ∷ counts) =
    let rest = count_source src counts in
    if shape_eq src s then (s, n + 1) ∷ counts else (s, n) ∷ rest

abbrev pub count_pipes : List PipeUse → List (List ℕ × ℕ) → List (List ℕ × ℕ)
count_pipes [] counts = counts
count_pipes (p ∷ pipes) counts = count_pipes pipes (count_source p.src counts)

abbrev pub count_nets : List PipeNetUse → List (List ℕ × ℕ) → List (List ℕ × ℕ)
count_nets [] counts = counts
count_nets (net ∷ nets) counts = count_nets nets (count_pipes net.pipes counts)

abbrev pub max_value : List (List ℕ × ℕ) → ℕ
max_value [] = 0
max_value ((s, n) ∷ counts) = max n (max_value counts)

unfoldable pub max_pipes_per_source : List PipeNetUse → ℕ
max_pipes_per_source nets = max_value (count_nets nets [])

-- `MAX_HARDWARE_SEMAPHORE_IDS` of python/ttl/constants.py
abbrev pub max_hardware_semaphore_ids : ℕ
max_hardware_semaphore_ids = 16

unfoldable pub uses_global_ready_counters : ℕ → ℕ → Bool
uses_global_ready_counters num_pipe_nets max_pipes =
    ltb max_hardware_semaphore_ids (num_pipe_nets + max_pipes)

unfoldable pub num_pipe_sync_semaphores : List PipeNetUse → ℕ
unfolding uses_global_ready_counters
num_pipe_sync_semaphores [] = 0
num_pipe_sync_semaphores (net ∷ nets) =
    let num_pipe_nets = length (net ∷ nets) in
    let max_pipes = max_pipes_per_source (net ∷ nets) in
    if uses_global_ready_counters num_pipe_nets max_pipes
    then num_pipe_nets
    else num_pipe_nets + max_pipes

abbrev pub num_pipes : List PipeNetUse → ℕ
num_pipes [] = 0
num_pipes (net ∷ nets) = length net.pipes + num_pipes nets

unfoldable pub num_pipe_global_semaphores : List PipeNetUse → ℕ
unfolding uses_global_ready_counters
num_pipe_global_semaphores [] = 0
num_pipe_global_semaphores (net ∷ nets) =
    if not (uses_global_ready_counters (length (net ∷ nets)) (max_pipes_per_source (net ∷ nets)))
    then 0
    else num_pipes (net ∷ nets)

-- `_axis_bounds` of python/sim/pipe.py. A slice left open fails here, and in the code when `NodeRange`
-- compares its bounds.
unfoldable pub axis_bounds : Item → Result NetError (ℕ × ℕ)
axis_bounds (index i) = ok (i, i + 1)
axis_bounds (slice (some start) (some stop) _) = ok (start, stop)
axis_bounds (slice _ _ _) = err no_bound

-- `_normalize_dst_rect`: the lower and the upper bounds.
unfoldable pub dst_rect : List Item → Result NetError (List ℕ × List ℕ)
unfolding axis_bounds
dst_rect [] = ok ([], [])
dst_rect (item ∷ items) = do
  (lo, hi) ← axis_bounds item
  (los, his) ← dst_rect items
  ok (lo ∷ los, hi ∷ his)

-- `_pipe_to_pipe_use`
unfoldable pub pipe_to_pipe_use : Pipe → Result NetError PipeUse
pipe_to_pipe_use p = elim p.dst [
  | single i ↦ ok (record { src = p.src; dst = node_coord (i ∷ []) })
  | tuple items ↦
      if has_slice items
      then (dst_rect items
          >>= (λ rect. make_node_range rect.0 rect.1)
          >>= (λ dst. ok (record { src = p.src; dst = dst })))
      else ok (record { src = p.src; dst = node_coord (indices items) })
]

abbrev pub pipe_uses : List Pipe → Result NetError (List PipeUse)
pipe_uses [] = ok []
pipe_uses (p ∷ pipes) = do use' ← pipe_to_pipe_use p; uses ← pipe_uses pipes; ok (use' ∷ uses)

-- `build_pipenets`: the loop over the nets that are left.
unfoldable pub build_from : List (List Pipe) → List PipeNetUse → Result NetError (List PipeNetUse)
unfolding add_pipe_net
build_from [] graph = ok graph
build_from (net ∷ nets) graph = do uses ← pipe_uses net; build_from nets (add_pipe_net uses graph)

unfoldable pub build_pipenets : List (List Pipe) → Result NetError (List PipeNetUse)
unfolding build_from
build_pipenets nets = build_from nets []
