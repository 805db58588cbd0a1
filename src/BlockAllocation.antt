-- ===== src/BlockAllocation.antt =====
-- python/utils/block_allocation.py, the division of work among the nodes of a grid:
-- `remove_leading_ones`, `get_number_of_nodes`, `num_nodes_to_grid_ranges`, `split_work_to_nodes`.
pub mod Cells
pub mod Ranges
pub mod Plane
mod Shares
pub mod Work
mod Tests
use ml_tt_lang.Prelude.{
  ℕ, zero, suc, ◌+◌, ◌-◌, ◌*◌, ◌/◌, ◌%◌, Bool, true, false, ◌&&◌, not, Option, none, some, List, [],
  ◌∷◌, ◌++◌, map, ltb, leb, ◌==◌, if◌then◌else◌, length, replicate,
}
use ml_tt_lang.Result.{Result, ok, err, ◌>>=◌, ◌>>◌, guard}

-- The assertions, and the index into an empty list of ranges.
pub data AllocationError : Type 0 where
  nonpositive_dim rank_mismatch not_2d start_outside exceeds_available : AllocationError
  no_node empty_group : AllocationError

abbrev pub Coord : Type 0
Coord = List ℕ

abbrev pub Range : Type 0
Range = Coord × Coord

-- `t[-1]` and `t[-2]`, with what the source takes where the tuple is too short.
pub last_or : ℕ → List ℕ → ℕ
last_or d [] = d
last_or d (x ∷ xs) = last_or x xs

pub second_last_or : ℕ → List ℕ → ℕ
second_last_or d [] = d
second_last_or d (x ∷ []) = d
second_last_or d (x ∷ y ∷ []) = x
second_last_or d (x ∷ y ∷ z ∷ zs) = second_last_or d (y ∷ z ∷ zs)

pub remove_leading_ones : List ℕ → List ℕ
remove_leading_ones [] = []
remove_leading_ones (d ∷ ds) = if d == 1 then remove_leading_ones ds else d ∷ ds

-- `node_count` is the product so far.
pub number_of_nodes_from : ℕ → List ℕ → Result AllocationError ℕ
number_of_nodes_from node_count [] = ok node_count
number_of_nodes_from node_count (d ∷ ds) =
    let rest = number_of_nodes_from (node_count * d) ds in
    if ltb 0 d then rest else err nonpositive_dim

pub get_number_of_nodes : List ℕ → Result AllocationError ℕ
unfolding number_of_nodes_from
get_number_of_nodes grid = number_of_nodes_from 1 grid

-- A rectangle of the grid: from `(first_line, first)` to `(last_line, last)`, both inclusive. The
-- lines are the rows if the grid is filled by rows, and the columns otherwise.
pub record Span : Type 0 where
  pub first_line : ℕ
  pub first : ℕ
  pub last_line : ℕ
  pub last : ℕ

abbrev pub span : ℕ → ℕ → ℕ → ℕ → Span
span a b c d = record { first_line = a; first = b; last_line = c; last = d }

-- "Partial row at end".
pub fill_end : ℕ → ℕ → ℕ → List Span
fill_end line place leftover =
    if ltb 0 leftover then span line place line (place + leftover - 1) ∷ [] else []

-- "Full rows", for lines of `size` nodes, and what follows.
pub fill_full : ℕ → ℕ → ℕ → ℕ → List Span
fill_full size line place leftover =
    if leb size leftover
    then span line place (line + leftover / size - 1) (size - 1)
      ∷ fill_end (line + leftover / size) 0 (leftover - leftover / size * size)
    else fill_end line place leftover

-- "Partial row at start", and what follows. The two branches of the source on `row_wise` are this
-- function, with rows and columns exchanged.
pub fill : ℕ → ℕ → ℕ → ℕ → List Span
fill size line place leftover =
    if not (place == 0) && ltb (size - place) leftover
    then span line place line (size - 1) ∷ fill_full size (line + 1) 0 (leftover - (size - place))
    else fill_full size line place leftover

-- `prefix + (y, x)` for a grid of the given rank.
abbrev pub coord : ℕ → ℕ → ℕ → Coord
coord rank y x = replicate (rank - 2) 0 ++ (y ∷ x ∷ [])

pub to_range : ℕ → Bool → Span → Range
to_range rank true s = (coord rank s.first_line s.first, coord rank s.last_line s.last)
to_range rank false s = (coord rank s.first s.first_line, coord rank s.last s.last_line)

-- `total_available_nodes`, for `lines` lines of `size` nodes.
abbrev pub available : ℕ → ℕ → ℕ → ℕ → ℕ
available lines size line place = (lines - 1 - line) * size + (size - place)

pub num_nodes_to_grid_ranges : Coord → ℕ → List ℕ → Bool → Result AllocationError (List Range)
num_nodes_to_grid_ranges start target grid row_wise = do
  guard (length start == length grid) rank_mismatch
  guard (leb (length (remove_leading_ones grid)) 2) not_2d
  let nx = last_or 1 grid
  let ny = second_last_or 1 grid
  let sx = last_or 0 start
  let sy = second_last_or 0 start
  guard (ltb sx nx && ltb sy ny) start_outside
  guard (leb target (if row_wise then available ny nx sy sx else available nx ny sx sy))
      exceeds_available
  ok (
      map (to_range (length grid) row_wise)
        (if row_wise then fill nx sy sx target else fill ny sx sy target))

-- What `split_work_to_nodes` returns.
pub record Split : Type 0 where
  pub num_nodes : ℕ
  pub group_1 : List Range
  pub group_2 : List Range
  pub work_1 : ℕ
  pub work_2 : ℕ

abbrev pub split : ℕ → List Range → List Range → ℕ → ℕ → Split
split n g1 g2 w1 w2 = record { num_nodes = n; group_1 = g1; group_2 = g2; work_1 = w1; work_2 = w2 }

-- `(0,) * rank` and `(0,) * (rank - 1) + (x,)`.
abbrev pub origin : ℕ → Coord
origin rank = replicate rank 0

abbrev pub line_coord : ℕ → ℕ → Coord
line_coord rank x = replicate (rank - 1) 0 ++ (x ∷ [])

-- A grid with one dimension that is not 1.
pub split_1d : ℕ → ℕ → ℕ → Split
split_1d rank total units =
    if leb units total
    then split units ((origin rank, line_coord rank (units - 1)) ∷ []) [] 1 0
    else if units % total == 0
    then split total ((origin rank, line_coord rank (total - 1)) ∷ []) [] (units / total) 0
    else split total ((origin rank, line_coord rank (units % total - 1)) ∷ [])
        ((line_coord rank (units % total), line_coord rank (total - 1)) ∷ []) (units / total + 1)
        (units / total)

-- `group1_ranges[-1][1]`
pub last_end : List Range → Result AllocationError Coord
last_end [] = err empty_group
last_end (r ∷ []) = ok r.1
last_end (r ∷ s ∷ rs) = last_end (s ∷ rs)

-- The node behind the last one of group 1.
pub next_start : ℕ → ℕ → ℕ → Bool → ℕ → ℕ → Coord
next_start rank nx ny true y x =
    if not (x == nx - 1) then coord rank y (x + 1) else coord rank (y + 1) 0
next_start rank nx ny false y x =
    if not (y == ny - 1) then coord rank (y + 1) x else coord rank 0 (x + 1)

-- Uneven division on a 2D grid: the first `more` nodes get one unit more than the others.
pub split_uneven : List ℕ → ℕ → ℕ → ℕ → Bool → Result AllocationError Split
split_uneven grid total more work row_wise = do
  group_1 ← num_nodes_to_grid_ranges (origin (length grid)) more grid row_wise
  end ← last_end group_1
  let start =
      next_start (length grid) (last_or 1 grid) (second_last_or 1 grid) row_wise
        (second_last_or 0 end) (last_or 0 end)
  group_2 ← num_nodes_to_grid_ranges start (total - more) grid row_wise
  ok (split total group_1 group_2 (work + 1) work)

-- More units than nodes on a 2D grid.
pub split_2d : List ℕ → ℕ → ℕ → Bool → Result AllocationError Split
split_2d grid total units row_wise =
    if units % total == 0
    then ok (
        split total
          ((
            origin (length grid),
            coord (length grid) (second_last_or 1 grid - 1) (last_or 1 grid - 1),
          )
            ∷ [])
          [] (units / total) 0)
    else split_uneven grid total (units % total) (units / total) row_wise

-- No more units than nodes on a 2D grid: one unit to each of the first nodes.
pub assign_2d : List ℕ → ℕ → Bool → Result AllocationError Split
assign_2d grid units row_wise = do
  ranges ← num_nodes_to_grid_ranges (origin (length grid)) units grid row_wise
  ok (split units ranges [] 1 0)

-- `none` stands for the `None` of a Python function that falls off its end.
pub split_by_rank : ℕ → List ℕ → ℕ → ℕ → Bool → Result AllocationError (Option Split)
split_by_rank (suc zero) grid total units row_wise = ok (some (split_1d (length grid) total units))
split_by_rank (suc (suc zero)) grid total units row_wise =
    (if leb units total then assign_2d grid units row_wise else split_2d grid total units row_wise)
    >>= λ s. ok (some s)
split_by_rank _ grid total units row_wise = ok none

pub one_device : List ℕ → ℕ → Bool → Result AllocationError (Option Split)
one_device grid units row_wise = do
  guard (leb (length (remove_leading_ones grid)) 2) not_2d
  total ← get_number_of_nodes grid
  guard (ltb 0 total) no_node
  split_by_rank (length (remove_leading_ones grid)) grid total units row_wise

pub split_work_to_nodes : List ℕ → ℕ → Bool → Result AllocationError (Option Split)
split_work_to_nodes grid units row_wise =
    if units == 0 then ok (some (split 0 [] [] 0 0)) else one_device grid units row_wise
