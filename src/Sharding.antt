-- ===== src/Sharding.antt =====
-- python/sim/sharding.py: how many elements of a tensor's slice a core has in its own memory, and how
-- many are in another core's or in DRAM. Dimensions are positive, so that no difference is below 0.
pub mod Cores
pub mod Partition
pub mod Nd
pub mod Owner
pub mod Config
mod Tests
use ml_tt_lang.Prelude.{
  ℕ, zero, suc, ◌+◌, ◌-◌, ◌*◌, ◌/◌, ◌%◌, Bool, true, false, ◌&&◌, Option, none, some, List, [], ◌∷◌,
  ◌++◌, map, ltb, leb, ◌==◌, length, replicate, if◌then◌else◌,
}
use ml_tt_lang.Result.{Result, ok, err, ◌>>=◌, ◌>>◌, guard}
use ml_tt_lang.Block.{prod}
use ml_tt_lang.NodeContext.{split_coords}
use ml_tt_lang.Pipe.{or_value, steps, cartesian_product}

pub data ShardingStrategy : Type 0 where
  interleaved height_sharded width_sharded block_sharded nd_sharded : ShardingStrategy

pub data ShardDistributionStrategy : Type 0 where
  grid_2d round_robin_1d : ShardDistributionStrategy

pub record ShardSpec : Type 0 where
  pub shard_grid : List ℕ
  pub shard_shape : List ℕ

pub record NdShardSpec : Type 0 where
  pub shard_shape : List ℕ
  pub shard_grid : Option (List ℕ)
  pub distribution : ShardDistributionStrategy
  pub num_cores : Option ℕ

pub record MemoryConfig : Type 0 where
  pub strategy : ShardingStrategy
  pub shard_spec : Option ShardSpec
  pub nd_shard_spec : Option NdShardSpec

-- `no_dimension` is an index out of range.
pub data ShardError : Type 0 where
  no_dimension no_cores no_shard_grid no_nd_spec no_counter : ShardError

-- `t[-1]` and `t[-2]`
abbrev pub last : List ℕ → Option ℕ
last [] = none
last (x ∷ []) = some x
last (x ∷ y ∷ ys) = last (y ∷ ys)

abbrev pub second_last : List ℕ → Option ℕ
second_last [] = none
second_last (x ∷ []) = none
second_last (x ∷ y ∷ []) = some x
second_last (x ∷ y ∷ z ∷ zs) = second_last (y ∷ z ∷ zs)

abbrev pub at : Option ℕ → Result ShardError ℕ
at none = err no_dimension
at (some n) = ok n

-- `sum(1 for x in xs if test(x))`
abbrev pub count_if : {A : Type 0} → (A → Bool) → List A → ℕ
count_if test [] = 0
count_if test (x ∷ xs) = (if test x then 1 else 0) + count_if test xs

-- Whether `x` is in the shard of the number `core` along a dimension.
abbrev pub in_shard : ℕ → ℕ → ℕ → Bool
in_shard size core x = leb (core * size) x && ltb x ((core + 1) * size)

-- `_count_height_sharded_elements`
unfoldable pub count_height : ℕ → ShardSpec → List ℕ → List ℕ → Result ShardError (ℕ × ℕ × ℕ)
count_height core spec origin shape = do
  shard_h ← at (second_last spec.shard_shape)
  r0 ← at (second_last origin)
  h ← at (second_last shape)
  w ← at (last shape)
  let local_rows = count_if (in_shard shard_h core) (steps h r0 1)
  ok (local_rows * w, (h - local_rows) * w, 0)

-- `_count_width_sharded_elements`
unfoldable pub count_width : ℕ → ShardSpec → List ℕ → List ℕ → Result ShardError (ℕ × ℕ × ℕ)
count_width core spec origin shape = do
  shard_w ← at (last spec.shard_shape)
  c0 ← at (last origin)
  let h = or_value 1 (second_last shape)
  w ← at (last shape)
  let local_cols = count_if (in_shard shard_w core) (steps w c0 1)
  ok (local_cols * h, (w - local_cols) * h, 0)

-- The two loops of `_count_block_sharded_elements`.
abbrev pub cells : List ℕ → List ℕ → List (ℕ × ℕ)
cells [] cols = []
cells (r ∷ rows) cols = map (λ c. (r, c)) cols ++ cells rows cols

abbrev pub in_block : ℕ → ℕ → ℕ → ℕ → ℕ × ℕ → Bool
in_block shard_h shard_w core_row core_col (r, c) =
    in_shard shard_h core_row r && in_shard shard_w core_col c

unfoldable pub count_block : ℕ → ShardSpec → List ℕ → List ℕ → Result ShardError (ℕ × ℕ × ℕ)
count_block core spec origin shape = do
  num_core_cols ← at (last spec.shard_grid)
  shard_h ← at (second_last spec.shard_shape)
  shard_w ← at (last spec.shard_shape)
  r0 ← at (second_last origin)
  c0 ← at (last origin)
  h ← at (second_last shape)
  w ← at (last shape)
  let test = in_block shard_h shard_w (core / num_core_cols) (core % num_core_cols)
  let local_elements = count_if test (cells (steps h r0 1) (steps w c0 1))
  ok (local_elements, h * w - local_elements, 0)

-- The ranges of `origin` and `shape`, over the dimensions of the shard grid.
abbrev pub element_ranges : List ℕ → List ℕ → List ℕ → List (List ℕ)
element_ranges (g ∷ grid) (o ∷ origin) (n ∷ shape) = steps n o 1 ∷ element_ranges grid origin shape
element_ranges _ _ _ = []

-- `_count_nd_grid2d_elements`, where `_linear_to_nd_pos` gives the core's position.
abbrev pub in_nd_shard : List ℕ → List ℕ → List ℕ → Bool
in_nd_shard (p ∷ core_pos) (s ∷ shard_shape) (x ∷ pos) =
    in_shard s p x && in_nd_shard core_pos shard_shape pos
in_nd_shard _ _ _ = true

unfoldable pub linear_to_nd_pos : ℕ → List ℕ → List ℕ
unfolding split_coords
linear_to_nd_pos linear grid = (split_coords grid linear).1

abbrev pub check_rank : List ℕ → List ℕ → List ℕ → List ℕ → Result ShardError (Unit {0})
check_rank grid shard_shape origin shape = do
  guard (leb (length grid) (length shard_shape)) no_dimension
  guard (leb (length grid) (length origin)) no_dimension
  guard (leb (length grid) (length shape)) no_dimension

unfoldable pub count_nd_grid2d :
    ℕ → NdShardSpec → List ℕ → List ℕ → List ℕ → Result ShardError (ℕ × ℕ × ℕ)
unfolding linear_to_nd_pos
count_nd_grid2d core spec grid origin shape = do
  check_rank grid spec.shard_shape origin shape
  let core_pos = linear_to_nd_pos core grid
  let positions = cartesian_product (element_ranges grid origin shape)
  let local_elements = count_if (in_nd_shard core_pos spec.shard_shape) positions
  ok (local_elements, prod shape - local_elements, 0)

-- The number of an element's shard: its strides are the products of the grid's later dimensions.
abbrev pub shard_number : List ℕ → List ℕ → List ℕ → ℕ
shard_number (g ∷ grid) (s ∷ shard_shape) (x ∷ pos) =
    x / s * prod grid + shard_number grid shard_shape pos
shard_number _ _ _ = 0

-- `_count_nd_round_robin_elements`
unfoldable pub count_nd_round_robin :
    ℕ → NdShardSpec → List ℕ → List ℕ → List ℕ → Result ShardError (ℕ × ℕ × ℕ)
count_nd_round_robin core spec grid origin shape = do
  let num_cores = or_value (prod grid) spec.num_cores
  guard (leb 1 num_cores) no_cores
  check_rank grid spec.shard_shape origin shape
  let positions = cartesian_product (element_ranges grid origin shape)
  let local_elements =
      count_if (λ pos. shard_number grid spec.shard_shape pos % num_cores == core) positions
  ok (local_elements, prod shape - local_elements, 0)

-- `_count_nd_sharded_elements`
unfoldable pub count_nd_sharded : ℕ → NdShardSpec → List ℕ → List ℕ → Result ShardError (ℕ × ℕ × ℕ)
count_nd_sharded core spec origin shape = elim spec.shard_grid [
  | none ↦ err no_shard_grid
  | some grid ↦ elim spec.distribution [
    | grid_2d ↦ count_nd_grid2d core spec grid origin shape
    | round_robin_1d ↦ count_nd_round_robin core spec grid origin shape
  ]
]

-- `_SHARD_ELEMENT_COUNTERS`
unfoldable pub counter :
    ShardingStrategy → ℕ → ShardSpec → List ℕ → List ℕ → Result ShardError (ℕ × ℕ × ℕ)
counter height_sharded = count_height
counter width_sharded = count_width
counter block_sharded = count_block
counter _ = λ core spec origin shape. err no_counter

abbrev pub is_interleaved : ShardingStrategy → Bool
is_interleaved interleaved = true
is_interleaved _ = false

abbrev pub is_nd : ShardingStrategy → Bool
is_nd nd_sharded = true
is_nd _ = false

abbrev pub or_zeros : ℕ → Option (List ℕ) → List ℕ
or_zeros n none = replicate n 0
or_zeros n (some origin) = origin

unfoldable pub count_local_remote_l1_dram :
    MemoryConfig → List ℕ → ℕ → Option (List ℕ) → Result ShardError (ℕ × ℕ × ℕ)
count_local_remote_l1_dram mc shape core origin_in_parent =
    let origin = or_zeros (length shape) origin_in_parent in
    if is_interleaved mc.strategy
    then ok (0, 0, prod shape)
    else if is_nd mc.strategy
    then elim mc.nd_shard_spec [
      | none ↦ err no_nd_spec
      | some spec ↦ count_nd_sharded core spec origin shape
    ]
    else elim mc.shard_spec [
      | none ↦ ok (0, 0, prod shape)
      | some spec ↦ counter mc.strategy core spec origin shape
    ]
