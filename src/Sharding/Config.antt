-- ===== src/Sharding/Config.antt =====
-- python/sim/ttnnsim.py: the memory configuration that shards a tensor over a grid of cores. The grid
-- has at least one core, and the orientation, which the counters do not read, is left out.
use native.Mathlib.Nat.{div-add-mod', mul_comm}
use mathlib.Core.Path.{subst}
use ml_tt_lang.Prelude.{
  ℕ, zero, suc, ◌+◌, ◌*◌, ◌/◌, ◌%◌, ◌≤◌, ◌≡◌, refl, sym, ap, ◌∙◌, Bool, true, false, none, some,
  List, [], ◌∷◌, arith,
}
use ml_tt_lang.Result.{Result, ok, ◌>>=◌}
use ml_tt_lang.Block.{prod}
use ml_tt_lang.Sharding.{
  ShardingStrategy, height_sharded, width_sharded, block_sharded, ShardSpec, MemoryConfig,
  ShardError, last, second_last, at, counter, count_local_remote_l1_dram,
}
use ml_tt_lang.Sharding.Cores.{sum_cores, sum_cores-ext}
use ml_tt_lang.Sharding.Partition.{local, Accounts, Holds, counter-Partitions}

pub record CoreGrid : Type 0 where
  pub y : ℕ
  pub x : ℕ

abbrev pub grid_cores : CoreGrid → ℕ
grid_cores g = g.y * g.x

pub data ShardStrategy : Type 0 where
  height width block : ShardStrategy

-- `shape_t[:-1]`
abbrev pub leading_dims : List ℕ → List ℕ
leading_dims [] = []
leading_dims (n ∷ []) = []
leading_dims (n ∷ m ∷ shape) = n ∷ leading_dims (m ∷ shape)

abbrev pub derived_shard : ShardStrategy → CoreGrid → ℕ → ℕ → List ℕ
derived_shard height g total_h total_w = total_h / grid_cores g ∷ total_w ∷ []
derived_shard width g total_h total_w = total_h ∷ total_w / grid_cores g ∷ []
derived_shard block g total_h total_w = total_h / g.y ∷ total_w / g.x ∷ []

-- The shard's height and width.
unfoldable pub shard_dims : List ℕ → CoreGrid → ShardStrategy → Bool → Result ShardError (List ℕ)
shard_dims shape g strategy true = do
  h ← at (second_last shape)
  w ← at (last shape)
  ok (h ∷ w ∷ [])
shard_dims shape g strategy false = do
  w ← at (last shape)
  ok (derived_shard strategy g (prod (leading_dims shape)) w)

abbrev pub strategy_grid : ShardStrategy → CoreGrid → List ℕ
strategy_grid block g = g.y ∷ g.x ∷ []
strategy_grid _ g = grid_cores g ∷ []

-- `_SHARD_STRATEGY_MAP`
abbrev pub to_sharding : ShardStrategy → ShardingStrategy
to_sharding height = height_sharded
to_sharding width = width_sharded
to_sharding block = block_sharded

unfoldable pub create_sharded_memory_config :
    List ℕ → CoreGrid → ShardStrategy → Bool → Result ShardError MemoryConfig
unfolding shard_dims
create_sharded_memory_config shape g strategy use_height_and_width_as_shard_shape = do
  dims ← shard_dims shape g strategy use_height_and_width_as_shard_shape
  let spec : ShardSpec = record { shard_grid = strategy_grid strategy g; shard_shape = dims }
  ok (record { strategy = to_sharding strategy; shard_spec = some spec; nd_shard_spec = none })

-- The dimensions that are sharded are multiples of the cores along them.
abbrev pub Evenly : ShardStrategy → CoreGrid → ℕ → ℕ → Type 0
Evenly height g h w = h % grid_cores g ≡ 0
Evenly width g h w = w % grid_cores g ≡ 0
Evenly block g h w = (h % g.y ≡ 0) × (w % g.x ≡ 0)

quotient-pos : (q n len : ℕ) → q * n ≡ len → 1 ≤ len → 1 ≤ q
quotient-pos zero n len e h = absurd (omega arith)
quotient-pos (suc q) n len e h = omega arith

-- The shards of a dimension hold it, and are not empty.
even_shards : (len n : ℕ) → 1 ≤ len → len % n ≡ 0 → (1 ≤ len / n) × (len ≤ n * (len / n))
even_shards len n some_left even =
    let whole : len / n * n ≡ len = let e = div-add-mod' len n in omega arith in
    let turned : n * (len / n) ≡ len = mul_comm n (len / n) ∙ whole in
    (quotient-pos (len / n) n len whole some_left, omega arith)

-- The configuration that is made, and the cores whose shards hold the whole tensor.
abbrev made : ShardStrategy → CoreGrid → ℕ → ℕ → ShardSpec
made strategy g h w = record {
  shard_grid = strategy_grid strategy g;
  shard_shape = derived_shard strategy g h w;
}

made-Holds :
    (strategy : ShardStrategy) (g : CoreGrid) (h w r0 c0 rows cols : ℕ)
    → 1 ≤ h
    → 1 ≤ w
    → r0 + rows ≤ h
    → c0 + cols ≤ w
    → Evenly strategy g h w
    → Holds (to_sharding strategy) (made strategy g h w) (r0 ∷ c0 ∷ []) rows cols (grid_cores g)
made-Holds height g h w r0 c0 rows cols ph pw inh inw even =
    let (some_left, room) = even_shards h (grid_cores g) ph even in
    (h / grid_cores g, r0, refl, refl, some_left, omega arith)
made-Holds width g h w r0 c0 rows cols ph pw inh inw even =
    let (some_left, room) = even_shards w (grid_cores g) pw even in
    (w / grid_cores g, c0, refl, refl, some_left, omega arith)
made-Holds block g h w r0 c0 rows cols ph pw inh inw (evenh, evenw) =
    let (some_h, roomh) = even_shards h g.y ph evenh in
    let (some_w, roomw) = even_shards w g.x pw evenw in
    (
      g.y,
      g.x,
      h / g.y,
      w / g.x,
      r0,
      c0,
      refl,
      refl,
      refl,
      refl,
      refl,
      refl,
      some_h,
      some_w,
      omega arith,
      omega arith,
    )

counted :
    (strategy : ShardStrategy) (spec : ShardSpec) (r0 c0 h w k : ℕ)
    → count_local_remote_l1_dram
        (record { strategy = to_sharding strategy; shard_spec = some spec; nd_shard_spec = none })
        (h ∷ w ∷ [])
        k
        (some (r0 ∷ c0 ∷ []))
      ≡ counter (to_sharding strategy) k spec (r0 ∷ c0 ∷ []) (h ∷ w ∷ [])
unfolding count_local_remote_l1_dram
counted height spec r0 c0 h w k = refl
counted width spec r0 c0 h w k = refl
counted block spec r0 c0 h w k = refl

-- The counts of all cores for a slice of a tensor with the configuration.
abbrev pub slice_count : MemoryConfig → ℕ → ℕ → ℕ → ℕ → ℕ → Result ShardError (ℕ × ℕ × ℕ)
slice_count mc r0 c0 rows cols k =
    count_local_remote_l1_dram mc (rows ∷ cols ∷ []) k (some (r0 ∷ c0 ∷ []))

-- A tensor of two dimensions that `create_sharded_memory_config` shards evenly over a grid of cores: the
-- configuration is made, and for every slice within the tensor, one element or all of it, each core's
-- local and remote elements add up to the slice's, none of them in DRAM, and the local elements of all
-- cores add up to them too, so that each element is local to exactly one core.
pub create_sharded_memory_config-Partitions :
    (strategy : ShardStrategy) (g : CoreGrid) (h w : ℕ)
    → 1 ≤ h
    → 1 ≤ w
    → Evenly strategy g h w
    → (mc : MemoryConfig) × (create_sharded_memory_config (h ∷ w ∷ []) g strategy false ≡ ok mc)
      × ((r0 c0 rows cols : ℕ)
          → r0 + rows ≤ h
          → c0 + cols ≤ w
          → ((k : ℕ) → Accounts (rows * cols) (slice_count mc r0 c0 rows cols k))
            × (sum_cores (grid_cores g) (λ k. local (slice_count mc r0 c0 rows cols k))
                ≡ rows * cols))
unfolding create_sharded_memory_config
create_sharded_memory_config-Partitions strategy g h w ph pw even =
    let spec = made strategy g h w in
    let mc : MemoryConfig = record {
      strategy = to_sharding strategy;
      shard_spec = some spec;
      nd_shard_spec = none;
    } in
    (
      mc,
      ap
          (λ z. ok (record {
            strategy = to_sharding strategy;
            shard_spec = some (made strategy g z w);
            nd_shard_spec = none;
          }))
          (let one : h * 1 ≡ h = omega arith in one),
      λ r0 c0 rows cols inh inw.
          let shape = rows ∷ cols ∷ [] in
          let (accounts, total) =
            counter-Partitions (to_sharding strategy) spec (r0 ∷ c0 ∷ []) shape rows cols
              (grid_cores g) refl refl
              (made-Holds strategy g h w r0 c0 rows cols ph pw inh inw even) in
          (
            λ k.
                subst (Accounts (rows * cols)) (sym (counted strategy spec r0 c0 rows cols k))
                  (accounts k),
            sum_cores-ext (grid_cores g) (λ k. local (slice_count mc r0 c0 rows cols k))
                  (λ k. local (counter (to_sharding strategy) k spec (r0 ∷ c0 ∷ []) shape))
                  (λ k. ap local (counted strategy spec r0 c0 rows cols k))
                ∙ total,
          ),
    )
