-- ===== src/Sharding/Tests.antt =====
-- Slices of small sharded tensors.
use ml_tt_lang.Prelude.{
  ℕ, ◌%◌, ◌==◌, List, length, map, ◌+◌, ◌*◌, ◌≤◌, ◌≡◌, refl, false, none, some, [], ◌∷◌, arith,
}
use ml_tt_lang.Result.{ok}
use ml_tt_lang.Pipe.{steps}
use ml_tt_lang.Sharding.{
  ShardSpec, NdShardSpec, MemoryConfig, block_sharded, height_sharded, round_robin_1d, counter,
  count_height, count_nd_round_robin, count_local_remote_l1_dram,
}
use ml_tt_lang.Sharding.Cores.{sum_cores, one_if}
use ml_tt_lang.Sharding.Partition.{Partitions, Accounts, local, counter-Partitions}
use ml_tt_lang.Sharding.Config.{
  CoreGrid, height, block, slice_count, create_sharded_memory_config,
  create_sharded_memory_config-Partitions,
}
use ml_tt_lang.Sharding.Owner.{shard_of, InGrid, count_nd_round_robin-owner}
use ml_tt_lang.Block.{prod}
use ml_tt_lang.NodeContext.{split_coords}

-- Four cores with shards of 2 by 3 elements, and a slice of 3 by 4 of them from (1, 0) on.
abbrev blocks : ShardSpec
blocks = record { shard_grid = 2 ∷ 2 ∷ []; shard_shape = 2 ∷ 3 ∷ [] }

counter-Partitions_example :
    Partitions blocks
      (1 ∷ 0 ∷ [])
      (3 ∷ 4 ∷ [])
      3
      4
      4
      refl
      refl
      (λ k. counter block_sharded k blocks (1 ∷ 0 ∷ []) (3 ∷ 4 ∷ []))
counter-Partitions_example =
    counter-Partitions block_sharded blocks (1 ∷ 0 ∷ []) (3 ∷ 4 ∷ []) 3 4 4 refl refl (
      2,
      2,
      2,
      3,
      1,
      0,
      refl,
      refl,
      refl,
      refl,
      refl,
      refl,
      omega arith,
      omega arith,
      omega arith,
      omega arith,
    )

-- Six shards of 2 by 2 elements go round four cores.
abbrev rounds : NdShardSpec
rounds = record {
  shard_shape = 2 ∷ 2 ∷ [];
  shard_grid = some (3 ∷ 2 ∷ []);
  distribution = round_robin_1d;
  num_cores = some 4;
}

count_nd_round_robin-owner_example :
    ((origin shape : List ℕ)
      → 2 ≡ length shape
      → length origin ≡ length shape
      → ((k : ℕ) → Accounts (prod shape) (count_nd_round_robin k rounds (3 ∷ 2 ∷ []) origin shape))
        × (sum_cores 4 (λ k. local (count_nd_round_robin k rounds (3 ∷ 2 ∷ []) origin shape))
            ≡ prod shape))
    × ((pos : List ℕ)
        → InGrid (3 ∷ 2 ∷ []) (2 ∷ 2 ∷ []) pos
        → (n : ℕ) × (split_coords (3 ∷ 2 ∷ []) n ≡ (0, shard_of (2 ∷ 2 ∷ []) pos))
          × ((k : ℕ)
              → local (count_nd_round_robin k rounds (3 ∷ 2 ∷ []) pos (map (λ x. 1) pos))
                ≡ one_if (n % 4 == k)))
count_nd_round_robin-owner_example =
    count_nd_round_robin-owner rounds (3 ∷ 2 ∷ []) refl (omega arith, (omega arith, tt))
      (omega arith)

-- A tensor of rank 3, sharded by height, is counted without its first dimension.
abbrev by_height : MemoryConfig
by_height = record {
  strategy = height_sharded;
  shard_spec = some (record { shard_grid = 2 ∷ []; shard_shape = 4 ∷ 2 ∷ [] });
  nd_shard_spec = none;
}

rank_three : count_local_remote_l1_dram by_height (3 ∷ 4 ∷ 2 ∷ []) 0 none ≡ ok (8, 0, 0)
unfolding count_local_remote_l1_dram counter count_height steps
rank_three = refl

-- A tensor of 4 by 6 elements in blocks over 2 by 2 cores.
abbrev square : CoreGrid
square = record { y = 2; x = 2 }

create_sharded_memory_config-Partitions_example :
    (mc : MemoryConfig) × (create_sharded_memory_config (4 ∷ 6 ∷ []) square block false ≡ ok mc)
    × ((r0 c0 rows cols : ℕ)
        → r0 + rows ≤ 4
        → c0 + cols ≤ 6
        → ((k : ℕ) → Accounts (rows * cols) (slice_count mc r0 c0 rows cols k))
          × (sum_cores 4 (λ k. local (slice_count mc r0 c0 rows cols k)) ≡ rows * cols))
create_sharded_memory_config-Partitions_example =
    create_sharded_memory_config-Partitions block square 4 6 (omega arith) (omega arith)
      (refl, refl)

-- Three rows over two cores: each has one, and the third is in no core's memory.
abbrev column : CoreGrid
column = record { y = 2; x = 1 }

uneven :
    create_sharded_memory_config (3 ∷ 2 ∷ []) column height false
    ≡ ok (record {
      strategy = height_sharded;
      shard_spec = some (record { shard_grid = 2 ∷ []; shard_shape = 1 ∷ 2 ∷ [] });
      nd_shard_spec = none;
    })
unfolding create_sharded_memory_config
uneven = refl
