-- ===== src/Sharding/Owner.antt =====
-- The owner of an element when shards go round the cores: the number of its shard in the grid of shards.
use ml_tt_lang.Prelude.{
  All, suc, le→leb, ℕ, ◌+◌, ◌*◌, ◌/◌, ◌%◌, ◌≤◌, ◌<◌, ◌≡◌, refl, sym, ap, ◌∙◌, List, [], ◌∷◌, map,
  length, ◌==◌, arith,
}
use native.Mathlib.Nat.{mul_assoc, add-mul}
use ml_tt_lang.Block.{prod}
use ml_tt_lang.NodeContext.{split_coords}
use ml_tt_lang.NodeContext.AllNodes.{row_of}
use ml_tt_lang.Pipe.{or_value, steps, prefix_each, cartesian_product}
use ml_tt_lang.Sharding.{NdShardSpec, element_ranges, shard_number, count_nd_round_robin}
use ml_tt_lang.Sharding.Cores.{sum_cores, one_if}
use ml_tt_lang.Sharding.Partition.{local, Accounts}
use ml_tt_lang.Sharding.Nd.{count_nd_round_robin-Accounts}

-- The coordinates of an element's shard.
abbrev pub shard_of : List ℕ → List ℕ → List ℕ
shard_of (s ∷ shard_shape) (x ∷ pos) = x / s ∷ shard_of shard_shape pos
shard_of _ _ = []

-- The element's shard is one of the grid's, and all have the same rank.
abbrev pub InGrid : List ℕ → List ℕ → List ℕ → Type 0
InGrid [] [] [] = Unit
InGrid (g ∷ grid) (s ∷ shard_shape) (x ∷ pos) = (x / s < g) × InGrid grid shard_shape pos
InGrid _ _ _ = ⊥

-- The number of a shard, split into coordinates, gives back the shard, with what stands in front of it.
split-shard_number :
    (grid shard_shape pos : List ℕ) (a : ℕ)
    → InGrid grid shard_shape pos
    → split_coords grid (a * prod grid + shard_number grid shard_shape pos)
      ≡ (a, shard_of shard_shape pos)
unfolding split_coords
split-shard_number [] [] [] a v = ap (λ z. (z, [])) (let same : a * 1 + 0 ≡ a = omega arith in same)
split-shard_number [] [] (x ∷ pos) a v = absurd v
split-shard_number [] (s ∷ shard_shape) pos a v = absurd v
split-shard_number (g ∷ grid) [] pos a v = absurd v
split-shard_number (g ∷ grid) (s ∷ shard_shape) [] a v = absurd v
split-shard_number (g ∷ grid) (s ∷ shard_shape) (x ∷ pos) a (inside, rest) =
    let q = x / s in
    let n = shard_number grid shard_shape pos in
    let front : a * (g * prod grid) ≡ a * g * prod grid = sym (mul_assoc a g (prod grid)) in
    let both = add-mul (a * g) q (prod grid) in
    let number : a * (g * prod grid) + (q * prod grid + n) ≡ (a * g + q) * prod grid + n =
      omega arith in
    let (quotient, remainder) = row_of a g q inside in
    ap (λ (z : ℕ × List ℕ). (z.0 / g, z.0 % g ∷ z.1))
      (ap (split_coords grid) number ∙ split-shard_number grid shard_shape pos (a * g + q) rest)
    ∙ ap (λ z. (z, (a * g + q) % g ∷ shard_of shard_shape pos)) quotient
    ∙ ap (λ z. (a, z ∷ shard_of shard_shape pos)) remainder

one_position :
    (grid shard_shape pos : List ℕ)
    → InGrid grid shard_shape pos
    → cartesian_product (element_ranges grid pos (map (λ x. 1) pos)) ≡ pos ∷ []
unfolding cartesian_product prefix_each steps
one_position [] [] [] v = refl
one_position [] [] (x ∷ pos) v = absurd v
one_position [] (s ∷ shard_shape) pos v = absurd v
one_position (g ∷ grid) [] pos v = absurd v
one_position (g ∷ grid) (s ∷ shard_shape) [] v = absurd v
one_position (g ∷ grid) (s ∷ shard_shape) (x ∷ pos) (_, v) =
    rw (one_position grid shard_shape pos v) refl

InGrid-length :
    (grid shard_shape pos : List ℕ)
    → InGrid grid shard_shape pos
    → (length shard_shape ≡ length grid) × (length pos ≡ length grid)
InGrid-length [] [] [] v = (refl, refl)
InGrid-length [] [] (x ∷ pos) v = absurd v
InGrid-length [] (s ∷ shard_shape) pos v = absurd v
InGrid-length (g ∷ grid) [] pos v = absurd v
InGrid-length (g ∷ grid) (s ∷ shard_shape) [] v = absurd v
InGrid-length (g ∷ grid) (s ∷ shard_shape) (x ∷ pos) (_, v) =
    let (a, b) = InGrid-length grid shard_shape pos v in (ap suc a, ap suc b)

length-ones : (pos : List ℕ) → length (map (λ x. let one : ℕ = 1 in one) pos) ≡ length pos
length-ones [] = refl
length-ones (x ∷ pos) = ap suc (length-ones pos)

-- The counts for a slice of one element.
one_element :
    (k : ℕ) (spec : NdShardSpec) (grid pos : List ℕ)
    → InGrid grid spec.shard_shape pos
    → 1 ≤ or_value (prod grid) spec.num_cores
    → local (count_nd_round_robin k spec grid pos (map (λ x. 1) pos))
      ≡ one_if (shard_number grid spec.shard_shape pos % or_value (prod grid) spec.num_cores == k)
unfolding count_nd_round_robin
one_element k spec grid pos v some_core =
    let (es, ep) = InGrid-length grid spec.shard_shape pos v in
    rw
      (
        le→leb 1 (or_value (prod grid) spec.num_cores) some_core,
        le→leb (length grid) (length spec.shard_shape) (omega arith),
        le→leb (length grid) (length pos) (omega arith),
        le→leb (length grid) (length (map (λ x. let one : ℕ = 1 in one) pos))
            (omega (arith, length-ones pos)),
        one_position grid spec.shard_shape pos v,
      )
      (omega arith)

-- For a tensor whose shards, of positive dimensions, go round at least one core, in a grid of the
-- tensor's own rank: each core's counts, local and remote, add up to the elements of the slice,
-- with none in DRAM, and the local counts of all cores add up to them too, wherever the slice lies.
-- And an element of a shard within the grid is local to the core whose number is that of the shard,
-- in row-major order, modulo the number of cores, and to no other.
pub count_nd_round_robin-owner :
    (spec : NdShardSpec) (grid : List ℕ)
    → length spec.shard_shape ≡ length grid
    → All (λ s. 1 ≤ s) spec.shard_shape
    → 1 ≤ or_value (prod grid) spec.num_cores
    → ((origin shape : List ℕ)
        → length grid ≡ length shape
        → length origin ≡ length shape
        → ((k : ℕ) → Accounts (prod shape) (count_nd_round_robin k spec grid origin shape))
          × (sum_cores
                (or_value (prod grid) spec.num_cores)
                (λ k. local (count_nd_round_robin k spec grid origin shape))
              ≡ prod shape))
      × ((pos : List ℕ)
          → InGrid grid spec.shard_shape pos
          → (n : ℕ) × (split_coords grid n ≡ (0, shard_of spec.shard_shape pos))
            × ((k : ℕ)
                → local (count_nd_round_robin k spec grid pos (map (λ x. 1) pos))
                  ≡ one_if (n % or_value (prod grid) spec.num_cores == k)))
count_nd_round_robin-owner spec grid rank _ some_core = (
  λ origin shape eg eo.
      count_nd_round_robin-Accounts spec grid origin shape eg eo (rank ∙ eg) some_core,
  λ pos v.
      let n = shard_number grid spec.shard_shape pos in
      let plain : n ≡ 0 * prod grid + n = omega arith in
      (
        n,
        ap (split_coords grid) plain ∙ split-shard_number grid spec.shard_shape pos 0 v,
        λ k. one_element k spec grid pos v some_core,
      ),
)
