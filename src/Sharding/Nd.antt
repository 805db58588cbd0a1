-- ===== src/Sharding/Nd.antt =====
-- Shards of any rank that go round the cores.
use native.Mathlib.Nat.{mod-lt}
use mathlib.Core.Path.{subst}
use ml_tt_lang.Prelude.{
  ℕ, suc, ◌*◌, ◌%◌, ◌≤◌, ◌≡◌, refl, ap, ◌∙◌, List, [], ◌∷◌, map, length, length-append, le→leb,
  ◌==◌, All, arith,
}
use ml_tt_lang.Result.{ok}
use ml_tt_lang.Block.{prod}
use ml_tt_lang.Pipe.{or_value, steps, prefix_each, cartesian_product}
use ml_tt_lang.Sharding.{
  NdShardSpec, count_if, element_ranges, shard_number, check_rank, count_nd_round_robin,
}
use ml_tt_lang.Sharding.Cores.{sum_cores, sum_cores-ext, length-steps, Owned, count_if-partition}
use ml_tt_lang.Sharding.Partition.{local, Accounts, count_if-le}

length-prefix : (v : ℕ) (xs : List (List ℕ)) → length {A = List ℕ} (map (λ r. v ∷ r) xs) ≡ length xs
length-prefix v [] = refl
length-prefix v (x ∷ xs) = ap suc (length-prefix v xs)

length-prefix_each :
    (vs : List ℕ) (xs : List (List ℕ)) → length (prefix_each vs xs) ≡ length vs * length xs
unfolding prefix_each
length-prefix_each [] xs = omega arith
length-prefix_each (v ∷ vs) xs = omega (
  arith,
  length-append {A = List ℕ} (map (λ r. v ∷ r) xs) (prefix_each vs xs),
  length-prefix v xs,
  length-prefix_each vs xs,
)

-- A slice has as many positions as its shape says.
pub length-positions :
    (grid origin shape : List ℕ)
    → length grid ≡ length shape
    → length origin ≡ length shape
    → length (cartesian_product (element_ranges grid origin shape)) ≡ prod shape
unfolding cartesian_product
length-positions [] [] [] e o = refl
length-positions [] (x ∷ origin) [] e o = refl
length-positions [] origin (n ∷ shape) e o = absurd (omega arith)
length-positions (g ∷ grid) origin [] e o = absurd (omega arith)
length-positions (g ∷ grid) [] (n ∷ shape) e o = absurd (omega arith)
length-positions (g ∷ grid) (x ∷ origin) (n ∷ shape) e o =
    let rest = cartesian_product (element_ranges grid origin shape) in
    length-prefix_each (steps n x 1) rest
    ∙ ap (λ z. z * length rest) (length-steps n x 1)
    ∙ ap (λ z. n * z) (length-positions grid origin shape (omega arith) (omega arith))

All-every : {A : Type 0} (P : A → Type 0) (xs : List A) → ((x : A) → P x) → All P xs
All-every P [] h = tt
All-every P (x ∷ xs) h = (h x, All-every P xs h)

-- For a tensor whose shards go round at least one core, in a grid of the tensor's own rank: each core's
-- counts, local and remote, add up to the elements of the slice, with none in DRAM, and the local counts
-- of all cores add up to them too, wherever the slice lies.
pub count_nd_round_robin-Accounts :
    (spec : NdShardSpec) (grid origin shape : List ℕ)
    → length grid ≡ length shape
    → length origin ≡ length shape
    → length spec.shard_shape ≡ length shape
    → 1 ≤ or_value (prod grid) spec.num_cores
    → ((k : ℕ) → Accounts (prod shape) (count_nd_round_robin k spec grid origin shape))
      × (sum_cores
            (or_value (prod grid) spec.num_cores)
            (λ k. local (count_nd_round_robin k spec grid origin shape))
          ≡ prod shape)
unfolding count_nd_round_robin
count_nd_round_robin-Accounts spec grid origin shape eg eo es some_core =
    let cores = or_value (prod grid) spec.num_cores in
    let positions = cartesian_product (element_ranges grid origin shape) in
    let owner = λ (pos : List ℕ). shard_number grid spec.shard_shape pos % cores in
    let here = λ (k : ℕ). count_if (λ pos. owner pos == k) positions in
    let size = length-positions grid origin shape eg eo in
    let ranked : check_rank grid spec.shard_shape origin shape ≡ ok tt =
      rw
        (
          le→leb (length grid) (length spec.shard_shape) (omega arith),
          le→leb (length grid) (length origin) (omega arith),
          le→leb (length grid) (length shape) (omega arith),
        )
        refl in
    let first = le→leb 1 cores some_core in
    (
      λ k.
          rw (first, ranked)
            (
              let le : here k ≤ prod shape =
                    subst (λ z. here k ≤ z) size (count_if-le (λ pos. owner pos == k) positions) in
                  omega arith,
              refl,
            ),
      sum_cores-ext cores (λ k. local (count_nd_round_robin k spec grid origin shape)) here
            (λ k. rw (first, ranked) refl)
          ∙ count_if-partition cores (λ k pos. owner pos == k) owner positions
              (All-every (Owned cores (λ k pos. owner pos == k) owner) positions
                (λ pos. (mod-lt (shard_number grid spec.shard_shape pos) (omega arith), λ k. refl)))
          ∙ size,
    )
