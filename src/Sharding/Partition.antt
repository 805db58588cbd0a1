-- ===== src/Sharding/Partition.antt =====
-- Each element of a tensor's slice is local to exactly one core.
use ml_tt_lang.Prelude.{
  ℕ, ◌+◌, ◌-◌, ◌*◌, ◌/◌, ◌%◌, ◌≤◌, ◌<◌, ◌≡◌, refl, sym, ap, ◌∙◌, Bool, ◌&&◌, some, List, [], ◌∷◌,
  length, ◌==◌, arith,
}
use mathlib.Core.Path.{subst}
use native.Mathlib.Nat.{div-lt_iff_lt-mul, add-mul, mul_comm}
use ml_tt_lang.Result.{Result, ok, err}
use ml_tt_lang.Pipe.{steps}
use ml_tt_lang.Sharding.{
  ShardingStrategy, interleaved, nd_sharded, height_sharded, width_sharded, block_sharded,
  ShardSpec, ShardError, last, second_last, count_if, in_shard, cells, in_block, count_height,
  count_width, count_block, counter,
}
use ml_tt_lang.Sharding.Cores.{
  sum_cores, sum_cores-mul, sum_cores-ext, in_shard-owner, pair-owner, pair-lt, length-steps,
  All-steps, All-cells, length-cells, Owned, count_if-partition,
}

-- The local part of a result.
abbrev pub local : Result ShardError (ℕ × ℕ × ℕ) → ℕ
local (err e) = 0
local (ok r) = r.0

-- A result that accounts for all elements, none of them in DRAM.
abbrev pub Accounts : ℕ → Result ShardError (ℕ × ℕ × ℕ) → Type 0
Accounts total (err e) = ⊥
Accounts total (ok (l, r, d)) = (l + r ≡ total) × (d ≡ 0)

-- The cores below `n` have shards that together hold the slice of `h` rows and `w` columns.
abbrev pub Holds : ShardingStrategy → ShardSpec → List ℕ → ℕ → ℕ → ℕ → Type 0
Holds height_sharded spec origin h w n =
    (sh : ℕ) × (r0 : ℕ) × (second_last spec.shard_shape ≡ some sh)
    × (second_last origin ≡ some r0)
    × (1 ≤ sh)
    × (r0 + h ≤ n * sh)
Holds width_sharded spec origin h w n =
    (sw : ℕ) × (c0 : ℕ) × (last spec.shard_shape ≡ some sw)
    × (last origin ≡ some c0)
    × (1 ≤ sw)
    × (c0 + w ≤ n * sw)
Holds block_sharded spec origin h w n =
    (rows : ℕ) × (cols : ℕ) × (sh : ℕ) × (sw : ℕ) × (r0 : ℕ) × (c0 : ℕ) × (n ≡ rows * cols)
    × (last spec.shard_grid ≡ some cols)
    × (second_last spec.shard_shape ≡ some sh)
    × (last spec.shard_shape ≡ some sw)
    × (second_last origin ≡ some r0)
    × (last origin ≡ some c0)
    × (1 ≤ sh)
    × (1 ≤ sw)
    × (r0 + h ≤ rows * sh)
    × (c0 + w ≤ cols * sw)
Holds _ spec origin h w n = ⊥

below : (size x m : ℕ) → 1 ≤ size → x < m * size → x / size < m
below size x m h lt = (div-lt_iff_lt-mul {k = size} {x = x} {y = m} (omega arith)).1 lt

-- The rows, or the columns, from `start` on are shared out among the cores.
line-partition :
    (size start len n : ℕ)
    → 1 ≤ size
    → start + len ≤ n * size
    → sum_cores n (λ k. count_if (in_shard size k) (steps len start 1)) ≡ len
line-partition size start len n h room =
    count_if-partition n (λ k x. in_shard size k x) (λ x. x / size) (steps len start 1)
      (All-steps (Owned n (λ k x. in_shard size k x) (λ x. x / size)) len start
        (λ x lo hi. (below size x n h (omega arith), λ k. in_shard-owner size k x h)))
    ∙ length-steps len start 1

cells-length : (r0 c0 h w : ℕ) → length (cells (steps h r0 1) (steps w c0 1)) ≡ h * w
cells-length r0 c0 h w =
    length-cells (steps h r0 1) (steps w c0 1)
    ∙ ap (λ z. z * length (steps w c0 1)) (length-steps h r0 1)
    ∙ ap (λ z. h * z) (length-steps w c0 1)

block-owner :
    (sh sw cols r c k : ℕ)
    → 1 ≤ sh
    → 1 ≤ sw
    → c / sw < cols
    → in_block sh sw (k / cols) (k % cols) (r, c) ≡ (r / sh * cols + c / sw == k)
block-owner sh sw cols r c k psh psw pc =
    ap (λ b. b && in_shard sw (k % cols) c) (in_shard-owner sh (k / cols) r psh)
    ∙ ap (λ b. (r / sh == k / cols) && b) (in_shard-owner sw (k % cols) c psw)
    ∙ pair-owner cols (r / sh) (c / sw) k pc

cells-partition :
    (sh sw r0 c0 h w rows cols : ℕ)
    → 1 ≤ sh
    → 1 ≤ sw
    → r0 + h ≤ rows * sh
    → c0 + w ≤ cols * sw
    → sum_cores
        (rows * cols)
        (λ k. count_if (in_block sh sw (k / cols) (k % cols)) (cells (steps h r0 1) (steps w c0 1)))
      ≡ h * w
cells-partition sh sw r0 c0 h w rows cols psh psw rooms roomc =
    let test = λ (k : ℕ) (x : ℕ × ℕ). in_block sh sw (k / cols) (k % cols) x in
    let owner = λ (x : ℕ × ℕ). x.0 / sh * cols + x.1 / sw in
    count_if-partition (rows * cols) test owner (cells (steps h r0 1) (steps w c0 1)) (
      All-cells (λ r. r / sh < rows) (λ c. c / sw < cols) (Owned (rows * cols) test owner)
        (λ r c pr pc.
          (pair-lt rows cols (r / sh) (c / sw) pr pc, λ k. block-owner sh sw cols r c k psh psw pc))
        (steps h r0 1) (steps w c0 1)
        (All-steps (λ r. r / sh < rows) h r0 (λ r lo hi. below sh r rows psh (omega arith)))
        (All-steps (λ c. c / sw < cols) w c0 (λ c lo hi. below sw c cols psw (omega arith))))
    ∙ cells-length r0 c0 h w

pub count_if-le : {A : Type 0} (test : A → Bool) (xs : List A) → count_if test xs ≤ length xs
count_if-le test [] = omega arith
count_if-le test (x ∷ xs) = ground (arith, count_if-le test xs)

line_count-le : (size k start len : ℕ) → count_if (in_shard size k) (steps len start 1) ≤ len
line_count-le size k start len =
    subst (λ z. count_if (in_shard size k) (steps len start 1) ≤ z) (length-steps len start 1)
      (count_if-le (in_shard size k) (steps len start 1))

rest-mul : (a h w : ℕ) → a ≤ h → a * w + (h - a) * w ≡ h * w
rest-mul a h w le =
    sym (add-mul a (h - a) w) ∙ ap (λ z. z * w) (let whole : a + (h - a) ≡ h = omega arith in whole)

module _ (spec : ShardSpec) (origin shape : List ℕ) (h w n : ℕ) (ew : last shape ≡ some w)
    (eh : second_last shape ≡ some h) where
  -- The counts of all cores: each accounts for the slice, and their local parts make it up.
  abbrev pub Partitions : (ℕ → Result ShardError (ℕ × ℕ × ℕ)) → Type 0
  Partitions count =
      ((k : ℕ) → Accounts (h * w) (count k)) × (sum_cores n (λ k. local (count k)) ≡ h * w)

  height-Partitions :
      Holds height_sharded spec origin h w n → Partitions (λ k. count_height k spec origin shape)
  unfolding count_height
  height-Partitions (sh, r0, es, eo, psh, room) =
      let rows = λ (k : ℕ). count_if (in_shard sh k) (steps h r0 1) in
      (
        λ k. rw (es, eo, eh, ew) (rest-mul (rows k) h w (line_count-le sh k r0 h), refl),
        sum_cores-ext n (λ k. local (count_height k spec origin shape)) (λ k. rows k * w)
              (λ k. rw (es, eo, eh, ew) refl)
            ∙ sum_cores-mul n rows w
            ∙ ap (λ z. z * w) (line-partition sh r0 h n psh room),
      )

  width-Partitions :
      Holds width_sharded spec origin h w n → Partitions (λ k. count_width k spec origin shape)
  unfolding count_width
  width-Partitions (sw, c0, es, eo, psw, room) =
      let cols = λ (k : ℕ). count_if (in_shard sw k) (steps w c0 1) in
      (
        λ k.
            rw (es, eo, eh, ew)
              (rest-mul (cols k) w h (line_count-le sw k c0 w) ∙ mul_comm w h, refl),
        sum_cores-ext n (λ k. local (count_width k spec origin shape)) (λ k. cols k * h)
              (λ k. rw (es, eo, eh, ew) refl)
            ∙ sum_cores-mul n cols h
            ∙ ap (λ z. z * h) (line-partition sw c0 w n psw room)
            ∙ mul_comm w h,
      )

  block-Partitions :
      Holds block_sharded spec origin h w n → Partitions (λ k. count_block k spec origin shape)
  unfolding count_block
  block-Partitions (rows, cols, sh, sw, r0, c0, en, eg, esh, esw, er, ec, psh, psw, rooms, roomc) =
      let all = cells (steps h r0 1) (steps w c0 1) in
      let here = λ (k : ℕ). count_if (in_block sh sw (k / cols) (k % cols)) all in
      let few = λ (k : ℕ).
        subst (λ z. here k ≤ z) (cells-length r0 c0 h w)
          (count_if-le (in_block sh sw (k / cols) (k % cols)) all) in
      (
        λ k.
            rw (eg, esh, esw, er, ec, eh, ew)
              (let le : here k ≤ h * w = few k in omega arith, refl),
        sum_cores-ext n (λ k. local (count_block k spec origin shape)) here
              (λ k. rw (eg, esh, esw, er, ec, eh, ew) refl)
            ∙ ap (λ z. sum_cores z here) en
            ∙ cells-partition sh sw r0 c0 h w rows cols psh psw rooms roomc,
      )

-- For a tensor that is sharded by height, by width or in blocks, and cores whose shards together hold
-- the slice: each core's counts, local and remote, add up to the elements of the last two dimensions,
-- with none in DRAM, and the local counts of all cores add up to them too, so that each element is local
-- to exactly one core.
pub counter-Partitions :
    (s : ShardingStrategy) (spec : ShardSpec) (origin shape : List ℕ) (h w n : ℕ)
    (ew : last shape ≡ some w) (eh : second_last shape ≡ some h)
    → Holds s spec origin h w n
    → Partitions spec origin shape h w n ew eh (λ k. counter s k spec origin shape)
unfolding counter
counter-Partitions height_sharded spec origin shape h w n ew eh c =
    height-Partitions spec origin shape h w n ew eh c
counter-Partitions width_sharded spec origin shape h w n ew eh c =
    width-Partitions spec origin shape h w n ew eh c
counter-Partitions block_sharded spec origin shape h w n ew eh c =
    block-Partitions spec origin shape h w n ew eh c
counter-Partitions interleaved spec origin shape h w n ew eh c = absurd c
counter-Partitions nd_sharded spec origin shape h w n ew eh c = absurd c
