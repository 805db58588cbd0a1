-- ===== src/Matmul.antt =====
-- python/utils/block_allocation.py, the parameters of a matrix multiplication:
-- `get_prime_factors_with_multiplicity`, `get_possible_products`, `get_maximum_block_dim` and
-- `get_large_matmul_params`. The factorization, `factorint` of the package sympy, is a parameter: the
-- primes of a number with their counts.
mod Positive
pub mod Params
pub mod Whole
mod Tests
use ml_tt_lang.Prelude.{
  ℕ, zero, suc, ◌+◌, ◌-◌, ◌*◌, ◌/◌, ◌%◌, Bool, true, false, ◌&&◌, Option, none, some, List, [], ◌∷◌,
  ◌++◌, map, ltb, leb, ◌==◌, replicate, if◌then◌else◌,
}
use ml_tt_lang.Block.{prod, member}

pub record MatmulParams : Type 0 where
  pub block_h : ℕ
  pub block_w : ℕ
  pub subblock_h : ℕ
  pub subblock_w : ℕ

abbrev pub no_params : MatmulParams
no_params = record { block_h = 0; block_w = 0; subblock_h = 0; subblock_w = 0 }

-- `sorted`
abbrev pub insert : ℕ → List ℕ → List ℕ
insert n [] = n ∷ []
insert n (x ∷ xs) = let rest = insert n xs in if leb n x then n ∷ x ∷ xs else x ∷ rest

unfoldable pub sorted : List ℕ → List ℕ
sorted [] = []
sorted (x ∷ xs) = insert x (sorted xs)

abbrev pub extend : List (ℕ × ℕ) → List ℕ
extend [] = []
extend ((prime, count) ∷ factors) = replicate count prime ++ extend factors

-- `get_prime_factors_with_multiplicity`, of what `factorint` returned.
unfoldable pub get_prime_factors : List (ℕ × ℕ) → List ℕ
unfolding sorted
get_prime_factors factors = sorted (extend factors)

-- `set.update`
abbrev pub update : List ℕ → List ℕ → List ℕ
update [] s = s
update (n ∷ new) s = update new (if member n s then s else n ∷ s)

abbrev pub products_from : List ℕ → List ℕ → List ℕ
products_from [] s = s
products_from (p ∷ factors) s = products_from factors (update (map (λ q. q * p) s) s)

unfoldable pub get_possible_products : List ℕ → List ℕ
unfolding sorted
get_possible_products factors = sorted (products_from factors (1 ∷ []))

-- A negative quotient gives 0, as the difference that stops at 0 does.
unfoldable pub get_maximum_block_dim : ℕ → ℕ → ℕ
get_maximum_block_dim block_dim in0_block_w =
    (400 - 2 * in0_block_w * block_dim) / (2 * in0_block_w + block_dim)

-- `SUBBLOCK_HW_CHOICES`
abbrev pub subblock_hw_choices : List (ℕ × ℕ)
subblock_hw_choices =
    (4, 2)
    ∷ (2, 4)
    ∷ (8, 1)
    ∷ (1, 8)
    ∷ (7, 1)
    ∷ (1, 7)
    ∷ (3, 2)
    ∷ (2, 3)
    ∷ (6, 1)
    ∷ (1, 6)
    ∷ (5, 1)
    ∷ (1, 5)
    ∷ (2, 2)
    ∷ (4, 1)
    ∷ (1, 4)
    ∷ (3, 1)
    ∷ (1, 3)
    ∷ (2, 1)
    ∷ (1, 2)
    ∷ (1, 1)
    ∷ []

-- The loop over the choices, which returns at the first that divides.
unfoldable pub find_subblock : ℕ → ℕ → List (ℕ × ℕ) → Option MatmulParams
find_subblock mpc npc [] = none
find_subblock mpc npc ((h, w) ∷ choices) =
    let rest = find_subblock mpc npc choices in
    if mpc % h == 0 && npc % w == 0
    then some (record { block_h = mpc; block_w = npc; subblock_h = h; subblock_w = w })
    else rest

-- The factors that are handled per node, and those that are left.
abbrev pub larger : ℕ → List ℕ → List ℕ
larger n [] = []
larger n (f ∷ fs) = if ltb n f then f ∷ larger n fs else larger n fs

abbrev pub smaller : ℕ → List ℕ → List ℕ
smaller n [] = []
smaller n (f ∷ fs) = if leb f n then f ∷ smaller n fs else smaller n fs

-- The loop that maximizes a block's dimension, until a choice is too large.
unfoldable pub maximize : ℕ → ℕ → List ℕ → ℕ → ℕ
maximize least most [] current = current
maximize least most (e ∷ es) current =
    let rest = maximize least most es (e * least) in if leb (e * least) most then rest else current

-- The loop of case 3 over the rows, which does not stop.
unfoldable pub last_fitting : ℕ → List ℕ → ℕ → ℕ
last_fitting most [] current = current
last_fitting most (e ∷ es) current = last_fitting most es (if leb e most then e else current)

abbrev pub fits_grid : ℕ → ℕ → ℕ → ℕ → ℕ → ℕ → Bool
fits_grid mt nt num_nodes_y num_nodes_x mpc npc =
    leb (mt / mpc) num_nodes_y && leb (nt / npc) num_nodes_x

abbrev pub or_none : Option MatmulParams → MatmulParams
or_none none = no_params
or_none (some p) = p

-- The end of cases 1 and 2.
unfoldable pub place : ℕ → ℕ → ℕ → ℕ → ℕ → ℕ → MatmulParams
place mt nt num_nodes_y num_nodes_x mpc npc =
    if fits_grid mt nt num_nodes_y num_nodes_x mpc npc
    then or_none (find_subblock mpc npc subblock_hw_choices)
    else no_params

-- Case 3: the loop over the columns, which hands on the rows of the last round.
unfoldable pub try_columns : ℕ → ℕ → ℕ → ℕ → ℕ → List ℕ → List ℕ → ℕ → MatmulParams
try_columns mt nt num_nodes_y num_nodes_x in0_block_w mpc_choices [] mpc = no_params
try_columns mt nt num_nodes_y num_nodes_x in0_block_w mpc_choices (npc ∷ npc_choices) mpc =
    let mpc' = last_fitting (get_maximum_block_dim npc in0_block_w) mpc_choices mpc in
    let rest = try_columns mt nt num_nodes_y num_nodes_x in0_block_w mpc_choices npc_choices mpc' in
    if fits_grid mt nt num_nodes_y num_nodes_x mpc' npc
    then elim (find_subblock mpc' npc subblock_hw_choices) [ none ↦ rest | some p ↦ p ]
    else rest

module _ (factorint : ℕ → List (ℕ × ℕ)) where
  -- `Mpc_min` and `Npc_min`
  unfoldable pub least_block : ℕ → ℕ → ℕ
  least_block n num_nodes = prod (larger num_nodes (get_prime_factors (factorint n)))

  unfoldable pub block_choices : ℕ → ℕ → List ℕ
  block_choices n num_nodes =
      get_possible_products (smaller num_nodes (get_prime_factors (factorint n)))

  unfoldable pub get_large_matmul_params : ℕ → ℕ → ℕ → ℕ → ℕ → MatmulParams
  get_large_matmul_params mt nt num_nodes_y num_nodes_x in0_block_w =
      let npc_min = least_block nt num_nodes_x in
      let mpc_min = least_block mt num_nodes_y in
      let npc_max = get_maximum_block_dim mpc_min in0_block_w in
      let mpc_max = get_maximum_block_dim npc_min in0_block_w in
      if ltb npc_max npc_min
      then no_params
      else if ltb 1 mpc_min
      then place mt nt num_nodes_y num_nodes_x mpc_min
          (maximize npc_min npc_max (block_choices nt num_nodes_x) npc_min)
      else if ltb 1 npc_min
      then place mt nt num_nodes_y num_nodes_x
          (maximize mpc_min mpc_max (block_choices mt num_nodes_y) mpc_min) npc_min
      else try_columns mt nt num_nodes_y num_nodes_x in0_block_w (block_choices mt num_nodes_y)
          (block_choices nt num_nodes_x) mpc_min
