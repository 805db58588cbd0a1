-- ===== src/Matmul/Tests.antt =====
-- Parameters for small matrices, with the factorization of their dimensions written out.
use ml_tt_lang.Prelude.{
  ℕ, sym, ==_iff, ◌≡◌, ◌≤◌, refl, List, [], ◌∷◌, ◌==◌, All, Bool-cases, inl, inr, if◌then◌else◌,
  arith,
}
use ml_tt_lang.Matmul.{
  extend, get_large_matmul_params, least_block, block_choices, get_prime_factors,
  get_possible_products, get_maximum_block_dim, find_subblock, maximize, last_fitting, place,
  try_columns,
}
use ml_tt_lang.Matmul.Params.{Suits}
use ml_tt_lang.Matmul.Whole.{Whole, get_large_matmul_params-covers}
use ml_tt_lang.Block.{prod}

abbrev factors : ℕ → List (ℕ × ℕ)
factors n = if n == 14 then (2, 1) ∷ (7, 1) ∷ [] else if n == 8 then (2, 3) ∷ [] else (n, 1) ∷ []

factors_positive : (n : ℕ) → 1 ≤ n → All (λ (f : ℕ × ℕ). 1 ≤ f.0) (factors n)
factors_positive n pos = elim (Bool-cases (n == 14)) [
  | inl e ↦ rw (factors, e) (omega arith, (omega arith, tt))
  | inr ne ↦ elim (Bool-cases (n == 8)) [
    | inl e ↦ rw (factors, ne, e) (omega arith, tt)
    | inr other ↦ rw (factors, ne, other) (omega arith, tt)
  ]
]

factors_product : (n : ℕ) → 1 ≤ n → prod (extend (factors n)) ≡ n
factors_product n pos = elim (Bool-cases (n == 14)) [
  | inl e ↦ rw (factors, e) (sym ((==_iff n 14).0 e))
  | inr ne ↦ elim (Bool-cases (n == 8)) [
    | inl e ↦ rw (factors, ne, e) (sym ((==_iff n 8).0 e))
    | inr other ↦ rw (factors, ne, other) (omega arith)
  ]
]

get_large_matmul_params-covers_example :
    Suits factors factors_positive 14 8 4 4 2 (get_large_matmul_params factors 14 8 4 4 2)
    × Whole 14 8 (get_large_matmul_params factors 14 8 4 4 2)
get_large_matmul_params-covers_example =
    get_large_matmul_params-covers factors factors_positive factors_product 14 8 4 4 2 (omega arith)
      (omega arith)

-- Seven rows for each node, since 7 exceeds the four nodes.
large_factor :
    get_large_matmul_params factors 14 8 4 4 2
    ≡ record { block_h = 7; block_w = 8; subblock_h = 1; subblock_w = 8 }
unfolding get_large_matmul_params get_maximum_block_dim least_block get_prime_factors maximize
    block_choices get_possible_products place find_subblock
large_factor = refl

-- Case 3 keeps the rows of the round before where no rows fit: 504 tiles of memory are taken.
abbrev twos : ℕ → List (ℕ × ℕ)
twos n = if n == 2 then (2, 1) ∷ [] else (2, 3) ∷ []

stale_rows :
    get_large_matmul_params twos 2 8 2 2 50
    ≡ record { block_h = 1; block_w = 4; subblock_h = 1; subblock_w = 4 }
unfolding get_large_matmul_params get_maximum_block_dim least_block get_prime_factors try_columns
    block_choices get_possible_products last_fitting find_subblock
stale_rows = refl
