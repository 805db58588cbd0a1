-- ===== src/Matmul/Params.antt =====
-- The blocks that are chosen for a matrix multiplication suit the grid, the subblocks and the memory.
use native.Mathlib.Nat.{le-div_iff_mul-le, mul_comm, add-mul}
use mathlib.Core.Path.{subst}
use ml_tt_lang.Prelude.{
  ℕ, ◌+◌, ◌-◌, ◌*◌, ◌/◌, ◌%◌, ◌≤◌, ◌<◌, ◌≡◌, ◌⊎◌, inl, inr, refl, sym, ap, ◌∙◌, Bool, true, ◌&&◌,
  Option, some, List, [], ◌∷◌, ltb, leb, ltb→ge, leb→le, ◌==◌, All, Bool-cases, Option-cases, arith,
}
use ml_tt_lang.Matmul.Positive.{
  mul-pos, Positive, sorted-Positive, extend-Positive, larger-Positive, smaller-Positive,
  products-Positive,
}
use ml_tt_lang.Matmul.{
  MatmulParams, no_params, extend, get_prime_factors, products_from, get_possible_products,
  get_maximum_block_dim, subblock_hw_choices, find_subblock, smaller, maximize, last_fitting,
  fits_grid, place, try_columns, least_block, block_choices, get_large_matmul_params,
}

-- The whole blocks that the matrix has in a dimension are no more than the grid's nodes there, and
-- a subblock of at most eight tiles divides the block.
pub record Fits (mt nt num_nodes_y num_nodes_x : ℕ) (p : MatmulParams) : Type 0 where
  pub rows : mt / p.block_h ≤ num_nodes_y
  pub cols : nt / p.block_w ≤ num_nodes_x
  pub divides_h : p.block_h % p.subblock_h ≡ 0
  pub divides_w : p.block_w % p.subblock_w ≡ 0
  pub tiles : (1 ≤ p.subblock_h * p.subblock_w) × (p.subblock_h * p.subblock_w ≤ 8)

abbrev small : ℕ × ℕ → Bool
small (h, w) = leb 1 (h * w) && leb (h * w) 8

abbrev all_small : List (ℕ × ℕ) → Bool
all_small [] = true
all_small (c ∷ cs) = small c && all_small cs

-- The parameters that a search for a subblock finds.
abbrev pub Found : ℕ → ℕ → MatmulParams → Type 0
Found mpc npc p =
    (p.block_h ≡ mpc)
    × (p.block_w ≡ npc)
    × (mpc % p.subblock_h ≡ 0)
    × (npc % p.subblock_w ≡ 0)
    × (1 ≤ p.subblock_h * p.subblock_w)
    × (p.subblock_h * p.subblock_w ≤ 8)

some-eq : {p q : MatmulParams} → ◌≡◌ {A = Option MatmulParams} (some p) (some q) → p ≡ q
some-eq e = cc e

pub find_subblock-Found :
    (mpc npc : ℕ) (choices : List (ℕ × ℕ)) {p : MatmulParams}
    → all_small choices ≡ true
    → find_subblock mpc npc choices ≡ some p
    → Found mpc npc p
unfolding find_subblock
find_subblock-Found mpc npc [] s e = cc e
find_subblock-Found mpc npc ((h, w) ∷ choices) {p} s e =
    elim (Bool-cases (mpc % h == 0 && npc % w == 0)) [
      | inr other ↦
          find_subblock-Found mpc npc choices (ground arith) (rw (find_subblock, other) at e)
      | inl divides ↦
          subst (Found mpc npc) (some-eq (rw (find_subblock, divides) at e))
            (refl, refl, ground arith, ground arith, ground arith, ground arith)
    ]

Found-Fits :
    (mt nt y x mpc npc : ℕ) {p : MatmulParams}
    → fits_grid mt nt y x mpc npc ≡ true
    → Found mpc npc p
    → Fits mt nt y x p
Found-Fits mt nt y x mpc npc {p} fits (eh, ew, dh, dw, lo, hi) =
    let rows : mt / mpc ≤ y = ground arith in
    let cols : nt / npc ≤ x = ground arith in
    record {
      rows = subst (λ z. mt / z ≤ y) (sym eh) rows;
      cols = subst (λ z. nt / z ≤ x) (sym ew) cols;
      divides_h = ap (λ z. z % p.subblock_h) eh ∙ dh;
      divides_w = ap (λ z. z % p.subblock_w) ew ∙ dw;
      tiles = (lo, hi);
    }

-- The parameters are none, or suit the grid with the given blocks.
abbrev pub Placed : ℕ → ℕ → ℕ → ℕ → ℕ → ℕ → MatmulParams → Type 0
Placed mt nt y x mpc npc p =
    (p ≡ no_params) ⊎ (Fits mt nt y x p × (p.block_h ≡ mpc) × (p.block_w ≡ npc))

pub place-Placed : (mt nt y x mpc npc : ℕ) → Placed mt nt y x mpc npc (place mt nt y x mpc npc)
unfolding place
place-Placed mt nt y x mpc npc = elim (Bool-cases (fits_grid mt nt y x mpc npc)) [
  | inr unfit ↦ inl (rw (place, unfit) refl)
  | inl fits ↦ elim (Option-cases (find_subblock mpc npc subblock_hw_choices)) [
    | inl missing ↦ inl (rw (place, fits, missing) refl)
    | inr (p, e) ↦
        let found = find_subblock-Found mpc npc subblock_hw_choices refl e in
        let result : place mt nt y x mpc npc ≡ p = rw (place, fits, e) refl in
        subst (Placed mt nt y x mpc npc) (sym result)
          (inr (Found-Fits mt nt y x mpc npc fits found, found.0, found.1))
  ]
]

abbrev SomeFit : ℕ → ℕ → ℕ → ℕ → MatmulParams → Type 0
SomeFit mt nt y x p = (p ≡ no_params) ⊎ Fits mt nt y x p

try_columns-SomeFit :
    (mt nt y x k : ℕ) (rows cols : List ℕ) (mpc : ℕ)
    → SomeFit mt nt y x (try_columns mt nt y x k rows cols mpc)
unfolding try_columns
try_columns-SomeFit mt nt y x k rows [] mpc = inl refl
try_columns-SomeFit mt nt y x k rows (npc ∷ cols) mpc =
    let mpc' = last_fitting (get_maximum_block_dim npc k) rows mpc in
    let later = try_columns-SomeFit mt nt y x k rows cols mpc' in
    elim (Bool-cases (fits_grid mt nt y x mpc' npc)) [
      | inr unfit ↦ rw (try_columns, unfit) later
      | inl fits ↦ elim (Option-cases (find_subblock mpc' npc subblock_hw_choices)) [
        | inl missing ↦ rw (try_columns, fits, missing) later
        | inr (p, e) ↦
            let result : try_columns mt nt y x k rows (npc ∷ cols) mpc ≡ p =
              rw (try_columns, fits, e) refl in
            subst (SomeFit mt nt y x) (sym result) (
              inr (
                Found-Fits mt nt y x mpc' npc fits
                  (find_subblock-Found mpc' npc subblock_hw_choices refl e)))
      ]
    ]

-- The double-buffered blocks of the operands and the block of the result, in tiles.
abbrev pub Budget : ℕ → ℕ → ℕ → Type 0
Budget k h w = 2 * k * h + 2 * k * w + h * w ≤ 400

Budget-swap : (k h w : ℕ) → Budget k h w → Budget k w h
Budget-swap k h w b = let same = mul_comm h w in omega arith

get_maximum_block_dim-Budget :
    (k b o : ℕ) → 1 ≤ b → 1 ≤ o → o ≤ get_maximum_block_dim b k → Budget k b o
unfolding get_maximum_block_dim
get_maximum_block_dim-Budget k b o hb ho h =
    let room =
      (le-div_iff_mul-le {k = 2 * k + b} {x = o} {y = 400 - 2 * k * b} (omega arith)).0 h in
    let whole : o * (2 * k + b) ≡ 2 * k * o + b * o =
      mul_comm o (2 * k + b) ∙ add-mul (2 * k) b o in
    let positive = mul-pos b o hb ho in omega arith

-- The maximized dimension is the one it began with, or within the limit; and it is positive.
maximize-le :
    (least most : ℕ) (es : List ℕ) (current : ℕ)
    → 1 ≤ least
    → 1 ≤ current
    → Positive es
    → (1 ≤ maximize least most es current)
      × ((maximize least most es current ≡ current) ⊎ (maximize least most es current ≤ most))
unfolding maximize
maximize-le least most [] current h hc w = (hc, inl refl)
maximize-le least most (e ∷ es) current h hc (he, w) = elim (Bool-cases (leb (e * least) most)) [
  | inr stop ↦ rw (maximize, stop) (hc, inl refl)
  | inl go ↦
      let (some_left, kind) = maximize-le least most es (e * least) h (mul-pos e least he h) w in
      let within : maximize least most es (e * least) ≤ most = elim kind [
        | inl same ↦ subst (λ z. z ≤ most) (sym same) (leb→le (e * least) most go)
        | inr le ↦ le
      ] in
      rw (maximize, go) (some_left, inr within)
]

module _ (factorint : ℕ → List (ℕ × ℕ))
    (primes : (n : ℕ) → 1 ≤ n → All (λ (f : ℕ × ℕ). 1 ≤ f.0) (factorint n)) where
  factors-Positive : (n : ℕ) → 1 ≤ n → Positive (get_prime_factors (factorint n))
  unfolding get_prime_factors
  factors-Positive n pos =
      sorted-Positive (extend (factorint n)) (extend-Positive (factorint n) (primes n pos))

  least_block-pos : (n nodes : ℕ) → 1 ≤ n → 1 ≤ least_block factorint n nodes
  unfolding least_block
  least_block-pos n nodes pos =
      larger-Positive nodes (get_prime_factors (factorint n)) (factors-Positive n pos)

  block_choices-Positive : (n nodes : ℕ) → 1 ≤ n → Positive (block_choices factorint n nodes)
  unfolding block_choices get_possible_products
  block_choices-Positive n nodes pos =
      let few = smaller nodes (get_prime_factors (factorint n)) in
      sorted-Positive (products_from few (1 ∷ [])) (
        products-Positive few (1 ∷ [])
          (smaller-Positive nodes (get_prime_factors (factorint n)) (factors-Positive n pos))
          (omega arith, tt))

  -- The parameters are none, or suit the grid, and the memory if a dimension has a factor that exceeds the
  -- nodes.
  abbrev pub Suits : ℕ → ℕ → ℕ → ℕ → ℕ → MatmulParams → Type 0
  Suits mt nt y x k p =
      (p ≡ no_params)
      ⊎ (Fits mt nt y x p
          × ((1 < least_block factorint mt y) ⊎ (1 < least_block factorint nt x)
              → Budget k p.block_h p.block_w))

  Placed-Suits :
      (mt nt y x k mpc npc : ℕ) {p : MatmulParams}
      → Placed mt nt y x mpc npc p
      → Budget k mpc npc
      → Suits mt nt y x k p
  Placed-Suits mt nt y x k mpc npc (inl none_found) b = inl none_found
  Placed-Suits mt nt y x k mpc npc {p} (inr (fits, eh, ew)) b =
      inr (
        fits,
        λ large. subst (λ z. Budget k z p.block_w) (sym eh) (subst (Budget k mpc) (sym ew) b),
      )

  rows_first :
      (k m n most : ℕ) (es : List ℕ)
      → 1 ≤ m
      → 1 ≤ n
      → most ≡ get_maximum_block_dim m k
      → Positive es
      → Budget k m n
      → Budget k m (maximize n most es n)
  rows_first k m n most es hm hn limit w base =
      let r = maximize n most es n in
      let (some_left, kind) = maximize-le n most es n hn hn w in
      elim kind [
        | inl same ↦ subst (Budget k m) (sym same) base
        | inr le ↦ get_maximum_block_dim-Budget k m r hm some_left (subst (λ z. r ≤ z) limit le)
      ]

  -- For positive dimensions, and where `factorint` gives positive factors, the parameters are those of no configuration, or
  -- else: the matrix's dimension divided by the block's, rounded down, is at most the grid's nodes
  -- of it, for rows and for columns; the subblock divides the block and has from one to eight
  -- tiles; and if a prime factor of a dimension exceeds the nodes of it, the double-buffered blocks
  -- fit in the 400 tiles of memory.
  pub get_large_matmul_params-Suits :
      (mt nt y x k : ℕ)
      → 1 ≤ mt
      → 1 ≤ nt
      → Suits mt nt y x k (get_large_matmul_params factorint mt nt y x k)
  unfolding get_large_matmul_params
  get_large_matmul_params-Suits mt nt y x k pm pn =
      let m = least_block factorint mt y in
      let n = least_block factorint nt x in
      let hm = least_block-pos mt y pm in
      let hn = least_block-pos nt x pn in
      let n_max = get_maximum_block_dim m k in
      let m_max = get_maximum_block_dim n k in
      elim (Bool-cases (ltb n_max n)) [
        | inl too_large ↦ inl (rw (get_large_matmul_params, too_large) refl)
        | inr room ↦
            let base = get_maximum_block_dim-Budget k m n hm hn (ltb→ge n_max n room) in
            elim (Bool-cases (ltb 1 m)) [
              | inl large_m ↦
                  let choices = block_choices factorint nt x in
                  let r = maximize n n_max choices n in
                  let result : get_large_matmul_params factorint mt nt y x k ≡ place mt nt y x m r =
                    rw (get_large_matmul_params, room, large_m) refl in
                  subst (Suits mt nt y x k) (sym result) (
                    Placed-Suits mt nt y x k m r (place-Placed mt nt y x m r) (
                      rows_first k m n n_max choices hm hn refl (block_choices-Positive nt x pn)
                        base))
              | inr plain_m ↦ elim (Bool-cases (ltb 1 n)) [
                | inl large_n ↦
                    let choices = block_choices factorint mt y in
                    let r = maximize m m_max choices m in
                    let result : get_large_matmul_params factorint mt nt y x k
                        ≡ place mt nt y x r n =
                      rw (get_large_matmul_params, room, plain_m, large_n) refl in
                    let cols =
                      rows_first k n m m_max choices hn hm refl (block_choices-Positive mt y pm)
                        (Budget-swap k m n base) in
                    subst (Suits mt nt y x k) (sym result) (
                      Placed-Suits mt nt y x k r n (place-Placed mt nt y x r n)
                        (Budget-swap k n r cols))
                | inr plain_n ↦
                    let rows = block_choices factorint mt y in
                    let cols = block_choices factorint nt x in
                    let result : get_large_matmul_params factorint mt nt y x k
                        ≡ try_columns mt nt y x k rows cols m =
                      rw (get_large_matmul_params, room, plain_m, plain_n) refl in
                    subst (Suits mt nt y x k) (sym result)
                      (elim (try_columns-SomeFit mt nt y x k rows cols m) [
                        | inl none_found ↦ inl none_found
                        | inr fits ↦ inr (
                          fits,
                          λ large. absurd (elim large [
                            | inl m_large ↦ let le = ltb→ge 1 m plain_m in omega arith
                            | inr n_large ↦ let le = ltb→ge 1 n plain_n in omega arith
                          ]),
                        )
                      ])
              ]
            ]
      ]
