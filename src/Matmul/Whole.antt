-- ===== src/Matmul/Whole.antt =====
-- The blocks that are chosen for a matrix multiplication divide the matrix.
use native.Mathlib.Nat.{mul_comm, mul_assoc}
use mathlib.Core.Path.{subst}
use ml_tt_lang.Prelude.{
  ℕ, ◌*◌, ◌≤◌, ◌≡◌, ◌⊎◌, refl, sym, ap, ◌∙◌, inl, inr, List, [], ◌∷◌, map, ltb, leb, All,
  Bool-cases, Option-cases, arith, lt→ltb, ge→ltb, leb→le, leb→gt, true, false,
}
use ml_tt_lang.Block.{prod}
use ml_tt_lang.Matmul.Positive.{sorted-All, update-All}
use ml_tt_lang.Matmul.Params.{
  Suits, place-Placed, find_subblock-Found, get_large_matmul_params-Suits,
}
use ml_tt_lang.Matmul.{
  MatmulParams, no_params, insert, sorted, extend, update, products_from, larger, smaller, maximize,
  last_fitting, place, try_columns, get_possible_products, get_prime_factors, least_block,
  block_choices, get_large_matmul_params, get_maximum_block_dim, fits_grid, find_subblock,
  subblock_hw_choices,
}

-- The dimension `n` is a number of whole blocks of `b`.
abbrev pub Divides : ℕ → ℕ → Type 0
Divides n b = (c : ℕ) × (c * b ≡ n)

Divides-self : (n : ℕ) → Divides n n
Divides-self n = (1, let same : 1 * n ≡ n = omega arith in same)

Divides-mul : (m n b d : ℕ) → Divides m b → Divides n d → Divides (m * n) (b * d)
Divides-mul m n b d (c, e) (k, h) = (
  c * k,
  mul_assoc c k (b * d)
      ∙ ap (λ z. c * z) (sym (mul_assoc k b d) ∙ ap (λ z. z * d) (mul_comm k b) ∙ mul_assoc b k d)
      ∙ sym (mul_assoc c b (k * d))
      ∙ ap (λ z. z * (k * d)) e
      ∙ ap (λ z. m * z) h,
)

Divides-more : (m n b : ℕ) → Divides m b → Divides (m * n) b
Divides-more m n b (c, e) = (n * c, mul_assoc n c b ∙ ap (λ z. n * z) e ∙ mul_comm n m)

module _ (P : ℕ → Type 0) where
  last_fitting-All :
      (most : ℕ) (es : List ℕ) (current : ℕ)
      → All P es
      → P current
      → P (last_fitting most es current)
  unfolding last_fitting
  last_fitting-All most [] current w h = h
  last_fitting-All most (e ∷ es) current (he, w) h = elim (Bool-cases (leb e most)) [
    | inl le ↦ rw (last_fitting, le) (last_fitting-All most es e w he)
    | inr gt ↦ rw (last_fitting, gt) (last_fitting-All most es current w h)
  ]

scaled-Divides :
    (n p : ℕ) (s : List ℕ) → All (Divides n) s → All (Divides (n * p)) (map (λ q. q * p) s)
scaled-Divides n p [] w = tt
scaled-Divides n p (q ∷ s) (h, w) = (Divides-mul n p q p h (Divides-self p), scaled-Divides n p s w)

more-Divides : (n p : ℕ) (s : List ℕ) → All (Divides n) s → All (Divides (n * p)) s
more-Divides n p [] w = tt
more-Divides n p (q ∷ s) (h, w) = (Divides-more n p q h, more-Divides n p s w)

products-Divides :
    (factors s : List ℕ) (n : ℕ)
    → All (Divides n) s
    → All (Divides (n * prod factors)) (products_from factors s)
products-Divides [] s n w =
    subst (λ z. All (Divides z) s) (let same : n ≡ n * 1 = omega arith in same) w
products-Divides (p ∷ factors) s n w =
    subst (λ z. All (Divides z) (products_from factors (update (map (λ q. q * p) s) s)))
      (mul_assoc n p (prod factors))
      (products-Divides factors (update (map (λ q. q * p) s) s) (n * p) (
        update-All (Divides (n * p)) (map (λ q. q * p) s) s (scaled-Divides n p s w)
          (more-Divides n p s w)))

swap : (a b c : ℕ) → a * (b * c) ≡ b * (a * c)
swap a b c = sym (mul_assoc a b c) ∙ ap (λ z. z * c) (mul_comm a b) ∙ mul_assoc b a c

prod-insert : (n : ℕ) (xs : List ℕ) → prod (insert n xs) ≡ n * prod xs
prod-insert n [] = refl
prod-insert n (x ∷ xs) = elim (Bool-cases (leb n x)) [
  | inl le ↦ rw (insert, le) refl
  | inr gt ↦ rw (insert, gt) (ap (λ z. x * z) (prod-insert n xs) ∙ swap x n (prod xs))
]

prod-sorted : (xs : List ℕ) → prod (sorted xs) ≡ prod xs
unfolding sorted
prod-sorted [] = refl
prod-sorted (x ∷ xs) = prod-insert x (sorted xs) ∙ ap (λ z. x * z) (prod-sorted xs)

-- The factors that exceed the nodes, and the others.
larger-smaller : (n : ℕ) (xs : List ℕ) → prod (smaller n xs) * prod (larger n xs) ≡ prod xs
larger-smaller n [] = refl
larger-smaller n (x ∷ xs) = elim (Bool-cases (leb x n)) [
  | inl le ↦
      let other : ltb n x ≡ false = ge→ltb n x (leb→le x n le) in
      rw (smaller, larger, le, other)
        (mul_assoc x (prod (smaller n xs)) (prod (larger n xs))
          ∙ ap (λ z. x * z) (larger-smaller n xs))
  | inr gt ↦
      let other : ltb n x ≡ true = lt→ltb n x (leb→gt x n gt) in
      rw (smaller, larger, gt, other)
        (swap (prod (smaller n xs)) x (prod (larger n xs)) ∙ ap (λ z. x * z) (larger-smaller n xs))
]

maximize-Divides :
    (n least most : ℕ) (es : List ℕ) (current : ℕ)
    → All (λ e. Divides n (e * least)) es
    → Divides n current
    → Divides n (maximize least most es current)
unfolding maximize
maximize-Divides n least most [] current w h = h
maximize-Divides n least most (e ∷ es) current (he, w) h =
    elim (Bool-cases (leb (e * least) most)) [
      | inl go ↦ rw (maximize, go) (maximize-Divides n least most es (e * least) w he)
      | inr stop ↦ rw (maximize, stop) h
    ]

-- The parameters are none, or their blocks divide the matrix.
abbrev pub Whole : ℕ → ℕ → MatmulParams → Type 0
Whole mt nt p = (p ≡ no_params) ⊎ (Divides mt p.block_h × Divides nt p.block_w)

place-Whole :
    (mt nt y x mpc npc : ℕ)
    → Divides mt mpc
    → Divides nt npc
    → Whole mt nt (place mt nt y x mpc npc)
place-Whole mt nt y x mpc npc dh dw = elim (place-Placed mt nt y x mpc npc) [
  | inl none_found ↦ inl none_found
  | inr (_, eh, ew) ↦ inr (subst (Divides mt) (sym eh) dh, subst (Divides nt) (sym ew) dw)
]

try_columns-Whole :
    (mt nt y x k : ℕ) (rows cols : List ℕ) (mpc : ℕ)
    → All (Divides mt) rows
    → All (Divides nt) cols
    → Divides mt mpc
    → Whole mt nt (try_columns mt nt y x k rows cols mpc)
unfolding try_columns
try_columns-Whole mt nt y x k rows [] mpc ws vs dh = inl refl
try_columns-Whole mt nt y x k rows (npc ∷ cols) mpc ws (dw, vs) dh =
    let most = get_maximum_block_dim npc k in
    let mpc' = last_fitting most rows mpc in
    let dh' = last_fitting-All (Divides mt) most rows mpc ws dh in
    let later = try_columns-Whole mt nt y x k rows cols mpc' ws vs dh' in
    elim (Bool-cases (fits_grid mt nt y x mpc' npc)) [
      | inr unfit ↦ rw (try_columns, unfit) later
      | inl fits ↦ elim (Option-cases (find_subblock mpc' npc subblock_hw_choices)) [
        | inl missing ↦ rw (try_columns, fits, missing) later
        | inr (p, e) ↦
            let found = find_subblock-Found mpc' npc subblock_hw_choices refl e in
            let result : try_columns mt nt y x k rows (npc ∷ cols) mpc ≡ p =
              rw (try_columns, fits, e) refl in
            subst (Whole mt nt) (sym result)
              (inr (subst (Divides mt) (sym found.0) dh', subst (Divides nt) (sym found.1) dw))
      ]
    ]

-- `factorint` gives the prime factors of a positive number with their counts.
module _ (factorint : ℕ → List (ℕ × ℕ))
    (primes : (n : ℕ) → 1 ≤ n → All (λ (f : ℕ × ℕ). 1 ≤ f.0) (factorint n))
    (product : (n : ℕ) → 1 ≤ n → prod (extend (factorint n)) ≡ n) where
  parts : ℕ → ℕ → ℕ
  parts n nodes = prod (smaller nodes (get_prime_factors (factorint n)))

  parts-least : (n nodes : ℕ) → 1 ≤ n → parts n nodes * least_block factorint n nodes ≡ n
  unfolding parts least_block get_prime_factors
  parts-least n nodes pos =
      larger-smaller nodes (sorted (extend (factorint n)))
      ∙ prod-sorted (extend (factorint n))
      ∙ product n pos

  choices-Divides : (n nodes : ℕ) → All (Divides (parts n nodes)) (block_choices factorint n nodes)
  unfolding parts block_choices get_possible_products
  choices-Divides n nodes =
      let few = smaller nodes (get_prime_factors (factorint n)) in
      let one : 1 * prod few ≡ prod few = omega arith in
      subst (λ z. All (Divides z) (sorted (products_from few (1 ∷ [])))) one
        (sorted-All (Divides (1 * prod few)) (products_from few (1 ∷ []))
          (products-Divides few (1 ∷ []) 1 (Divides-self 1, tt)))

  least-Divides : (n nodes : ℕ) → 1 ≤ n → Divides n (least_block factorint n nodes)
  least-Divides n nodes pos = (parts n nodes, parts-least n nodes pos)

  choices_alone :
      (n nodes : ℕ) (es : List ℕ) → 1 ≤ n → All (Divides (parts n nodes)) es → All (Divides n) es
  choices_alone n nodes [] pos w = tt
  choices_alone n nodes (e ∷ es) pos (h, w) = (
    subst (λ z. Divides z e) (parts-least n nodes pos)
        (Divides-more (parts n nodes) (least_block factorint n nodes) e h),
    choices_alone n nodes es pos w,
  )

  choices_scaled :
      (n nodes : ℕ) (es : List ℕ)
      → 1 ≤ n
      → All (Divides (parts n nodes)) es
      → All (λ e. Divides n (e * least_block factorint n nodes)) es
  choices_scaled n nodes [] pos w = tt
  choices_scaled n nodes (e ∷ es) pos (h, w) =
      let least = least_block factorint n nodes in
      (
        subst (λ z. Divides z (e * least)) (parts-least n nodes pos)
            (Divides-mul (parts n nodes) least e least h (Divides-self least)),
        choices_scaled n nodes es pos w,
      )

  get_large_matmul_params-Whole :
      (mt nt y x k : ℕ)
      → 1 ≤ mt
      → 1 ≤ nt
      → Whole mt nt (get_large_matmul_params factorint mt nt y x k)
  unfolding get_large_matmul_params
  get_large_matmul_params-Whole mt nt y x k pm pn =
      let m = least_block factorint mt y in
      let n = least_block factorint nt x in
      let n_max = get_maximum_block_dim m k in
      let m_max = get_maximum_block_dim n k in
      let rows = block_choices factorint mt y in
      let cols = block_choices factorint nt x in
      let dm = least-Divides mt y pm in
      let dn = least-Divides nt x pn in
      let all_rows = choices-Divides mt y in
      let all_cols = choices-Divides nt x in
      elim (Bool-cases (ltb n_max n)) [
        | inl too_large ↦ inl (rw (get_large_matmul_params, too_large) refl)
        | inr room ↦ elim (Bool-cases (ltb 1 m)) [
          | inl large_m ↦
              rw (get_large_matmul_params, room, large_m)
                (place-Whole mt nt y x m (maximize n n_max cols n) dm
                  (maximize-Divides nt n n_max cols n (choices_scaled nt x cols pn all_cols) dn))
          | inr plain_m ↦ elim (Bool-cases (ltb 1 n)) [
            | inl large_n ↦
                rw (get_large_matmul_params, room, plain_m, large_n)
                  (place-Whole mt nt y x (maximize m m_max rows m) n
                    (maximize-Divides mt m m_max rows m (choices_scaled mt y rows pm all_rows) dm)
                    dn)
            | inr plain_n ↦
                rw (get_large_matmul_params, room, plain_m, plain_n)
                  (try_columns-Whole mt nt y x k rows cols m (choices_alone mt y rows pm all_rows)
                    (choices_alone nt x cols pn all_cols) dm)
          ]
        ]
      ]

  -- For a matrix of positive dimensions, and with `factorint` giving positive factors whose product is the
  -- number: the parameters are those of no configuration, or else the blocks divide the matrix in both
  -- dimensions, into no more blocks than the grid has nodes of it; the subblock divides the block and has
  -- from one to eight tiles; and if a prime factor of a dimension exceeds the nodes of it, the
  -- double-buffered blocks fit in the 400 tiles of memory.
  pub get_large_matmul_params-covers :
      (mt nt y x k : ℕ)
      → 1 ≤ mt
      → 1 ≤ nt
      → Suits factorint primes mt nt y x k (get_large_matmul_params factorint mt nt y x k)
        × Whole mt nt (get_large_matmul_params factorint mt nt y x k)
  get_large_matmul_params-covers mt nt y x k pm pn = (
    get_large_matmul_params-Suits factorint primes mt nt y x k pm pn,
    get_large_matmul_params-Whole mt nt y x k pm pn,
  )
