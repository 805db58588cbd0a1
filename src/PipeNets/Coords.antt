-- ===== src/PipeNets/Coords.antt =====
-- Coordinates of a grid's own rank that lie within it, and the numbers of their nodes.
use native.Mathlib.Nat.{mul-add-div_right, div-eq_of_lt}
use mathlib.Core.Path.{subst}
use ml_tt_lang.Prelude.{
  ℕ, zero, suc, ◌+◌, ◌-◌, ◌*◌, ◌/◌, ◌%◌, ◌<◌, ◌≡◌, refl, sym, ap, ◌∙◌, true, Option, some, List, [],
  ◌∷◌, ◌==◌, ==_iff, length, le→leb, lt→ltb, inl, inr, Bool-cases, arith,
}
use ml_tt_lang.Result.{ok}
use ml_tt_lang.Block.{shape_eq, prod}
use ml_tt_lang.NodeContext.{
  node, flatten_node_index, flatten_from, flatten_first, fit_coords, split_coords,
}
use ml_tt_lang.NodeContext.RoundTrip.{Within, node-flatten, node-split}
use ml_tt_lang.PipeNets.{linearize, linearize_from}

quotient-eq : (a b c d g : ℕ) → c < g → d < g → a * g + c ≡ b * g + d → (a ≡ b) × (c ≡ d)
quotient-eq a b c d g hc hd e =
    let pos : zero < g = omega arith in
    let ea : (a * g + c) / g ≡ a = mul-add-div_right pos a c ∙ rw (div-eq_of_lt hc) (omega arith) in
    let eb : (b * g + d) / g ≡ b = mul-add-div_right pos b d ∙ rw (div-eq_of_lt hd) (omega arith) in
    let same : a ≡ b = sym ea ∙ ap (λ z. z / g) e ∙ eb in
    (same, let e' = subst (λ z. a * g + c ≡ z * g + d) (sym same) e in omega arith)

some-eq : {x y : ℕ} → ◌≡◌ {A = Option ℕ} (some x) (some y) → x ≡ y
some-eq e = cc e

pub flatten_from-Within :
    (a : ℕ) (cs grid : List ℕ)
    → Within cs grid
    → (n : ℕ) × (flatten_from a grid cs ≡ some n) × (linearize_from a cs grid ≡ ok n)
unfolding flatten_from
flatten_from-Within a [] [] w = (a, refl, refl)
flatten_from-Within a [] (g ∷ grid) w = absurd w
flatten_from-Within a (c ∷ cs) [] w = absurd w
flatten_from-Within a (c ∷ cs) (g ∷ grid) (_, w) = flatten_from-Within (a * g + c) cs grid w

flatten_from-inj :
    (a b n : ℕ) (cs ds grid : List ℕ)
    → Within cs grid
    → Within ds grid
    → flatten_from a grid cs ≡ some n
    → flatten_from b grid ds ≡ some n
    → (a ≡ b) × (cs ≡ ds)
unfolding flatten_from
flatten_from-inj a b n [] [] grid w v h k = (some-eq (h ∙ sym k), refl)
flatten_from-inj a b n [] (d ∷ ds) [] w v h k = absurd v
flatten_from-inj a b n [] (d ∷ ds) (g ∷ grid) w v h k = absurd w
flatten_from-inj a b n (c ∷ cs) ds [] w v h k = absurd w
flatten_from-inj a b n (c ∷ cs) [] (g ∷ grid) w v h k = absurd v
flatten_from-inj a b n (c ∷ cs) (d ∷ ds) (g ∷ grid) (wc, w) (vd, v) h k =
    let (e, es) = flatten_from-inj (a * g + c) (b * g + d) n cs ds grid w v h k in
    let (first, second) = quotient-eq a b c d g wc vd e in (first, cc (second, es))

pub shape_eq_iff : (xs ys : List ℕ) → shape_eq xs ys ≡ true → xs ≡ ys
shape_eq_iff [] [] h = refl
shape_eq_iff [] (y ∷ ys) h = cc h
shape_eq_iff (x ∷ xs) [] h = cc h
shape_eq_iff (x ∷ xs) (y ∷ ys) h = elim (Bool-cases (x == y)) [
  | inl e ↦
      let first = (==_iff x y).0 e in
      let rest = shape_eq_iff xs ys (rw (shape_eq, e) at h) in cc (first, rest)
  | inr ne ↦ cc (h, ne)
]

pub shape_eq_self : (xs : List ℕ) → shape_eq xs xs ≡ true
shape_eq_self [] = refl
shape_eq_self (x ∷ xs) = ground (arith, shape_eq_self xs)

Within-length : (cs grid : List ℕ) → Within cs grid → length cs ≡ length grid
Within-length [] [] w = refl
Within-length [] (g ∷ grid) w = absurd w
Within-length (c ∷ cs) [] w = absurd w
Within-length (c ∷ cs) (g ∷ grid) (_, w) = ap suc (Within-length cs grid w)

module _ (g : ℕ) (grid : List ℕ) where
  -- The coordinates of a node, in the grid's own rank.
  abbrev pub coords : ℕ → List ℕ
  coords nid = node (suc (length grid)) (g ∷ grid) nid

  flatten_node_index-inj :
      (cs ds : List ℕ) {n : ℕ}
      → Within cs (g ∷ grid)
      → Within ds (g ∷ grid)
      → flatten_node_index (g ∷ grid) cs ≡ some n
      → flatten_node_index (g ∷ grid) ds ≡ some n
      → cs ≡ ds
  unfolding flatten_node_index
  flatten_node_index-inj [] ds w v h k = absurd w
  flatten_node_index-inj (c ∷ cs) [] w v h k = absurd v
  flatten_node_index-inj (c ∷ cs) (d ∷ ds) {n} (wc, w) (vd, v) h k =
      let (e, es) = flatten_from-inj c d n cs ds grid w v h k in cc (e, es)

  shape_eq-flatten :
      (cs : List ℕ) (n nid : ℕ)
      → Within cs (g ∷ grid)
      → flatten_node_index (g ∷ grid) cs ≡ some n
      → nid < prod (g ∷ grid)
      → shape_eq (coords nid) cs ≡ (n == nid)
  shape_eq-flatten cs n nid w h lt =
      let (back, inside) = node-flatten g grid nid lt in
      elim (Bool-cases (n == nid)) [
        | inl e ↦
            let h' =
              subst (λ z. flatten_node_index (g ∷ grid) cs ≡ some z) ((==_iff n nid).0 e) h in
            let same = flatten_node_index-inj (coords nid) cs inside w back h' in
            ap (λ z. shape_eq z cs) same ∙ shape_eq_self cs ∙ sym e
        | inr ne ↦ elim (Bool-cases (shape_eq (coords nid) cs)) [
          | inr other ↦ other ∙ sym ne
          | inl same ↦
              let back' =
                subst (λ z. flatten_node_index (g ∷ grid) z ≡ some nid)
                  (shape_eq_iff (coords nid) cs same) back in
              cc ((==_iff n nid).1 (some-eq (sym h ∙ back')), ne)
        ]
      ]

  -- The two linearizations agree, and the number tells whether the coordinates are those of a node.
  pub linearize-Within :
      (cs : List ℕ)
      → Within cs (g ∷ grid)
      → (n : ℕ) × (linearize cs (g ∷ grid) ≡ ok n)
        × (flatten_node_index (g ∷ grid) cs ≡ some n)
        × ((nid : ℕ) → nid < prod (g ∷ grid) → shape_eq (coords nid) cs ≡ (n == nid))
  unfolding linearize flatten_node_index
  linearize-Within [] w = absurd w
  linearize-Within (c ∷ cs) (wc, w) =
      let (n, h, l) = flatten_from-Within c cs grid w in
      let few = Within-length cs grid w in
      (
        n,
        rw (le→leb (length cs) (length grid) (omega arith)) l,
        h,
        λ nid lt. shape_eq-flatten (c ∷ cs) n nid (wc, w) h lt,
      )

  flatten_first-one :
      (k a : ℕ) (cs rest : List ℕ) {n : ℕ}
      → length cs ≡ k
      → flatten_from a rest cs ≡ some n
      → flatten_first k a rest cs ≡ n ∷ []
  unfolding flatten_first flatten_from
  flatten_first-one zero a [] rest e h = ap (λ z. z ∷ []) (some-eq h)
  flatten_first-one zero a (c ∷ cs) rest e h = absurd (omega arith)
  flatten_first-one (suc k) a [] rest e h = absurd (omega arith)
  flatten_first-one (suc k) a (c ∷ cs) [] e h = cc h
  flatten_first-one (suc k) a (c ∷ cs) (r ∷ rest) e h =
      flatten_first-one k (a * r + c) cs rest (omega arith) h

  fit-one :
      (c n : ℕ) (cs : List ℕ)
      → flatten_from c grid cs ≡ some n
      → fit_coords 1 (g ∷ grid) (c ∷ cs) ≡ n ∷ []
  unfolding fit_coords flatten_from
  fit-one c n [] h = ap (λ z. z ∷ []) (some-eq h)
  fit-one c n (d ∷ ds) h =
      rw (lt→ltb 1 (suc (suc (length ds))) (omega arith))
        (flatten_first-one (suc (suc (length ds)) - 1) c (d ∷ ds) grid (omega arith) h)

  -- `node(1)` is the node's number.
  pub node-one : (nid : ℕ) → nid < prod (g ∷ grid) → node 1 (g ∷ grid) nid ≡ nid ∷ []
  unfolding node split_coords flatten_node_index
  node-one nid lt =
      let split = split_coords (g ∷ grid) nid in
      let back =
        ap (flatten_node_index (g ∷ grid)) (sym (node-split g grid nid))
        ∙ (node-flatten g grid nid lt).0 in
      fit-one ((split_coords grid nid).0 % g) nid (split_coords grid nid).1 back
