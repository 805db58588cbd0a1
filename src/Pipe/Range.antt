-- ===== src/Pipe/Range.antt =====
-- A destination range by its test and by its expansion.
use mathlib.Core.Path.{subst}
use ml_tt_lang.Prelude.{
  ℕ, zero, suc, ◌+◌, ◌-◌, ◌≤◌, ◌<◌, ◌≡◌, refl, sym, ap, ◌∙◌, Bool, true, false, ◌&&◌, ◌||◌, none,
  some, List, [], ◌∷◌, ◌++◌, replicate, length-replicate, ltb→lt, ltb→ge, map, ◌==◌, ltb, leb,
  length, length-append, inl, inr, Bool-cases, arith,
}
use ml_tt_lang.Result.{ok, >>=-eq-ok, guard, guard-ok}
use ml_tt_lang.Block.{shape_eq, member}
use ml_tt_lang.NodeContext.{node, grid_size, flatten_last}
use ml_tt_lang.Pipe.{
  Item, index, slice, tuple, Pipe, make_pipe, validate_axes, validate_dst_slice, has_slice, steps,
  range, dim_range, empty_slice, strided_slice, dim_ranges, prefix_each, cartesian_product,
  expand_node_range, in_item, in_items, node_in_dst_range,
}

-- Whether a coordinate is in a list.
abbrev pub has_coords : List ℕ → List (List ℕ) → Bool
has_coords c [] = false
has_coords c (x ∷ xs) = shape_eq c x || has_coords c xs

pub has_coords-append :
    (c : List ℕ) (xs ys : List (List ℕ))
    → has_coords c (xs ++ ys) ≡ (has_coords c xs || has_coords c ys)
has_coords-append c [] ys = refl
has_coords-append c (x ∷ xs) ys = ground (arith, has_coords-append c xs ys)

has_coords-prefix :
    (c v : ℕ) (cs : List ℕ) (xs : List (List ℕ))
    → has_coords (c ∷ cs) (map (λ r. v ∷ r) xs) ≡ ((v == c) && has_coords cs xs)
has_coords-prefix c v cs [] = ground arith
has_coords-prefix c v cs (x ∷ xs) = ground (arith, has_coords-prefix c v cs xs)

has_coords-prefix_each :
    (c : ℕ) (cs vs : List ℕ) (xs : List (List ℕ))
    → has_coords (c ∷ cs) (prefix_each vs xs) ≡ (member c vs && has_coords cs xs)
unfolding prefix_each
has_coords-prefix_each c cs [] xs = refl
has_coords-prefix_each c cs (v ∷ vs) xs = ground (
  arith,
  has_coords-append (c ∷ cs) (map (λ r. v ∷ r) xs) (prefix_each vs xs),
  has_coords-prefix c v cs xs,
  has_coords-prefix_each c cs vs xs,
)

nil-prefix : (v : ℕ) (xs : List (List ℕ)) → has_coords [] (map (λ r. v ∷ r) xs) ≡ false
nil-prefix v [] = refl
nil-prefix v (x ∷ xs) = nil-prefix v xs

nil-prefix_each : (vs : List ℕ) (xs : List (List ℕ)) → has_coords [] (prefix_each vs xs) ≡ false
unfolding prefix_each
nil-prefix_each [] xs = refl
nil-prefix_each (v ∷ vs) xs = ground (
  arith,
  has_coords-append [] (map (λ r. v ∷ r) xs) (prefix_each vs xs),
  nil-prefix v xs,
  nil-prefix_each vs xs,
)

pub member-steps : (n start c : ℕ) → member c (steps n start 1) ≡ (leb start c && ltb c (start + n))
unfolding steps
member-steps zero start c = ground arith
member-steps (suc n) start c = ground (arith, member-steps n (start + 1) c)

-- A destination entry that was validated.
abbrev pub IsChecked : List Item → Type 0
IsChecked [] = Unit
IsChecked (item ∷ items) = (validate_dst_slice item ≡ ok tt) × IsChecked items

plain_range :
    (size c a b : ℕ)
    → (r : List ℕ) × (dim_range size (slice (some a) (some b) none) ≡ ok r)
      × (member c r ≡ in_item size c (slice (some a) (some b) none))
unfolding dim_range range in_item
plain_range size c a b = (range a b 1, refl, ground (arith, member-steps (b - a) a c))

pub dim_range-member :
    (size c : ℕ) (item : Item)
    → validate_dst_slice item ≡ ok tt
    → (r : List ℕ) × (dim_range size item ≡ ok r) × (member c r ≡ in_item size c item)
unfolding dim_range range validate_dst_slice in_item
dim_range-member size c (index i) v = (i ∷ [], refl, ground arith)
dim_range-member size c (slice none stop step) v = cc v
dim_range-member size c (slice (some a) none step) v = cc v
dim_range-member size c (slice (some a) (some b) none) v = plain_range size c a b
dim_range-member size c (slice (some a) (some b) (some s)) v =
    let (_, last) = guard-ok (ltb a b) empty_slice (guard (s == 1) strided_slice) v in
    let one : 1 ≡ s = ground arith in
    subst
      (λ z.
        (r : List ℕ) × (dim_range size (slice (some a) (some b) (some z)) ≡ ok r)
        × (member c r ≡ in_item size c (slice (some a) (some b) (some z))))
      one (plain_range size c a b)

-- Whether a coordinate takes each of its entries from the lists.
abbrev pub in_ranges : List ℕ → List (List ℕ) → Bool
in_ranges [] [] = true
in_ranges (c ∷ coords) (r ∷ ranges) = member c r && in_ranges coords ranges
in_ranges _ _ = false

pub cartesian_product-has :
    (coords : List ℕ) (ranges : List (List ℕ))
    → has_coords coords (cartesian_product ranges) ≡ in_ranges coords ranges
unfolding cartesian_product
cartesian_product-has [] [] = refl
cartesian_product-has (c ∷ coords) [] = refl
cartesian_product-has [] (r ∷ ranges) = nil-prefix_each r (cartesian_product ranges)
cartesian_product-has (c ∷ coords) (r ∷ ranges) =
    has_coords-prefix_each c coords r (cartesian_product ranges)
    ∙ ap (λ b. member c r && b) (cartesian_product-has coords ranges)

pub dim_ranges-in :
    (sizes coords : List ℕ) (items : List Item)
    → IsChecked items
    → length sizes ≡ length items
    → (ranges : List (List ℕ)) × (dim_ranges sizes items ≡ ok ranges)
      × (in_ranges coords ranges ≡ in_items sizes coords items)
unfolding dim_ranges in_items
dim_ranges-in [] [] [] v e = ([], refl, refl)
dim_ranges-in [] (c ∷ coords) [] v e = ([], refl, refl)
dim_ranges-in (size ∷ sizes) coords [] v e = absurd (omega arith)
dim_ranges-in [] coords (item ∷ items) v e = absurd (omega arith)
dim_ranges-in (size ∷ sizes) [] (item ∷ items) (v, vs) e =
    let (r, h, _) = dim_range-member size 0 item v in
    let (rs, hs, _) = dim_ranges-in sizes [] items vs (omega arith) in
    (r ∷ rs, rw (h, hs) refl, refl)
dim_ranges-in (size ∷ sizes) (c ∷ coords) (item ∷ items) (v, vs) e =
    let (r, h, m) = dim_range-member size c item v in
    let (rs, hs, ms) = dim_ranges-in sizes coords items vs (omega arith) in
    (r ∷ rs, rw (h, hs) refl, cc (m, ms))

flatten_last-length :
    (k : ℕ) (grid : List ℕ) → k < length grid → length (flatten_last k grid) ≡ suc k
unfolding flatten_last
flatten_last-length zero grid h = refl
flatten_last-length (suc k) [] h = absurd (omega arith)
flatten_last-length (suc k) (g ∷ grid) h = ap suc (flatten_last-length k grid (omega arith))

-- `grid_size` gives as many sizes as it is asked for.
pub grid_size-length :
    (k : ℕ) (grid : List ℕ)
    → (sizes : List ℕ) × (grid_size (suc k) grid ≡ some sizes) × (length sizes ≡ suc k)
unfolding grid_size
grid_size-length k grid = elim (Bool-cases (ltb (suc k) (length grid))) [
  | inl fewer ↦ (
    flatten_last k grid,
    rw fewer refl,
    flatten_last-length k grid (let lt = ltb→lt (suc k) (length grid) fewer in omega arith),
  )
  | inr more ↦ (
    grid ++ replicate (suc k - length grid) 1,
    rw more refl,
    let ge = ltb→ge (suc k) (length grid) more in
        omega (
          arith,
          length-append grid (replicate (suc k - length grid) 1),
          length-replicate {A = ℕ} (suc k - length grid) 1,
        ),
  )
]

pub axes-IsChecked :
    (n : ℕ) (items : List Item) → length items ≤ n → validate_axes n items ≡ ok tt → IsChecked items
unfolding validate_axes
axes-IsChecked n [] h v = tt
axes-IsChecked zero (item ∷ items) h v = absurd (omega arith)
axes-IsChecked (suc n) (item ∷ items) h v =
    let (_, first, rest) = >>=-eq-ok (validate_dst_slice item) (λ _. validate_axes n items) v in
    (first, axes-IsChecked n items (omega arith) rest)

pub make_pipe-eq :
    (src : List ℕ) (items : List Item) {p : Pipe}
    → make_pipe src (tuple items) ≡ ok p
    → (validate_axes 3 items ≡ ok tt) × (p.dst ≡ tuple items)
unfolding make_pipe
make_pipe-eq src items {p} h =
    let (_, v, e) = >>=-eq-ok (validate_axes 3 items) _ h in
    let made : record { src = src; dst = tuple items } ≡ p = cc e in
    (v, sym (ap (λ (z : Pipe). z.dst) made))

-- For a pipe of at most three axes with a slice that its constructor accepts, the expansion of the
-- destination succeeds on any grid, and the test of a node for being in the destination is the search
-- of its coordinates in the expansion.
pub node_in_dst_range-expand :
    (grid : List ℕ) (nid : ℕ) (src : List ℕ) (items : List Item) {p : Pipe}
    → make_pipe src (tuple items) ≡ ok p
    → has_slice items ≡ true
    → length items ≤ 3
    → (nodes : List (List ℕ)) × (expand_node_range grid items ≡ ok nodes)
      × (node_in_dst_range grid nid p.dst ≡ has_coords (node (length items) grid nid) nodes)
unfolding expand_node_range node_in_dst_range
node_in_dst_range-expand grid nid src [] h slices axes = cc slices
node_in_dst_range-expand grid nid src (item ∷ items) {p} h slices axes =
    let all = item ∷ items in
    let (v, dst) = make_pipe-eq src all h in
    let (sizes, gs, len) = grid_size-length (length items) grid in
    let coords = node (length all) grid nid in
    let (ranges, rs, within) = dim_ranges-in sizes coords all (axes-IsChecked 3 all axes v) len in
    (
      cartesian_product ranges,
      rw (gs, rs) refl,
      ap (node_in_dst_range grid nid) dst
          ∙ rw (node_in_dst_range, slices, gs)
              (sym within ∙ sym (cartesian_product-has coords ranges)),
    )
