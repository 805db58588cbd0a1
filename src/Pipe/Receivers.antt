-- ===== src/Pipe/Receivers.antt =====
-- The receivers that a transfer of a block to a pipe counts (python/sim/copyhandlers.py), and the nodes
-- that pass the pipe's test for being one.
use ml_tt_lang.Prelude.{
  ℕ, zero, suc, ◌+◌, ◌-◌, ◌*◌, ◌/◌, ◌%◌, ◌≤◌, ◌<◌, ◌≡◌, refl, sym, ap, ◌∙◌, true, ◌&&◌, none, some,
  List, [], ◌∷◌, ◌++◌, map, ◌==◌, ltb, leb, length, length-append, arith, if◌then◌else◌, lt→ltb,
  ge→ltb, replicate,
}
use mathlib.Core.Path.{subst}
use mathlib.Core.List.{append-nil}
use ml_tt_lang.Result.{Result, ok, >>=-eq-ok, guard, guard-ok}
use ml_tt_lang.Block.{prod}
use ml_tt_lang.NodeContext.{split_coords, node, grid_size}
use ml_tt_lang.NodeContext.RoundTrip.{node-split}
use ml_tt_lang.NodeContext.AllNodes.{sum_grid, sum-split, sum_grid-and}
use ml_tt_lang.Sharding.Cores.{sum_cores, sum_cores-mul, sum_cores-ext, one_if, length-steps}
use ml_tt_lang.Pipe.{
  Pipe, tuple, make_pipe, has_slice, num_receivers, expand_node_range, node_in_dst_range, PipeError,
  Item, index, slice, in_item, in_items, dim_range, dim_ranges, range, prefix_each,
  cartesian_product, validate_dst_slice, empty_slice, strided_slice,
}
use ml_tt_lang.Pipe.Range.{IsChecked, make_pipe-eq, axes-IsChecked, dim_ranges-in}

one_index : (n i : ℕ) → sum_cores n (λ c. one_if (c == i)) ≡ one_if (ltb i n)
one_index zero i = ground arith
one_index (suc n) i = ground (arith, one_index n i)

interval :
    (n a b : ℕ)
    → sum_cores n (λ c. one_if (leb a c && (ltb c b && ((c - a) % 1 == 0))))
      ≡ (if leb n b then n else b) - a
interval zero a b = ground arith
interval (suc n) a b = ground (arith, interval n a b)

-- An entry of a destination whose coordinates are in a dimension.
abbrev pub Fits : ℕ → Item → Type 0
Fits size (index i) = i < size
Fits size (slice start none step) = Unit
Fits size (slice start (some stop) step) = stop ≤ size

plain_count :
    (size a b : ℕ)
    → b ≤ size
    → sum_cores size (λ c. one_if (in_item size c (slice (some a) (some b) none)))
      ≡ length (range a b 1)
unfolding in_item range
plain_count size a b h = interval size a b ∙ ground (arith, length-steps ((b - a + 0) / 1) a 1)

counted_as :
    (r : List ℕ) {r' : List ℕ} {n : ℕ}
    → ◌≡◌ {A = Result PipeError (List ℕ)} (ok r) (ok r')
    → n ≡ length r
    → n ≡ length r'
counted_as r {r'} h e = let same : r ≡ r' = cc h in e ∙ ap length same

count_item :
    (size : ℕ) (item : Item) {r : List ℕ}
    → validate_dst_slice item ≡ ok tt
    → Fits size item
    → dim_range size item ≡ ok r
    → sum_cores size (λ c. one_if (in_item size c item)) ≡ length r
unfolding validate_dst_slice in_item dim_range
count_item size (index i) v fits h =
    counted_as (i ∷ []) h (one_index size i ∙ rw (lt→ltb i size fits) refl)
count_item size (slice none stop step) v fits h = cc v
count_item size (slice (some a) none step) v fits h = cc v
count_item size (slice (some a) (some b) none) v fits h =
    counted_as (range a b 1) h (plain_count size a b fits)
count_item size (slice (some a) (some b) (some s)) {r} v fits h =
    let (_, last) = guard-ok (ltb a b) empty_slice (guard (s == 1) strided_slice) v in
    let one : 1 ≡ s = ground arith in
    subst
      (λ z.
        dim_range size (slice (some a) (some b) (some z)) ≡ ok r
        → sum_cores size (λ c. one_if (in_item size c (slice (some a) (some b) (some z))))
          ≡ length r)
      one (λ h'. counted_as (range a b 1) h' (plain_count size a b fits)) h

length-prefix : (v : ℕ) (xs : List (List ℕ)) → length (map (λ r. v ∷ r) xs) ≡ length xs
length-prefix v [] = refl
length-prefix v (x ∷ xs) = ap suc (length-prefix v xs)

length-prefix_each :
    (vs : List ℕ) (xs : List (List ℕ)) → length (prefix_each vs xs) ≡ length vs * length xs
unfolding prefix_each
length-prefix_each [] xs = omega arith
length-prefix_each (v ∷ vs) xs = omega (
  arith,
  length-append (map (λ r. v ∷ r) xs) (prefix_each vs xs),
  length-prefix v xs,
  length-prefix_each vs xs,
)

-- Every entry of the destination fits its dimension.
abbrev pub AllFit : List ℕ → List Item → Type 0
AllFit [] [] = Unit
AllFit (size ∷ sizes) (item ∷ items) = Fits size item × AllFit sizes items
AllFit _ _ = ⊥

-- The coordinates of a node that are in a destination, by the first one and the others.
count_both :
    (size : ℕ) (sizes : List ℕ) (item : Item) (items : List Item) {m n : ℕ}
    → sum_cores size (λ c. one_if (in_item size c item)) ≡ m
    → sum_grid sizes (λ cs. one_if (in_items sizes cs items)) ≡ n
    → sum_grid (size ∷ sizes) (λ cs. one_if (in_items (size ∷ sizes) cs (item ∷ items))) ≡ m * n
unfolding in_items
count_both size sizes item items {m} {n} hm hn =
    let others = sum_grid sizes (λ cs. one_if (in_items sizes cs items)) in
    sum_cores-ext size
      (λ c. sum_grid sizes (λ cs. one_if (in_item size c item && in_items sizes cs items)))
      (λ c. one_if (in_item size c item) * others)
      (λ c. sum_grid-and sizes (in_item size c item) (λ cs. in_items sizes cs items))
    ∙ sum_cores-mul size (λ c. one_if (in_item size c item)) others
    ∙ ap (λ z. z * others) hm
    ∙ ap (λ z. m * z) hn

count_items :
    (sizes : List ℕ) (items : List Item) {ranges : List (List ℕ)}
    → IsChecked items
    → AllFit sizes items
    → dim_ranges sizes items ≡ ok ranges
    → sum_grid sizes (λ cs. one_if (in_items sizes cs items)) ≡ length (cartesian_product ranges)
unfolding in_items dim_ranges cartesian_product
count_items [] [] {ranges} v fits h =
    let none_left : [] ≡ ranges = cc h in ap (λ z. length (cartesian_product z)) none_left
count_items [] (item ∷ items) v fits h = absurd fits
count_items (size ∷ sizes) [] v fits h = absurd fits
count_items (size ∷ sizes) (item ∷ items) {ranges} (v, vs) (fits, rest) h =
    let (r, hr, h₁) = >>=-eq-ok (dim_range size item) _ h in
    let (rs, hrs, h₂) = >>=-eq-ok (dim_ranges sizes items) _ h₁ in
    let all : r ∷ rs ≡ ranges = cc h₂ in
    count_both size sizes item items (count_item size item v fits hr)
      (count_items sizes items vs rest hrs)
    ∙ sym (length-prefix_each r (cartesian_product rs))
    ∙ ap (λ z. length (cartesian_product z)) all

full_grid : (g : ℕ) (grid : List ℕ) → grid_size (suc (length grid)) (g ∷ grid) ≡ some (g ∷ grid)
unfolding grid_size
full_grid g grid =
    let none_more : suc (length grid) - suc (length grid) ≡ 0 = omega arith in
    rw (ge→ltb (suc (length grid)) (suc (length grid)) (omega arith))
      (ap (λ z. some ((g ∷ grid) ++ replicate z 1)) none_more ∙ ap some (append-nil (g ∷ grid)))

-- The nodes of a grid in a destination, whose coordinates are the grid's own.
receivers :
    (g : ℕ) (grid : List ℕ) (items : List Item) {ranges : List (List ℕ)}
    → IsChecked items
    → AllFit (g ∷ grid) items
    → dim_ranges (g ∷ grid) items ≡ ok ranges
    → sum_cores
        (prod (g ∷ grid))
        (λ nid. one_if (in_items (g ∷ grid) (node (suc (length grid)) (g ∷ grid) nid) items))
      ≡ length (cartesian_product ranges)
receivers g grid items v fits h =
    let all = g ∷ grid in
    let test : List ℕ → ℕ = λ cs. one_if (in_items all cs items) in
    let one_row : prod all ≡ prod all * 1 = omega arith in
    let total = sum_grid all test in
    let single_row : 0 + total ≡ total = omega arith in
    sum_cores-ext (prod all) (λ nid. test (node (suc (length grid)) all nid))
      (λ nid. test (split_coords all nid).1) (λ nid. ap test (node-split g grid nid))
    ∙ ap (λ n. sum_cores n (λ nid. test (split_coords all nid).1)) one_row
    ∙ sum-split all 1 (λ r. test)
    ∙ single_row
    ∙ count_items all items v fits h

-- For a pipe that its constructor accepts, whose destination has a slice, as many entries as the grid
-- has dimensions, three at most, and no coordinate outside the grid: the count of receivers that a
-- transfer to the pipe stores with its message is made, and is the number of the grid's nodes that
-- pass the test for being in the destination.
pub num_receivers-node_in_dst_range :
    (g : ℕ) (grid src : List ℕ) (items : List Item) {p : Pipe}
    → make_pipe src (tuple items) ≡ ok p
    → has_slice items ≡ true
    → length items ≡ suc (length grid)
    → length items ≤ 3
    → AllFit (g ∷ grid) items
    → (n : ℕ) × (num_receivers (g ∷ grid) p.dst ≡ ok n)
      × (sum_cores (prod (g ∷ grid)) (λ nid. one_if (node_in_dst_range (g ∷ grid) nid p.dst)) ≡ n)
unfolding num_receivers expand_node_range node_in_dst_range
num_receivers-node_in_dst_range g grid src items {p} h slices rank axes fits =
    let all = g ∷ grid in
    let (v, dst) = make_pipe-eq src items h in
    let checked = axes-IsChecked 3 items axes v in
    let (ranges, rs, _) = dim_ranges-in all [] items checked (sym rank) in
    let size : grid_size (length items) all ≡ some all =
      ap (λ k. grid_size k all) rank ∙ full_grid g grid in
    (
      length (cartesian_product ranges),
      ap (num_receivers all) dst ∙ rw (num_receivers, slices, expand_node_range, size, rs) refl,
      sum_cores-ext (prod all) (λ nid. one_if (node_in_dst_range all nid p.dst))
            (λ nid. one_if (in_items all (node (suc (length grid)) all nid) items))
            (λ nid.
              ap (λ d. one_if (node_in_dst_range all nid d)) dst
              ∙ rw (node_in_dst_range, slices, size, rank) refl)
          ∙ receivers g grid items checked fits rs,
    )
