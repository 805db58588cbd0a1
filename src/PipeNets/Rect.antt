-- ===== src/PipeNets/Rect.antt =====
-- The use that the graph makes of a pipe of the simulator: it covers the same nodes.
use native.Mathlib.Nat.{mod-one}
use mathlib.Core.Path.{subst}
use mathlib.Core.List.{append-nil}
use ml_tt_lang.Prelude.{
  ℕ, suc, ◌+◌, ◌-◌, ◌≤◌, ◌<◌, ◌≡◌, refl, sym, ap, ◌∙◌, true, false, not, ◌&&◌, ◌||◌, none, some,
  List, [], ◌∷◌, ◌++◌, ◌==◌, ==_iff, length, leb, ltb, lt→ltb, ge→ltb, inl, inr, Bool-cases, arith,
  replicate,
}
use ml_tt_lang.Result.{ok, guard, guard-ok}
use ml_tt_lang.Block.{shape_eq, member}
use ml_tt_lang.NodeContext.{node, grid_size}
use ml_tt_lang.NodeContext.RoundTrip.{Within}
use ml_tt_lang.Pipe.{
  Item, index, slice, Dst, single, tuple, Pipe, has_slice, range, indices, in_item, in_items,
  node_in_dst_range, validate_dst_slice, empty_slice, strided_slice, or_value,
}
use ml_tt_lang.Pipe.Range.{has_coords, cartesian_product-has, in_ranges, member-steps}
use ml_tt_lang.PipeNets.{
  PipeUse, node_coord, node_range, make_node_range, check_bounds, axis_ranges, expand_dst,
  axis_bounds, dst_rect, pipe_to_pipe_use,
}
use ml_tt_lang.PipeNets.Coords.{coords, shape_eq_iff}

-- A destination entry that was validated, within one dimension.
abbrev pub ItemWithin : Item → ℕ → Type 0
ItemWithin (index i) size = i < size
ItemWithin (slice start stop step) size =
    (validate_dst_slice (slice start stop step) ≡ ok tt) × (or_value 0 stop ≤ size)

abbrev pub ItemsWithin : List Item → List ℕ → Type 0
ItemsWithin [] [] = Unit
ItemsWithin (item ∷ items) (size ∷ sizes) = ItemWithin item size × ItemsWithin items sizes
ItemsWithin _ _ = ⊥

-- The bounds of one axis, which select what the entry does.
IsAxis : Item → ℕ → ℕ × ℕ → Type 0
unfolding axis_bounds
IsAxis item size b =
    (axis_bounds item ≡ ok b)
    × (ltb b.0 b.1 ≡ true)
    × ((c : ℕ) → member c (range b.0 b.1 1) ≡ in_item size c item)

member-range : (lo hi c : ℕ) → member c (range lo hi 1) ≡ (leb lo c && ltb c hi)
unfolding range
member-range lo hi c = ground (arith, member-steps (hi - lo) lo c)

bounds-IsAxis : (item : Item) (size : ℕ) → ItemWithin item size → (b : ℕ × ℕ) × IsAxis item size b
unfolding IsAxis axis_bounds in_item validate_dst_slice
bounds-IsAxis (index i) size w = (
  (i, i + 1),
  (refl, lt→ltb i (i + 1) (omega arith), λ c. ground (arith, member-range i (i + 1) c)),
)
bounds-IsAxis (slice none stop step) size (v, w) = cc v
bounds-IsAxis (slice (some a) none step) size (v, w) = cc v
bounds-IsAxis (slice (some a) (some b) none) size (v, w) =
    let (less, _) = guard-ok (ltb a b) empty_slice (ok tt) v in
    ((a, b), (refl, less, λ c. ground (arith, member-range a b c, mod-one (c - a))))
bounds-IsAxis (slice (some a) (some b) (some s)) size (v, w) =
    let (less, last) = guard-ok (ltb a b) empty_slice (guard (s == 1) strided_slice) v in
    let one : s ≡ 1 = ground arith in
    ((a, b), (refl, less, λ c. rw one (ground (arith, member-range a b c, mod-one (c - a)))))

-- The bounds of all axes.
IsRect : List Item → List ℕ → List ℕ × List ℕ → Type 0
unfolding dst_rect
IsRect items sizes r =
    (dst_rect items ≡ ok r)
    × (length r.0 ≡ length r.1)
    × (check_bounds r.0 r.1 ≡ ok tt)
    × ((cs : List ℕ) → in_ranges cs (axis_ranges r.0 r.1) ≡ in_items sizes cs items)

in_ranges-nil : (cs : List ℕ) → in_ranges cs [] ≡ in_items [] cs []
unfolding in_items
in_ranges-nil [] = refl
in_ranges-nil (c ∷ cs) = refl

in_ranges-cons :
    (item : Item) (items : List Item) (size : ℕ) (sizes r : List ℕ) (rs : List (List ℕ))
    → ((c : ℕ) → member c r ≡ in_item size c item)
    → ((cs : List ℕ) → in_ranges cs rs ≡ in_items sizes cs items)
    → (cs : List ℕ) → in_ranges cs (r ∷ rs) ≡ in_items (size ∷ sizes) cs (item ∷ items)
unfolding in_items
in_ranges-cons item items size sizes r rs m ms [] = refl
in_ranges-cons item items size sizes r rs m ms (c ∷ cs) = cc (m c, ms cs)

cons-IsRect :
    (item : Item) (items : List Item) (size : ℕ) (sizes : List ℕ) (b : ℕ × ℕ) (r : List ℕ × List ℕ)
    → IsAxis item size b
    → IsRect items sizes r
    → IsRect (item ∷ items) (size ∷ sizes) (b.0 ∷ r.0, b.1 ∷ r.1)
unfolding IsRect IsAxis dst_rect in_items
cons-IsRect item items size sizes b r (eb, less, mb) (er, len, checked, mr) = (
  rw (eb, er) refl,
  ap suc len,
  rw less checked,
  in_ranges-cons item items size sizes (range b.0 b.1 1) (axis_ranges r.0 r.1) mb mr,
)

items-IsRect :
    (items : List Item) (sizes : List ℕ)
    → ItemsWithin items sizes
    → (r : List ℕ × List ℕ) × IsRect items sizes r
unfolding IsRect dst_rect in_items
items-IsRect [] [] w = (([], []), (refl, refl, refl, in_ranges-nil))
items-IsRect [] (size ∷ sizes) w = absurd w
items-IsRect (item ∷ items) [] w = absurd w
items-IsRect (item ∷ items) (size ∷ sizes) (w, ws) =
    let (b, axis) = bounds-IsAxis item size w in
    let (r, rect) = items-IsRect items sizes ws in
    ((b.0 ∷ r.0, b.1 ∷ r.1), cons-IsRect item items size sizes b r axis rect)

in_item-lt :
    (item : Item) (size c : ℕ) → ItemWithin item size → in_item size c item ≡ true → c < size
unfolding in_item validate_dst_slice
in_item-lt (index i) size c w h = ground arith
in_item-lt (slice none stop step) size c (v, w) h = cc v
in_item-lt (slice (some a) none step) size c (v, w) h = cc v
in_item-lt (slice (some a) (some b) step) size c (v, w) h = ground arith

in_items-Within :
    (items : List Item) (sizes cs : List ℕ)
    → ItemsWithin items sizes
    → in_items sizes cs items ≡ true
    → Within cs sizes
unfolding in_items
in_items-Within [] [] [] w h = tt
in_items-Within [] [] (c ∷ cs) w h = cc h
in_items-Within [] (size ∷ sizes) cs w h = absurd w
in_items-Within (item ∷ items) [] cs w h = absurd w
in_items-Within (item ∷ items) (size ∷ sizes) [] w h = cc h
in_items-Within (item ∷ items) (size ∷ sizes) (c ∷ cs) (w, ws) h =
    let here : in_item size c item ≡ true = ground arith in
    let there : in_items sizes cs items ≡ true = ground arith in
    (in_item-lt item size c w here, in_items-Within items sizes cs ws there)

-- A destination of the grid's own rank, that lies within the grid and was validated. A tuple of one
-- number names no node of the simulator.
abbrev pub DstWithin : Dst → List ℕ → Type 0
DstWithin (single i) grid = Within (i ∷ []) grid
DstWithin (tuple items) grid =
    ItemsWithin items grid × ((has_slice items || not (length items == 1)) ≡ true)

-- A use that covers the destination's nodes, all of them within the grid.
pub record Covers (g : ℕ) (grid : List ℕ) (p : Pipe) (u : PipeUse) : Type 0 where
  pub made : pipe_to_pipe_use p ≡ ok u
  pub src : u.src ≡ p.src
  pub within : (cs : List ℕ) → has_coords cs (expand_dst u.dst) ≡ true → Within cs (g ∷ grid)
  pub same :
      (nid : ℕ)
      → has_coords (coords g grid nid) (expand_dst u.dst) ≡ node_in_dst_range (g ∷ grid) nid p.dst

grid_size_self :
    (g : ℕ) (grid : List ℕ) → grid_size (suc (length grid)) (g ∷ grid) ≡ some (g ∷ grid)
unfolding grid_size
grid_size_self g grid = rw (ge→ltb (suc (length grid)) (suc (length grid)) (omega arith)) (
    ap (λ z. some ((g ∷ grid) ++ replicate z 1))
      (let z : suc (length grid) - suc (length grid) ≡ 0 = omega arith in z)
    ∙ ap some (append-nil (g ∷ grid)))

ItemsWithin-length :
    (items : List Item) (sizes : List ℕ) → ItemsWithin items sizes → length items ≡ length sizes
ItemsWithin-length [] [] w = refl
ItemsWithin-length [] (s ∷ sizes) w = absurd w
ItemsWithin-length (i ∷ items) [] w = absurd w
ItemsWithin-length (i ∷ items) (s ∷ sizes) (_, w) = ap suc (ItemsWithin-length items sizes w)

indices-Within :
    (items : List Item) (sizes : List ℕ)
    → has_slice items ≡ false
    → ItemsWithin items sizes
    → Within (indices items) sizes
indices-Within [] [] n w = tt
indices-Within [] (s ∷ sizes) n w = absurd w
indices-Within (i ∷ items) [] n w = absurd w
indices-Within (index i ∷ items) (s ∷ sizes) n (h, w) = (h, indices-Within items sizes n w)
indices-Within (slice _ _ _ ∷ items) (s ∷ sizes) n w = cc n

pub one-coord : (cs ds : List ℕ) → has_coords cs (ds ∷ []) ≡ shape_eq cs ds
one-coord cs ds = ground arith

no_more : (grid : List ℕ) → Within [] grid → length grid ≡ 0
no_more [] w = refl
no_more (s ∷ grid) w = absurd w

module _ (g : ℕ) (grid : List ℕ) where
  single-Covers :
      (src : List ℕ) (i : ℕ)
      → DstWithin (single i) (g ∷ grid)
      → (u : PipeUse) × Covers g grid (record { src = src; dst = single i }) u
  unfolding pipe_to_pipe_use node_in_dst_range expand_dst
  single-Covers src i (h, w) = (
    record { src = src; dst = node_coord (i ∷ []) },
    record {
      made = refl;
      src = refl;
      within = λ cs e.
          let same = shape_eq_iff cs (i ∷ []) (sym (one-coord cs (i ∷ [])) ∙ e) in
          subst (λ z. Within z (g ∷ grid)) (sym same) (h, w);
      same = λ nid.
          one-coord (coords g grid nid) (i ∷ [])
          ∙ ap (λ k. shape_eq (node (suc k) (g ∷ grid) nid) (i ∷ [])) (no_more grid w);
    },
  )

  tuple-Covers :
      (src : List ℕ) (items : List Item)
      → DstWithin (tuple items) (g ∷ grid)
      → (u : PipeUse) × Covers g grid (record { src = src; dst = tuple items }) u
  unfolding pipe_to_pipe_use node_in_dst_range expand_dst make_node_range IsRect
  tuple-Covers src items (w, kind) = elim (Bool-cases (has_slice items)) [
    | inl slices ↦
        let ((lo, hi), (er, len, checked, covered)) = items-IsRect items (g ∷ grid) w in
        let all = λ (cs : List ℕ). cartesian_product-has cs (axis_ranges lo hi) ∙ covered cs in
        (
          record { src = src; dst = node_range lo hi },
          record {
            made = rw (slices, er, (==_iff (length lo) (length hi)).1 len, checked) refl;
            src = refl;
            within = λ cs h. in_items-Within items (g ∷ grid) cs w (sym (all cs) ∙ h);
            same = λ nid.
                rw (slices, ItemsWithin-length items (g ∷ grid) w, grid_size_self g grid)
                  (all (coords g grid nid));
          },
        )
    | inr plain ↦ (
      record { src = src; dst = node_coord (indices items) },
      record {
        made = rw plain refl;
        src = refl;
        within = λ cs h.
            let same = shape_eq_iff cs (indices items) (sym (one-coord cs (indices items)) ∙ h) in
            subst (λ z. Within z (g ∷ grid)) (sym same) (indices-Within items (g ∷ grid) plain w);
        same = λ nid.
            let several : length items == 1 ≡ false = ground arith in
            one-coord (coords g grid nid) (indices items)
            ∙ rw (plain, several, ItemsWithin-length items (g ∷ grid) w) refl;
      },
    )
  ]

  -- Such a destination's pipe is used as one that covers its nodes.
  pub pipe-Covers : (p : Pipe) → DstWithin p.dst (g ∷ grid) → (u : PipeUse) × Covers g grid p u
  pipe-Covers p w =
      elim p.dst
          as (λ d.
            DstWithin d (g ∷ grid)
            → (u : PipeUse) × Covers g grid (record { src = p.src; dst = d }) u) [
              | single i ↦ single-Covers p.src i
              | tuple items ↦ tuple-Covers p.src items
            ]
        w
