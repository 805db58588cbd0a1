-- ===== src/BlockAllocation/Ranges.antt =====
-- `num_nodes_to_grid_ranges`: which nodes its ranges cover.
use ml_tt_lang.Prelude.{
  ℕ, ◌+◌, ◌-◌, ◌*◌, ◌≤◌, ◌<◌, ◌≡◌, refl, ap, ◌∙◌, Bool, true, false, List, [], ◌∷◌, ◌++◌, map,
  arith, length, replicate, length-append, length-replicate, if◌then◌else◌, le→leb, lt→ltb, ==_iff,
}
use ml_tt_lang.Result.{ok}
use ml_tt_lang.BlockAllocation.{
  Coord, Range, Span, last_or, second_last_or, remove_leading_ones, fill, coord, to_range,
  available, num_nodes_to_grid_ranges,
}
use ml_tt_lang.BlockAllocation.Cells.{upto, span_cells, cells, fill-cells}

-- The two extents of a grid in the order of filling: nodes to a line, and lines.
abbrev pub line_size : List ℕ → Bool → ℕ
line_size grid row_wise = if row_wise then last_or 1 grid else second_last_or 1 grid

abbrev pub line_count : List ℕ → Bool → ℕ
line_count grid row_wise = if row_wise then second_last_or 1 grid else last_or 1 grid

-- A coordinate by its line and its place in the line, and back.
abbrev pub at : ℕ → Bool → ℕ → ℕ → Coord
at rank row_wise line place = if row_wise then coord rank line place else coord rank place line

abbrev pub line_of : Bool → Coord → ℕ
line_of row_wise c = if row_wise then second_last_or 0 c else last_or 0 c

abbrev pub place_of : Bool → Coord → ℕ
place_of row_wise c = if row_wise then last_or 0 c else second_last_or 0 c

-- The numbers of the nodes of an inclusive range, in the order of filling.
abbrev pub range_cells : List ℕ → Bool → Range → List ℕ
range_cells grid row_wise r = span_cells (line_size grid row_wise) (record {
  first_line = line_of row_wise r.0;
  first = place_of row_wise r.0;
  last_line = line_of row_wise r.1;
  last = place_of row_wise r.1;
})

abbrev pub group_cells : List ℕ → Bool → List Range → List ℕ
group_cells grid row_wise [] = []
group_cells grid row_wise (r ∷ rs) = range_cells grid row_wise r ++ group_cells grid row_wise rs

pub last_or-pair : (d : ℕ) (xs : List ℕ) (y x : ℕ) → last_or d (xs ++ (y ∷ x ∷ [])) ≡ x
unfolding last_or
last_or-pair d [] y x = refl
last_or-pair d (z ∷ zs) y x = last_or-pair z zs y x

pub second_last_or-pair :
    (d : ℕ) (xs : List ℕ) (y x : ℕ) → second_last_or d (xs ++ (y ∷ x ∷ [])) ≡ y
unfolding second_last_or
second_last_or-pair d [] y x = refl
second_last_or-pair d (z ∷ []) y x = refl
second_last_or-pair d (z ∷ w ∷ []) y x = refl
second_last_or-pair d (z ∷ w ∷ v ∷ zs) y x = second_last_or-pair d (w ∷ v ∷ zs) y x

pub line_of-at : (rank : ℕ) (r : Bool) (line place : ℕ) → line_of r (at rank r line place) ≡ line
line_of-at rank true line place = second_last_or-pair 0 (replicate (rank - 2) 0) line place
line_of-at rank false line place = last_or-pair 0 (replicate (rank - 2) 0) place line

pub place_of-at : (rank : ℕ) (r : Bool) (line place : ℕ) → place_of r (at rank r line place) ≡ place
place_of-at rank true line place = last_or-pair 0 (replicate (rank - 2) 0) line place
place_of-at rank false line place = second_last_or-pair 0 (replicate (rank - 2) 0) place line

pub to_range-at :
    (rank : ℕ) (r : Bool) (s : Span)
    → to_range rank r s ≡ (at rank r s.first_line s.first, at rank r s.last_line s.last)
unfolding to_range
to_range-at rank true s = refl
to_range-at rank false s = refl

pub group_cells-map :
    (grid : List ℕ) (r : Bool) (rank : ℕ) (ss : List Span)
    → group_cells grid r (map (to_range rank r) ss) ≡ cells (line_size grid r) ss
group_cells-map grid r rank [] = refl
group_cells-map grid r rank (s ∷ ss) =
    rw (
      to_range-at,
      line_of-at,
      line_of-at,
      place_of-at,
      place_of-at,
      group_cells-map grid r rank ss,
    )

pub length-at : (rank : ℕ) (r : Bool) (l p : ℕ) → 2 ≤ rank → length (at rank r l p) ≡ rank
length-at rank true l p h = omega (
  arith,
  length-append (replicate (rank - 2) 0) (l ∷ p ∷ []),
  length-replicate (rank - 2) (let z : ℕ = 0 in z),
)
length-at rank false l p h = omega (
  arith,
  length-append (replicate (rank - 2) 0) (p ∷ l ∷ []),
  length-replicate (rank - 2) (let z : ℕ = 0 in z),
)

available-enough : (c s l p n : ℕ) → l < c → p < s → l * s + p + n ≤ c * s → n ≤ available c s l p
available-enough c s l p n hl hp h =
    let e : c ≡ l + 1 + (c - 1 - l) = omega arith in omega (arith, ap (λ (t : ℕ). t * s) e)

-- From a place in the grid with `t` nodes left, the ranges are those of `fill`.
pub num_nodes_to_grid_ranges-fill :
    (grid : List ℕ) (r : Bool) (line place t : ℕ)
    → 2 ≤ length grid
    → length (remove_leading_ones grid) ≤ 2
    → line < line_count grid r
    → place < line_size grid r
    → line * line_size grid r + place + t ≤ line_count grid r * line_size grid r
    → num_nodes_to_grid_ranges (at (length grid) r line place) t grid r
      ≡ ok (map (to_range (length grid) r) (fill (line_size grid r) line place t))
unfolding num_nodes_to_grid_ranges
num_nodes_to_grid_ranges-fill grid true line place t h2 flat hl hp room =
    rw
      (
        length-at (length grid) true line place h2,
        (==_iff (length grid) (length grid)).1 refl,
        le→leb (length (remove_leading_ones grid)) 2 flat,
        second_last_or-pair 0 (replicate (length grid - 2) 0) line place,
        last_or-pair 0 (replicate (length grid - 2) 0) line place,
        lt→ltb _ _ hl,
        lt→ltb _ _ hp,
        le→leb _ _
            (available-enough (line_count grid true) (line_size grid true) line place t hl hp room),
      )
      refl
num_nodes_to_grid_ranges-fill grid false line place t h2 flat hl hp room =
    rw
      (
        length-at (length grid) false line place h2,
        (==_iff (length grid) (length grid)).1 refl,
        le→leb (length (remove_leading_ones grid)) 2 flat,
        last_or-pair 0 (replicate (length grid - 2) 0) place line,
        second_last_or-pair 0 (replicate (length grid - 2) 0) place line,
        lt→ltb _ _ hl,
        lt→ltb _ _ hp,
        le→leb _ _ (
            available-enough (line_count grid false) (line_size grid false) line place t hl hp
              room),
      )
      refl

-- From a node of a grid that is given with two dimensions or more, of which at most two stand
-- behind the leading ones, and with at least `t` nodes from there on in the order of filling, the
-- call succeeds, and its ranges cover exactly these `t` nodes, each once.
pub num_nodes_to_grid_ranges-covers :
    (grid : List ℕ) (r : Bool) (line place t : ℕ)
    → 2 ≤ length grid
    → length (remove_leading_ones grid) ≤ 2
    → line < line_count grid r
    → place < line_size grid r
    → line * line_size grid r + place + t ≤ line_count grid r * line_size grid r
    → (ranges : List Range) × (num_nodes_to_grid_ranges (at (length grid) r line place) t grid r
        ≡ ok ranges)
      × (group_cells grid r ranges ≡ upto (line * line_size grid r + place) t)
num_nodes_to_grid_ranges-covers grid r line place t h2 flat hl hp room = (
  map (to_range (length grid) r) (fill (line_size grid r) line place t),
  num_nodes_to_grid_ranges-fill grid r line place t h2 flat hl hp room,
  group_cells-map grid r (length grid) (fill (line_size grid r) line place t)
      ∙ fill-cells (line_size grid r) line place t hp,
)
