-- ===== src/BlockAllocation/Shares.antt =====
-- The three ways in which `split_work_to_nodes` divides the units on a two-dimensional grid.
use native.Mathlib.Nat.{mod-add-div'}
use mathlib.Core.List.{append-nil}
use ml_tt_lang.Prelude.{
  ℕ, ◌+◌, ◌-◌, ◌*◌, ◌/◌, ◌%◌, ◌≤◌, ◌<◌, ◌≡◌, ◌≢◌, refl, sym, ap, ◌∙◌, Bool, true, false, List, [],
  ◌∷◌, map, arith, length, ◌==◌, min, ==_iff, Bool-cases, inl, inr,
}
use ml_tt_lang.Result.{ok}
use ml_tt_lang.BlockAllocation.{
  Range, Split, split, last_or, second_last_or, remove_leading_ones, fill, coord, to_range,
  num_nodes_to_grid_ranges, origin, next_start, split_uneven, split_2d, assign_2d,
}
use ml_tt_lang.BlockAllocation.Cells.{upto, whole_lines, fill-cells}
use ml_tt_lang.BlockAllocation.Plane.{fill-last, next_start-at, origin-at}
use ml_tt_lang.BlockAllocation.Ranges.{
  line_size, line_count, at, group_cells, num_nodes_to_grid_ranges-fill,
  num_nodes_to_grid_ranges-covers, group_cells-map, line_of-at, place_of-at,
}

-- How `s` divides the units: group 1 is the first `nodes_1` nodes in the order of filling, group 2
-- the `nodes_2` nodes behind them; all units are given out, to as many nodes as there are units, or
-- to all, and a node of group 1 has one unit more than one of group 2.
pub record Divides (grid : List ℕ) (r : Bool) (total units : ℕ) (s : Split) : Type 0 where
  pub nodes_1 : ℕ
  pub nodes_2 : ℕ
  pub cells_1 : group_cells grid r s.group_1 ≡ upto 0 nodes_1
  pub cells_2 : group_cells grid r s.group_2 ≡ upto nodes_1 nodes_2
  pub all_nodes : s.num_nodes ≡ nodes_1 + nodes_2
  pub used : s.num_nodes ≡ min units total
  pub all_units : nodes_1 * s.work_1 + nodes_2 * s.work_2 ≡ units
  pub even : 1 ≤ nodes_2 → s.work_1 ≡ s.work_2 + 1

module _ (grid : List ℕ) (r : Bool) (total : ℕ) where
  -- What is known of a plane grid.
  pub record IsPlane : Type 0 where
    pub rank : 2 ≤ length grid
    pub flat : length (remove_leading_ones grid) ≡ 2
    pub size : total ≡ line_count grid r * line_size grid r
    pub some_node : 1 ≤ total
    pub some_line : 1 ≤ line_count grid r
    pub some_place : 1 ≤ line_size grid r

  -- The ranges of the first `t` nodes.
  first_spans : ℕ → List Range
  first_spans t = map (to_range (length grid) r) (fill (line_size grid r) 0 0 t)

  first_ranges :
      IsPlane
      → (t : ℕ) → t ≤ total
      → (num_nodes_to_grid_ranges (origin (length grid)) t grid r ≡ ok (first_spans t))
        × (group_cells grid r (first_spans t) ≡ upto 0 t)
  unfolding first_spans
  first_ranges v t few =
      let start : 0 * line_size grid r + 0 ≡ 0 = omega arith in
      (
        rw (origin-at (length grid) r v.rank) (
            num_nodes_to_grid_ranges-fill grid r 0 0 t v.rank (omega (arith, v.flat)) v.some_line
              v.some_place (omega (arith, v.size))),
        group_cells-map grid r (length grid) (fill (line_size grid r) 0 0 t)
            ∙ fill-cells (line_size grid r) 0 0 t v.some_place
            ∙ ap (λ k. upto k t) start,
      )

  pub assign_2d-Divides :
      IsPlane
      → (units : ℕ) → units ≤ total
      → (s : Split) × (assign_2d grid units r ≡ ok s) × Divides grid r total units s
  unfolding assign_2d
  assign_2d-Divides v units few =
      let (e, c) = first_ranges v units few in
      (
        split units (first_spans units) [] 1 0,
        rw e refl,
        record {
          nodes_1 = units;
          nodes_2 = 0;
          cells_1 = c;
          cells_2 = refl;
          all_nodes = omega arith;
          used = omega arith;
          all_units = omega arith;
          even = λ h. absurd (omega arith);
        },
      )

  -- The one range of an even division.
  whole_grid :
      IsPlane
      → group_cells grid r (
          (
            origin (length grid),
            coord (length grid) (second_last_or 1 grid - 1) (last_or 1 grid - 1),
          )
          ∷ [])
        ≡ upto 0 total
  whole_grid v =
      rw (origin-at (length grid) r v.rank, corner r)
        (rw (line_of-at, place_of-at, line_of-at, place_of-at, append-nil, width, height)
          (whole_lines (line_size grid r) 0 (line_count grid r)
            ∙ ap (λ k. upto k (line_count grid r * line_size grid r)) start
            ∙ ap (upto 0) (sym v.size)))
    where
      width : line_size grid r - 1 + 1 - 0 ≡ line_size grid r
      width = omega (arith, v.some_place)

      height : line_count grid r - 1 + 1 - 0 ≡ line_count grid r
      height = omega (arith, v.some_line)

      start : 0 * line_size grid r ≡ 0
      start = omega arith

      corner :
          (b : Bool)
          → coord (length grid) (second_last_or 1 grid - 1) (last_or 1 grid - 1)
            ≡ at (length grid) b (line_count grid b - 1) (line_size grid b - 1)
      corner true = refl
      corner false = refl

  pub split_even-Divides :
      IsPlane
      → (units : ℕ) → units % total ≡ 0
      → total < units
      → (s : Split) × (split_2d grid total units r ≡ ok s) × Divides grid r total units s
  unfolding split_2d
  split_even-Divides v units e many = (
    split total
        ((
          origin (length grid),
          coord (length grid) (second_last_or 1 grid - 1) (last_or 1 grid - 1),
        )
          ∷ [])
        [] (units / total) 0,
    rw ((==_iff (units % total) 0).1 e) refl,
    record {
      nodes_1 = total;
      nodes_2 = 0;
      cells_1 = whole_grid v;
      cells_2 = refl;
      all_nodes = omega arith;
      used = omega arith;
      all_units = omega (arith, mod-add-div' units total);
      even = λ h. absurd (omega arith);
    },
  )

  -- The ranges of the nodes behind a node `(l, p)`, the last one of group 1.
  next_ranges :
      IsPlane
      → (l p more : ℕ) → l * line_size grid r + p + 1 ≡ more
      → p < line_size grid r
      → more < total
      → (ranges : List Range) × (num_nodes_to_grid_ranges
            (next_start
              (length grid)
              (last_or 1 grid)
              (second_last_or 1 grid)
              r
              (second_last_or 0 (at (length grid) r l p))
              (last_or 0 (at (length grid) r l p)))
            (total - more)
            grid
            r
          ≡ ok ranges)
        × (group_cells grid r ranges ≡ upto more (total - more))
  next_ranges v l p more e hp less = elim (Bool-cases (p == line_size grid r - 1)) [
    | inl end ↦
        let h = (==_iff p (line_size grid r - 1)).0 end in
        let here : (l + 1) * line_size grid r + 0 ≡ more = omega (arith, v.some_place) in
        let (ranges, f, c) =
          num_nodes_to_grid_ranges-covers grid r (l + 1) 0 (total - more) v.rank
            (omega (arith, v.flat)) (line_bound (l + 1) 0 (omega (arith, v.size))) v.some_place
            (omega (arith, v.size)) in
        (ranges, rw (next_start-at, end) f, c ∙ ap (λ t. upto t (total - more)) here)
    | inr inside ↦
        let h : p ≢ line_size grid r - 1 = ground arith in
        let here : l * line_size grid r + (p + 1) ≡ more = omega arith in
        let (ranges, f, c) =
          num_nodes_to_grid_ranges-covers grid r l (p + 1) (total - more) v.rank
            (omega (arith, v.flat)) (line_bound l (p + 1) (omega (arith, v.size)))
            (omega (arith, v.some_place)) (omega (arith, v.size)) in
        (ranges, rw (next_start-at, inside) f, c ∙ ap (λ t. upto t (total - more)) here)
  ]
    where
      line_bound :
          (k q : ℕ)
          → k * line_size grid r + q < line_count grid r * line_size grid r
          → k < line_count grid r
      line_bound k q h = grind arith

  pub split_uneven-Divides :
      IsPlane
      → (units : ℕ) → 1 ≤ units % total
      → total < units
      → (s : Split) × (split_2d grid total units r ≡ ok s) × Divides grid r total units s
  unfolding split_2d split_uneven
  split_uneven-Divides v units e many =
      let more = units % total in
      let less : more < total = omega (arith, v.some_node) in
      let (l, p, last, here, hp) =
        fill-last (length grid) r (line_size grid r) more v.some_place e in
      let (group_2, f, c) = next_ranges v l p more here hp less in
      let (g, d) = first_ranges v more (omega arith) in
      let uneven : (units % total == 0) ≡ false = ground arith in
      (
        split total (first_spans more) group_2 (units / total + 1) (units / total),
        rw (uneven, g) (unfold first_spans in rw (last, f) refl),
        record {
          nodes_1 = more;
          nodes_2 = total - more;
          cells_1 = d;
          cells_2 = c;
          all_nodes = omega arith;
          used = omega arith;
          all_units =
              shares units total (units / total) more (omega arith)
                (omega (arith, mod-add-div' units total));
          even = λ h. refl;
        },
      )
    where
      shares : (u t w m : ℕ) → m ≤ t → u ≡ m + w * t → m * (w + 1) + (t - m) * w ≡ u
      shares u t w m h e = let f : t ≡ m + (t - m) = omega arith in omega (arith, ap (λ k. k * w) f)
