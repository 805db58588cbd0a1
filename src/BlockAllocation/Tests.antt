-- ===== src/BlockAllocation/Tests.antt =====
-- Runs of the division of work, and the theorems at concrete grids.
use ml_tt_lang.Prelude.{ℕ, ◌≡◌, refl, true, false, some, none, List, [], ◌∷◌, arith}
use ml_tt_lang.Result.{ok, err}
use ml_tt_lang.BlockAllocation.{
  Range, Split, split, num_nodes_to_grid_ranges, split_work_to_nodes, get_number_of_nodes,
  number_of_nodes_from, remove_leading_ones, last_or, second_last_or, fill, fill_full, fill_end,
  to_range, last_end, next_start, split_2d, split_uneven, assign_2d, split_by_rank, one_device,
  exceeds_available,
}
use ml_tt_lang.BlockAllocation.Cells.{upto}
use ml_tt_lang.BlockAllocation.Ranges.{group_cells, num_nodes_to_grid_ranges-covers}
use ml_tt_lang.BlockAllocation.Shares.{Divides}
use ml_tt_lang.BlockAllocation.Work.{split_work_to_nodes-Divides, split_work_to_nodes-single}

abbrev three_by_four : List ℕ
three_by_four = 3 ∷ 4 ∷ []

-- From node (0, 2), seven nodes by rows: the rest of the row, a row, and one node.
seven_nodes :
    num_nodes_to_grid_ranges (0 ∷ 2 ∷ []) 7 three_by_four true
    ≡ ok ((0 ∷ 2 ∷ [], 0 ∷ 3 ∷ []) ∷ (1 ∷ 0 ∷ [], 1 ∷ 3 ∷ []) ∷ (2 ∷ 0 ∷ [], 2 ∷ 0 ∷ []) ∷ [])
unfolding num_nodes_to_grid_ranges last_or second_last_or remove_leading_ones fill fill_full
    fill_end to_range
seven_nodes = refl

too_many_nodes : num_nodes_to_grid_ranges (0 ∷ 2 ∷ []) 11 three_by_four true ≡ err exceeds_available
unfolding num_nodes_to_grid_ranges last_or second_last_or remove_leading_ones fill fill_full
    fill_end to_range
too_many_nodes = refl

-- 17 units on 12 nodes by columns: five nodes get two, seven get one.
seventeen_units :
    split_work_to_nodes three_by_four 17 false
    ≡ ok (
        some (
          split 12
            ((0 ∷ 0 ∷ [], 2 ∷ 0 ∷ []) ∷ (0 ∷ 1 ∷ [], 1 ∷ 1 ∷ []) ∷ [])
            ((2 ∷ 1 ∷ [], 2 ∷ 1 ∷ []) ∷ (0 ∷ 2 ∷ [], 2 ∷ 3 ∷ []) ∷ [])
            2
            1))
unfolding split_work_to_nodes one_device split_by_rank split_2d split_uneven assign_2d last_end
    next_start get_number_of_nodes number_of_nodes_from num_nodes_to_grid_ranges last_or
    second_last_or remove_leading_ones fill fill_full fill_end to_range
seventeen_units = refl

num_nodes_to_grid_ranges-covers_example :
    (ranges : List Range) × (num_nodes_to_grid_ranges (0 ∷ 2 ∷ []) 7 three_by_four true ≡ ok ranges)
    × (group_cells three_by_four true ranges ≡ upto 2 7)
unfolding remove_leading_ones last_or second_last_or
num_nodes_to_grid_ranges-covers_example =
    num_nodes_to_grid_ranges-covers three_by_four true 0 2 7 (omega arith) (omega arith)
      (omega arith) (omega arith) (omega arith)

split_work_to_nodes-Divides_example :
    (s : Split) × (split_work_to_nodes three_by_four 17 false ≡ ok (some s))
    × Divides three_by_four false 12 17 s
unfolding remove_leading_ones get_number_of_nodes number_of_nodes_from
split_work_to_nodes-Divides_example =
    split_work_to_nodes-Divides three_by_four 17 false refl refl (omega arith)

split_work_to_nodes-single_example : split_work_to_nodes (1 ∷ 1 ∷ []) 5 true ≡ ok none
unfolding remove_leading_ones
split_work_to_nodes-single_example =
    split_work_to_nodes-single (1 ∷ 1 ∷ []) 5 true refl (omega arith)
