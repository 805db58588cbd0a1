-- ===== src/PipeNets/Tests.antt =====
-- The graph of two nets on a grid of 4 by 2 nodes.
use ml_tt_lang.Prelude.{
  ◌<◌, ℕ, ◌≡◌, ◌≤◌, ◌<◌, ◌+◌, ◌↔◌, refl, some, none, List, [], ◌∷◌, All, arith,
}
use ml_tt_lang.Result.{ok}
use ml_tt_lang.Block.{member}
use ml_tt_lang.Pipe.{validate_dst_slice, Pipe, index, slice, tuple}
use ml_tt_lang.PipeNets.{
  PipeNetUse, node_coord, node_range, build_pipenets, active_node_set, validate,
  num_pipe_sync_semaphores, num_pipe_global_semaphores, num_pipes, max_pipes_per_source,
}
use ml_tt_lang.PipeNets.Active.{PipeWithin, any_active, active_node_set-is_active}
use ml_tt_lang.PipeNets.Semaphores.{
  nets_from, max_pipes_per_source-most, num_pipe_sync_semaphores-count,
}
use ml_tt_lang.PipeNets.Validation.{IsValid, validate_iff}

-- From node (0, 0) to rows 1 and 2 of column 1, and from (3, 1) to (0, 1).
abbrev multicast : Pipe
multicast = record { src = 0 ∷ 0 ∷ []; dst = tuple (slice (some 1) (some 3) none ∷ index 1 ∷ []) }

abbrev back : Pipe
back = record { src = 3 ∷ 1 ∷ []; dst = tuple (index 0 ∷ index 1 ∷ []) }

abbrev two_nets : List (List Pipe)
two_nets = (multicast ∷ []) ∷ (back ∷ []) ∷ []

two_nets-PipeWithin : All (All (PipeWithin (4 ∷ 2 ∷ []))) two_nets
unfolding validate_dst_slice
two_nets-PipeWithin = (
  (((omega arith, (omega arith, tt)), (((refl, omega arith), (omega arith, tt)), refl)), tt),
  ((((omega arith, (omega arith, tt)), ((omega arith, (omega arith, tt)), refl)), tt), tt),
)

active_node_set-is_active_example :
    (graph : List PipeNetUse) × (active : List ℕ) × (build_pipenets two_nets ≡ ok graph)
    × (active_node_set (4 ∷ 2 ∷ []) graph ≡ ok (some active))
    × ((nid : ℕ) → nid < 8 → member nid active ≡ any_active (4 ∷ 2 ∷ []) nid two_nets)
active_node_set-is_active_example =
    active_node_set-is_active 4 (2 ∷ []) (multicast ∷ []) ((back ∷ []) ∷ []) two_nets-PipeWithin

abbrev uses : List PipeNetUse
uses =
    record {
      id = 0;
      pipes =
          record { src = 0 ∷ 0 ∷ []; dst = node_range (1 ∷ 1 ∷ []) (3 ∷ 2 ∷ []) }
          ∷ record { src = 0 ∷ 0 ∷ []; dst = node_range (0 ∷ 0 ∷ []) (1 ∷ 2 ∷ []) }
          ∷ [];
    }
    ∷ record { id = 1; pipes = record { src = 3 ∷ 1 ∷ []; dst = node_coord (0 ∷ 1 ∷ []) } ∷ [] }
    ∷ []

most_of_uses :
    ((s : List ℕ) → nets_from s uses ≤ max_pipes_per_source uses)
    × ((s : List ℕ) × (nets_from s uses ≡ max_pipes_per_source uses))
most_of_uses = max_pipes_per_source-most uses

num_pipe_sync_semaphores-count_example :
    (s : List ℕ) × ((s' : List ℕ) → nets_from s' uses ≤ nets_from s uses)
    × (2 + nets_from s uses ≤ 16
        → (num_pipe_sync_semaphores uses ≡ 2 + nets_from s uses)
          × (num_pipe_global_semaphores uses ≡ 0))
    × (16 < 2 + nets_from s uses
        → (num_pipe_sync_semaphores uses ≡ 2) × (num_pipe_global_semaphores uses ≡ num_pipes uses))
num_pipe_sync_semaphores-count_example = num_pipe_sync_semaphores-count uses

validate_iff_example : (validate uses ≡ ok tt) ↔ IsValid uses
validate_iff_example = validate_iff uses
