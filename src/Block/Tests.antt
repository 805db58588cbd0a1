-- ===== src/Block/Tests.antt =====
-- Concrete runs of the blocks: a reserved block of a compute kernel and a temporary block.
use ml_tt_lang.Prelude.{
  ℕ, zero, suc, arith, ◌+◌, ◌%◌, ◌≡◌, ◌≢◌, refl, Bool, true, false, none, some, List, [], ◌∷◌,
}
use ml_tt_lang.Result.{ok}
use ml_tt_lang.BlockState.{AccessState, ExpectedOp, push, pop, compute, reserve, wait}
use ml_tt_lang.BlockMachine.{mark}
use ml_tt_lang.Block.{
  tile, binary_op, create_temporary_result, track_sources_for_result, mark_assign_src_complete,
  confirm, tensor_at, Tensor, Block, Heap, new_block, store, sources_to_mark, mark_all_read,
  mark_block, check_can_write, transfer, member, mark_store_read_complete, block_at,
}
use ml_tt_lang.Block.Confirm.{is_pending}
use ml_tt_lang.Block.Tracked.{IsTracked, store-confirmed}
use ml_tt_lang.Block.Store.{contents, arriving, buf_of, store_delivers}

abbrev tensor : ℕ → Tensor ℕ
tensor n = record { shape = 32 ∷ 32 ∷ []; layout = tile; elements = n; cast = λ x. x % 10 }

abbrev heap : Heap ℕ
heap = record {
  tensors = tensor 5 ∷ tensor 7 ∷ tensor 9 ∷ [];
  blocks =
      new_block 0 (1 ∷ []) reserve compute false
      ∷ new_block 1 (1 ∷ []) reserve compute true
      ∷ new_block 2 (1 ∷ []) reserve compute true
      ∷ [];
  pending_confirmations = [];
}

-- The heap after the store of the first temporary block.
abbrev after : Heap ℕ
after = record heap {
  tensors = tensor 7 ∷ tensor 7 ∷ tensor 9 ∷ [];
  blocks =
      record (new_block 0 (1 ∷ []) reserve compute false) {
        machine = record {
          acquisition = reserve;
          kernel_type = compute;
          access_state = AccessState.mr;
          expected_ops = ExpectedOp.store_src ∷ push ∷ [];
          ror_count = 0;
        };
      }
      ∷ new_block 1 (1 ∷ []) reserve compute true
      ∷ new_block 2 (1 ∷ []) reserve compute true
      ∷ [];
}

store-after : store 0 1 heap ≡ ok (after, none)
unfolding store sources_to_mark mark_all_read mark_block check_can_write transfer mark new_block
store-after = refl

store_delivers_example :
    (contents after 0 ≡ arriving heap (buf_of heap 0) (buf_of heap 1))
    × ((j : ℕ) → j ≢ 0 → buf_of heap j ≢ buf_of heap 0 → contents after j ≡ contents heap j)
store_delivers_example = store_delivers 0 1 heap store-after

-- A wait() block, and the sum of it with itself, which is then stored.
abbrev consumed : Block
consumed = record (new_block 1 (1 ∷ []) wait compute false) { dfb = some 3 }

abbrev read_block : AccessState → List ExpectedOp → Bool → Block
read_block access ops pending = record consumed {
  machine = record {
    acquisition = wait;
    kernel_type = compute;
    access_state = access;
    expected_ops = ops;
    ror_count = 0;
  };
  store_confirmation_pending = pending;
}

abbrev sum_heap : Heap ℕ
sum_heap = record {
  tensors = tensor 5 ∷ tensor 7 ∷ [];
  blocks = new_block 0 (1 ∷ []) reserve compute false ∷ consumed ∷ [];
  pending_confirmations = [];
}

abbrev sum : Block
sum = record (new_block 2 (1 ∷ []) reserve compute true) { source_blocks = 1 ∷ 1 ∷ [] }

abbrev read_ops : List ExpectedOp
read_ops = ExpectedOp.store_src ∷ ExpectedOp.store ∷ pop ∷ []

abbrev summed : Heap ℕ
summed = record {
  tensors = tensor 5 ∷ tensor 7 ∷ tensor 14 ∷ [];
  blocks =
      new_block 0 (1 ∷ []) reserve compute false
      ∷ read_block AccessState.rw read_ops true
      ∷ sum
      ∷ [];
  pending_confirmations = 1 ∷ [];
}

abbrev sum_stored : Heap ℕ
sum_stored = record {
  tensors = tensor 4 ∷ tensor 7 ∷ tensor 14 ∷ [];
  blocks =
      record (new_block 0 (1 ∷ []) reserve compute false) {
        machine = record {
          acquisition = reserve;
          kernel_type = compute;
          access_state = AccessState.mr;
          expected_ops = ExpectedOp.store_src ∷ push ∷ [];
          ror_count = 0;
        };
      }
      ∷ read_block AccessState.rw read_ops false
      ∷ sum
      ∷ [];
  pending_confirmations = [];
}

binary_op-sum_heap :
    binary_op (λ t u. record t { elements = t.elements + u.elements }) 1 1 sum_heap ≡ ok (2, summed)
unfolding binary_op create_temporary_result track_sources_for_result new_block
    mark_assign_src_complete mark_block confirm mark block_at tensor_at
binary_op-sum_heap = refl

store-summed : store 0 2 summed ≡ ok (sum_stored, none)
unfolding store sources_to_mark mark_all_read mark_store_read_complete mark_block confirm
    check_can_write transfer mark new_block
store-summed = refl

summed-IsTracked : (j : ℕ) → IsTracked j summed
unfolding new_block
summed-IsTracked zero = refl
summed-IsTracked (suc zero) = refl
summed-IsTracked (suc (suc zero)) = refl
summed-IsTracked (suc (suc (suc j))) = ground arith

store-confirmed_example :
    IsTracked 1 sum_stored
    × (member 1 sum.source_blocks ≡ true
        → (is_pending sum_stored 1 ≡ false) × (member 1 sum_stored.pending_confirmations ≡ false))
    × (is_pending sum_stored 1 ≡ true → is_pending summed 1 ≡ true)
unfolding new_block
store-confirmed_example = store-confirmed 0 2 summed summed-IsTracked store-summed refl refl refl 1
