-- ===== src/Copy/Tests.antt =====
-- Copies in a data-movement kernel of node 1: from a tensor to a reserved block, and from a filled
-- block to a pipe whose receiver is the node itself.
use ml_tt_lang.Prelude.{ℕ, ◌%◌, ◌≡◌, refl, true, false, some, [], ◌∷◌, All, get_elem?, set}
use ml_tt_lang.Result.{Result, ok, err}
use ml_tt_lang.BlockState.{dm, reserve, wait}
use ml_tt_lang.BlockMachine.{mark}
use ml_tt_lang.Block.{Tensor, Block, Heap, tile, new_block, mark_block, block_at, tensor_at}
use ml_tt_lang.Pipe.{Pipe, single}
use ml_tt_lang.Copy.{
  Endpoint, tensor, block, pipe, tensor_to_block, block_to_pipe, CopyError, Transaction, World,
  lookup_handler, start, copy, finish, transfer, fill_block, check_match, tile_count, mark_endpoint,
  validate, starts_on_copy, can_wait, GroupTransfer, add_transfer, add_after_wait, waited_twice,
  wait_all, wait_each,
}
use ml_tt_lang.Copy
use ml_tt_lang.Copy.Outcome.{Outcome}
use ml_tt_lang.Copy.Parts.{IsCompleted}
use ml_tt_lang.Copy.Delivers.{wait-Outcome}
use ml_tt_lang.Copy.Group.{wait_all-IsCompleted}

abbrev numbers : ℕ → Tensor ℕ
numbers n = record { shape = 32 ∷ 32 ∷ []; layout = tile; elements = n; cast = λ x. x % 10 }

abbrev world : World ℕ
world = record {
  heap = record {
    tensors = numbers 5 ∷ numbers 7 ∷ numbers 9 ∷ [];
    blocks = new_block 1 (1 ∷ []) reserve dm false ∷ new_block 2 (1 ∷ []) wait dm false ∷ [];
    pending_confirmations = [];
  };
  pipe_buffer = [];
  transactions = [];
  slots = [];
}

abbrev pipe_at : ℕ → Pipe
pipe_at p = record { src = 0 ∷ []; dst = single 1 }

abbrev state_of : Result CopyError (ℕ × World ℕ) → World ℕ
state_of (ok r) = r.1
state_of (err e) = world

abbrev world_of : Result CopyError (World ℕ) → World ℕ
world_of (ok w) = w
world_of (err e) = world

-- While the kernel waits, another one writes the tensor 2.
abbrev meanwhile : ℕ → World ℕ → World ℕ
meanwhile i w = record w { heap = record w.heap { tensors = set w.heap.tensors 2 (numbers 4) } }

meanwhile-own : (i : ℕ) (w : World ℕ) → (meanwhile i w).transactions ≡ w.transactions
meanwhile-own i w = refl

-- The tensor 0 on its way to the block 0, and there.
abbrev started : World ℕ
started = state_of (start pipe_at (4 ∷ []) 1 (tensor 0) (block 0) world)

abbrev filled : World ℕ
filled = world_of (ml_tt_lang.Copy.wait pipe_at (4 ∷ []) 1 meanwhile 0 started)

abbrev to_block : Transaction
to_block = record {
  src = tensor 0;
  dst = block 0;
  handler = tensor_to_block 0 0;
  completed = false;
  transfer_performed = false;
}

to_block-started : get_elem? started.transactions 0 ≡ some to_block
unfolding start lookup_handler mark_endpoint mark_block mark new_block validate tensor_at
    starts_on_copy
to_block-started = refl

wait-filled : ml_tt_lang.Copy.wait pipe_at (4 ∷ []) 1 meanwhile 0 started ≡ ok filled
unfolding start ml_tt_lang.Copy.wait lookup_handler mark_endpoint mark_block mark new_block validate
    tensor_at starts_on_copy can_wait transfer fill_block ml_tt_lang.Block.transfer
wait-filled = refl

wait-Outcome_example :
    Outcome 1 (tensor_to_block 0 0) (meanwhile 0 started) filled × IsCompleted 0 filled
wait-Outcome_example =
    wait-Outcome pipe_at (4 ∷ []) 1 meanwhile meanwhile-own 0 to_block started to_block-started refl
      refl wait-filled

-- The block 1 sent on the pipe 0, by a copy that waits at once.
abbrev sent : World ℕ
sent = state_of (copy pipe_at (4 ∷ []) 1 meanwhile true (block 1) (pipe 0) world)

abbrev group : GroupTransfer
group = record { transfers = 0 ∷ []; waited = false }

wait_all-filled :
    wait_all pipe_at (4 ∷ []) 1 meanwhile group started
    ≡ ok (record group { waited = true }, filled)
unfolding wait_all ml_tt_lang.Copy.wait start lookup_handler mark_endpoint mark_block mark new_block
    validate tensor_at starts_on_copy can_wait transfer fill_block ml_tt_lang.Block.transfer
wait_all-filled = refl

wait_all-IsCompleted_example :
    All (λ i. IsCompleted i filled) (0 ∷ [])
    × ((i : ℕ) → add_transfer i (record group { waited = true }) ≡ err add_after_wait)
    × ((v : World ℕ)
        → wait_all pipe_at (4 ∷ []) 1 meanwhile (record group { waited = true }) v
          ≡ err waited_twice)
wait_all-IsCompleted_example =
    wait_all-IsCompleted pipe_at (4 ∷ []) 1 meanwhile meanwhile-own group started wait_all-filled
