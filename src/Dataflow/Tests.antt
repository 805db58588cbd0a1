-- ===== src/Dataflow/Tests.antt =====
-- A buffer of two blocks of one tile, whose producer is greenlet 0 and whose consumer is greenlet 1.
use ml_tt_lang.Prelude.{
  ℕ, ◌≤◌, ◌≡◌, ◌≢◌, ◌↔◌, refl, true, false, none, some, List, [], ◌∷◌, set, arith,
}
use ml_tt_lang.Result.{ok}
use ml_tt_lang.BlockState.{dm, compute, BlockAcquisition}
use ml_tt_lang.BlockMachine.{init, copy_as_dest, tx_wait_complete, store_read_complete}
use ml_tt_lang.DfbState
use ml_tt_lang.DfbState.{reset, reserve_slot, free, back_slot}
use ml_tt_lang.Block.{tile}
use ml_tt_lang.Dataflow.{
  Dataflow, hand_out, create, element_shape, check_dims, tile_element_shape, all_positive, can_wait,
  pop_block, reserve_begin, reserve_end, wait_end,
}
use ml_tt_lang.Dataflow.Shape.{Fits, create-Fits}
use ml_tt_lang.Dataflow.Tracks.{Tracks}
use ml_tt_lang.Dataflow.Consumer.{wait_end-ready, pop_block-unread}
use ml_tt_lang.Dataflow.Session.{
  Event, reserve_called, reserve_returned, wait_called, wait_returned, producer_marks,
  consumer_marks, Session,
}
use ml_tt_lang.DfbState.Fifo.{Represents, chan}
use ml_tt_lang.Dataflow.{reset_buffer, validate_no_pending_blocks}
use ml_tt_lang.Dataflow.Reset.{reset_buffer-pending, validate_no_pending_blocks_iff}
use ml_tt_lang.Dataflow.Sharing.{reserve-shared}

abbrev likeness : List ℕ
likeness = 64 ∷ 64 ∷ []

abbrev tile_shape : List ℕ
tile_shape = 1 ∷ 1 ∷ []

abbrev empty : Dataflow ℕ
empty = record {
  shape = tile_shape;
  element_shape = 32 ∷ 32 ∷ [];
  state = record { cap = 2; buf = none ∷ none ∷ []; head = 0; visible = 0; reserved = 0 };
  reserved_block = none;
  waited_block = none;
  pending_confirmations = [];
}

create-empty : create ℕ likeness tile tile_shape 2 ≡ ok empty
unfolding create element_shape check_dims tile_element_shape DfbState.init
create-empty = refl

create-Fits_example :
    Fits empty.element_shape likeness × (all_positive empty.shape ≡ true) × (1 ≤ empty.state.cap)
create-Fits_example = create-Fits ℕ likeness tile_shape 2 create-empty

-- The producer fills a block, and pushes it by reserving the next; the consumer reads it and gives it
-- back by waiting again.
abbrev exchange : List (Event ℕ)
exchange =
    reserve_called
    ∷ reserve_returned 7
    ∷ producer_marks copy_as_dest
    ∷ producer_marks tx_wait_complete
    ∷ wait_called
    ∷ reserve_called
    ∷ wait_returned
    ∷ reserve_returned 8
    ∷ consumer_marks store_read_complete
    ∷ wait_called
    ∷ []

abbrev exchanged : Session ℕ
exchanged = record {
  buffer = record empty {
    state = record { cap = 2; buf = none ∷ some 8 ∷ []; head = 1; visible = 0; reserved = 1 };
    reserved_block = some (hand_out 0 BlockAcquisition.reserve dm 8);
  };
  reserving = false;
  waiting = true;
  sent = 7 ∷ 8 ∷ [];
  received = 7 ∷ [];
}

-- The empty buffer with one tensor that was reserved and pushed.
abbrev full : Dataflow ℕ
full = record empty {
  state = record { cap = 2; buf = some 7 ∷ none ∷ []; head = 0; visible = 1; reserved = 0 };
}

full-Tracks : Tracks 0 1 full 2 (7 ∷ []) none
full-Tracks = record {
  ring = record {
    size = refl;
    inside = omega arith;
    capacity = refl;
    visible = refl;
    reserved = refl;
    fits = omega arith;
    slots = refl;
  };
  writing = tt;
  reading = tt;
}

wait_end-ready_example :
    (can_wait full ≡ true → (d' : Dataflow ℕ) × (wait_end 1 compute full ≡ ok d'))
    × ((can_wait full ≡ true) ↔ (◌≢◌ {A = List ℕ} (7 ∷ []) []))
wait_end-ready_example = wait_end-ready 0 1 compute (7 ∷ []) full full-Tracks

pop_block-unread_example : (d' : Dataflow ℕ) × (pop_block full ≡ ok d') × Tracks 0 1 d' 2 [] none
pop_block-unread_example = pop_block-unread 0 1 full full-Tracks refl

abbrev reserved : ℕ → ℕ → ℕ → Dataflow ℕ
reserved g a n = record empty {
  state = record { cap = 2; buf = some a ∷ none ∷ []; head = 0; visible = 0; reserved = n };
  reserved_block = some (hand_out g BlockAcquisition.reserve dm a);
}

reserve-shared_example :
    (reserve_begin 5 (reserved 0 7 1) ≡ ok (reserved 0 7 1))
    × ((reserved 0 7 1).state.buf ≡ set empty.state.buf (back_slot empty.state) (some 7))
    × ((reserved 5 8 2).state.buf ≡ set (reserved 0 7 1).state.buf (back_slot empty.state) (some 8))
unfolding reserve_end reserve_slot
reserve-shared_example =
    reserve-shared 0 5 dm dm 7 8 empty (reserved 0 7 1) (reserved 5 8 2) (omega arith) refl refl

reset_exchange :
    Represents (reset_buffer exchanged.buffer).state (chan 2 [] none)
    × (validate_no_pending_blocks (reset_buffer exchanged.buffer)
        ≡ validate_no_pending_blocks exchanged.buffer)
reset_exchange = reset_buffer-pending exchanged.buffer (omega arith)

checked_exchange : (validate_no_pending_blocks exchanged.buffer ≡ ok tt) ↔ (
    (exchanged.buffer.reserved_block ≡ none)
    × (exchanged.buffer.waited_block ≡ none)
    × (exchanged.buffer.pending_confirmations ≡ []))
checked_exchange = validate_no_pending_blocks_iff exchanged.buffer
