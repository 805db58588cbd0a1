-- ===== src/Dataflow.antt =====
-- python/sim/dfb.py, class `DataflowBuffer`: the ring with the blocks that `reserve` and `wait` handed
-- out last. A greenlet is a number. `reserve` and `wait` are cut in two where they call
-- `block_if_needed`, since other greenlets run there: `*_begin` is what comes before, `*_end` what
-- comes after. A block is here its machine and the tensor that it was made with, of a type `A` of
-- references.
pub mod Shape
pub mod Tracks
pub mod Session
pub mod Fifo
pub mod Consumer
pub mod Sharing
pub mod Reset
mod Tests
use ml_tt_lang.Prelude.{
  ℕ, ◌+◌, ◌*◌, ◌/◌, ◌%◌, Bool, true, false, not, ◌&&◌, Option, none, some, List, [], ◌∷◌, ◌==◌, leb,
  length, if◌then◌else◌,
}
use ml_tt_lang.Result.{Result, ok, err, ◌>>=◌, ◌>>◌, guard}
use ml_tt_lang.BlockState.{KernelType, BlockAcquisition, BlockError}
use ml_tt_lang.BlockMachine.{
  BlockStateMachine, init, initialize, Mark, mark, push_complete, pop_complete,
}
use ml_tt_lang.DfbState
use ml_tt_lang.DfbState.{DfbState, DfbError, free, reset, reserve_slot, push_slot, front, pop_slot}
use ml_tt_lang.Block.{Layout, is_tile, prod}

pub record Pending (A : Type 0) : Type 0 where
  pub greenlet : ℕ
  pub machine : BlockStateMachine
  pub tensor : A

pub record Dataflow (A : Type 0) : Type 0 where
  pub shape : List ℕ
  pub element_shape : List ℕ
  pub state : DfbState A
  pub reserved_block : Option (Pending A)
  pub waited_block : Option (Pending A)
  pub pending_confirmations : List ℕ

-- The two constructors with a payload pass on the errors of the ring and of a block's machine; the
-- payload of `incomplete` tells what `validate_no_pending_blocks` reports.
pub data DataflowError : Type 0 where
  no_dimension bad_shape bad_block_count rank_mismatch not_aligned too_small : DataflowError
  ring : DfbError → DataflowError
  block : BlockError → DataflowError
  incomplete : Bool → Bool → List ℕ → DataflowError

abbrev pub of_ring {ℓ} : {B : Type ℓ} → Result DfbError B → Result DataflowError B
of_ring (err e) = err (ring e)
of_ring (ok b) = ok b

abbrev pub of_block {ℓ} : {B : Type ℓ} → Result BlockError B → Result DataflowError B
of_block (err e) = err (block e)
of_block (ok b) = ok b

abbrev pub all_positive : List ℕ → Bool
all_positive [] = true
all_positive (s ∷ ss) = leb 1 s && all_positive ss

-- The loop over the dimensions of a tiled likeness tensor; the last two are counted in tiles of 32.
unfoldable pub check_dims : List ℕ → List ℕ → Result DataflowError (Unit {0})
check_dims (edim ∷ edims) (tdim ∷ tdims) =
    let rest = check_dims edims tdims in
    if leb (length tdims) 1
    then (guard (edim % 32 == 0) not_aligned >> (guard (leb tdim (edim / 32)) too_small >> rest))
    else (guard (leb tdim edim) too_small >> rest)
check_dims _ _ = ok tt

unfoldable pub tile_element_shape : List ℕ → List ℕ
tile_element_shape [] = []
tile_element_shape (tdim ∷ tdims) =
    (if leb (length tdims) 1 then tdim * 32 else tdim) ∷ tile_element_shape tdims

-- `_element_shape`, after the checks of the layout.
unfoldable pub element_shape : List ℕ → Layout → List ℕ → Result DataflowError (List ℕ)
element_shape likeness layout shape =
    if is_tile layout
    then (guard (length likeness == length shape) rank_mismatch
        >> (check_dims likeness shape >> ok (tile_element_shape shape)))
    else ok shape

-- `__init__`, of the likeness tensor's shape and layout.
unfoldable pub create :
    (A : Type 0) → List ℕ → Layout → List ℕ → ℕ → Result DataflowError (Dataflow A)
create A likeness layout shape block_count = do
  guard (leb 1 (length shape)) no_dimension
  guard (all_positive shape) bad_shape
  guard (leb 1 block_count) bad_block_count
  element ← element_shape likeness layout shape
  ok (record {
    shape = shape;
    element_shape = element;
    state = DfbState.init A block_count;
    reserved_block = none;
    waited_block = none;
    pending_confirmations = [];
  })

abbrev pub no_ids : List ℕ → Bool
no_ids [] = true
no_ids (_ ∷ _) = false

module _ {A : Type 0} where
  unfoldable pub can_wait : Dataflow A → Bool
  can_wait d = leb 1 d.state.visible

  unfoldable pub can_reserve : Dataflow A → Bool
  can_reserve d = leb 1 (free d.state)

  -- The pending block is marked, and let go.
  release_reserved : Option (Pending A) → Dataflow A → Result DataflowError (Dataflow A)
  release_reserved none d = ok d
  release_reserved (some b) d =
      of_block (mark push_complete b.machine) >>= (λ _. ok (record d { reserved_block = none }))

  unfoldable pub push_block : Dataflow A → Result DataflowError (Dataflow A)
  unfolding release_reserved
  push_block d = do
    d' ← release_reserved d.reserved_block d
    s ← of_ring (push_slot d'.state)
    ok (record d' { state = s })

  release_waited : Option (Pending A) → Dataflow A → Result DataflowError (Dataflow A)
  release_waited none d = ok d
  release_waited (some b) d =
      of_block (mark pop_complete b.machine) >>= (λ _. ok (record d { waited_block = none }))

  unfoldable pub pop_block : Dataflow A → Result DataflowError (Dataflow A)
  unfolding release_waited
  pop_block d = do
    d' ← release_waited d.waited_block d
    s ← of_ring (pop_slot d'.state)
    ok (record d' { state = s })

  -- Whether the pending block is one of the current greenlet.
  abbrev pub is_own : ℕ → Option (Pending A) → Bool
  is_own g none = false
  is_own g (some b) = b.greenlet == g

  unfoldable pub auto_push_block : ℕ → Dataflow A → Result DataflowError (Dataflow A)
  auto_push_block g d = if is_own g d.reserved_block then push_block d else ok d

  unfoldable pub auto_pop_block : ℕ → Dataflow A → Result DataflowError (Dataflow A)
  auto_pop_block g d = if is_own g d.waited_block then pop_block d else ok d

  -- A new block of the current greenlet, which runs a kernel of the given type.
  abbrev pub hand_out : ℕ → BlockAcquisition → KernelType → A → Pending A
  hand_out g acquisition kernel tensor = record {
    greenlet = g;
    machine = initialize (init acquisition kernel);
    tensor = tensor;
  }

  unfoldable pub reserve_begin : ℕ → Dataflow A → Result DataflowError (Dataflow A)
  reserve_begin g d = auto_push_block g d

  -- The new slot's tensor is given.
  unfoldable pub reserve_end : ℕ → KernelType → A → Dataflow A → Result DataflowError (Dataflow A)
  reserve_end g kernel tensor d = do
    r ← of_ring (reserve_slot tensor d.state)
    ok (record d {
      state = r.1;
      reserved_block = some (hand_out g BlockAcquisition.reserve kernel tensor);
    })

  unfoldable pub wait_begin : ℕ → Dataflow A → Result DataflowError (Dataflow A)
  wait_begin g d = auto_pop_block g d

  unfoldable pub wait_end : ℕ → KernelType → Dataflow A → Result DataflowError (Dataflow A)
  wait_end g kernel d = do
    tensor ← of_ring (front d.state)
    ok (record d { waited_block = some (hand_out g BlockAcquisition.wait kernel tensor) })

  -- What the owner of a pending block does to it.
  unfoldable pub mark_pending : Mark → Pending A → Result DataflowError (Pending A)
  mark_pending m b = of_block (mark m b.machine) >>= (λ s. ok (record b { machine = s }))

  unfoldable pub reset_buffer : Dataflow A → Dataflow A
  reset_buffer d = record d { state = reset d.state }

  unfoldable pub capacity_tiles : Dataflow A → ℕ
  capacity_tiles d = d.state.cap * prod d.shape

  abbrev pub is_pending : Option (Pending A) → Bool
  is_pending none = false
  is_pending (some _) = true

  unfoldable pub validate_no_pending_blocks : Dataflow A → Result DataflowError (Unit {0})
  validate_no_pending_blocks d =
      guard
        (not (is_pending d.reserved_block)
          && (not (is_pending d.waited_block) && no_ids d.pending_confirmations))
        (incomplete (is_pending d.reserved_block) (is_pending d.waited_block)
          d.pending_confirmations)
