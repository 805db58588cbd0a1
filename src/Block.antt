-- ===== src/Block.antt =====
-- python/sim/dfb.py, class `Block`: blocks on a heap, the tensors that they share with the rings, and
-- the tracking of the wait() blocks whose data a temporary block holds. A block and a tensor are named
-- by their places in the heap's lists. What a block's `dfb` keeps in `_pending_confirmations` is kept
-- here in one set for all dataflow buffers, since a block belongs to one buffer for good.
pub mod Marks
pub mod Store
pub mod Confirm
pub mod Tracked
mod Tests
use ml_tt_lang.Prelude.{
  ℕ, suc, ◌+◌, ◌*◌, Bool, true, false, not, ◌&&◌, ◌||◌, Option, none, some, List, [], ◌∷◌, ◌++◌,
  ◌==◌, if◌then◌else◌, length, get_elem?, set,
}
use ml_tt_lang.Result.{Result, ok, err, ◌>>=◌, ◌>>◌, guard}
use ml_tt_lang.BlockState.{
  AccessState, mw, naw, ror, os, KernelType, dm, compute, BlockAcquisition, reserve, ExpectedOp,
  BlockError, contains, is_reserve, access_eq,
}
use ml_tt_lang.BlockMachine.{
  BlockStateMachine, init, initialize, set_unrestricted, Mark, assign_src_complete,
  store_read_complete, store_complete, mark,
}

-- `IndexType` of python/sim/typedefs.py
pub data Layout : Type 0 where
  tile row_major : Layout

abbrev pub is_tile : Layout → Bool
is_tile tile = true
is_tile row_major = false

abbrev pub layout_eq : Layout → Layout → Bool
layout_eq a b = if is_tile a then is_tile b else not (is_tile b)

-- A tensor's elements are of any type `D`: blocks move them, and hand them to operators. `cast` stands
-- for the tensor's dtype: it is the conversion to it that torch's `copy_` makes of what it writes.
pub record Tensor (D : Type 0) : Type 0 where
  pub shape : List ℕ
  pub layout : Layout
  pub elements : D
  pub cast : D → D

-- `dfb_state` holds, for a reserved block, its buffer and `dfb_slot_idx`. The block's label and the
-- places of its copies serve error texts only, and are left out.
pub record Block : Type 0 where
  pub machine : BlockStateMachine
  pub buf : ℕ
  pub shape : List ℕ
  pub is_temporary : Bool
  pub store_confirmation_pending : Bool
  pub source_blocks : List ℕ
  pub dfb : Option ℕ
  pub dfb_state : Option (ℕ × ℕ)

pub record Heap (D : Type 0) : Type 0 where
  pub tensors : List (Tensor D)
  pub blocks : List Block
  pub pending_confirmations : List ℕ

-- The errors of `Block`'s methods; `dangling` is a name that the heap does not have, which no Python
-- reference is.
pub data HeapError : Type 0 where
  machine : BlockError → HeapError
  cannot_write cannot_read shape_mismatch layout_mismatch not_temporary dangling : HeapError

abbrev pub of_machine {ℓ} : {A : Type ℓ} → Result BlockError A → Result HeapError A
of_machine (err e) = err (HeapError.machine e)
of_machine (ok a) = ok a

abbrev pub found {ℓ} : {A : Type ℓ} → Option A → Result HeapError A
found none = err dangling
found (some a) = ok a

abbrev pub shape_eq : List ℕ → List ℕ → Bool
shape_eq [] [] = true
shape_eq (x ∷ xs) (y ∷ ys) = x == y && shape_eq xs ys
shape_eq _ _ = false

-- `math.prod`
abbrev pub prod : List ℕ → ℕ
prod [] = 1
prod (x ∷ xs) = x * prod xs

abbrev pub member : ℕ → List ℕ → Bool
member i [] = false
member i (j ∷ js) = j == i || member i js

-- `set.add` and `set.discard`
abbrev pub add : ℕ → List ℕ → List ℕ
add i s = if member i s then s else i ∷ s

abbrev pub discard : ℕ → List ℕ → List ℕ
discard i [] = []
discard i (j ∷ js) = if j == i then discard i js else j ∷ discard i js

abbrev is_compute : KernelType → Bool
is_compute compute = true
is_compute dm = false

abbrev pub has_dfb : Option ℕ → Bool
has_dfb none = false
has_dfb (some _) = true

-- A wait() block of a compute kernel.
abbrev pub is_consumed : Block → Bool
is_consumed b = not (is_reserve b.machine.acquisition) && is_compute b.machine.kernel_type

-- `Block.__init__`
unfoldable pub new_block : ℕ → List ℕ → BlockAcquisition → KernelType → Bool → Block
unfolding init initialize set_unrestricted
new_block tensor shape acquisition kernel_type is_temporary = record {
  machine =
      if is_temporary
      then set_unrestricted (init acquisition kernel_type)
      else initialize (init acquisition kernel_type);
  buf = tensor;
  shape = shape;
  is_temporary = is_temporary;
  store_confirmation_pending = false;
  source_blocks = [];
  dfb = none;
  dfb_state = none;
}

-- `_check_can_read` and `_check_can_write`
unfoldable pub check_can_read : Block → Result HeapError (Unit {0})
check_can_read b = do
  let s = b.machine.access_state
  guard (b.is_temporary || not (access_eq s mw || access_eq s naw || access_eq s os)) cannot_read

unfoldable pub check_can_write : Block → Result HeapError (Unit {0})
check_can_write b = do
  let s = b.machine.access_state
  guard (b.is_temporary || not (access_eq s naw || access_eq s ror || access_eq s os)) cannot_write

module _ {D : Type 0} where
  unfoldable pub block_at : Heap D → ℕ → Result HeapError Block
  block_at h i = found (get_elem? h.blocks i)

  unfoldable pub tensor_at : Heap D → ℕ → Result HeapError (Tensor D)
  tensor_at h i = found (get_elem? h.tensors i)

  unfoldable pub put_block : ℕ → Block → Heap D → Heap D
  put_block i b h = record h { blocks = set h.blocks i b }

  -- A `mark_*` method that only drives the machine.
  unfoldable pub mark_block : Mark → ℕ → Heap D → Result HeapError (Heap D)
  unfolding block_at put_block
  mark_block m i h = do
    b ← block_at h i
    s ← of_machine (mark m b.machine)
    ok (put_block i (record b { machine = s }) h)

  -- Sets `_store_confirmation_pending`, and enters the block in its buffer's set or takes it out.
  unfoldable pub confirm : Bool → ℕ → Heap D → Result HeapError (Heap D)
  unfolding block_at put_block
  confirm pending i h = do
    b ← block_at h i
    let h' = put_block i (record b { store_confirmation_pending = pending }) h
    let ids = if pending then add i h.pending_confirmations else discard i h.pending_confirmations
    ok (if has_dfb b.dfb then record h' { pending_confirmations = ids } else h')

  unfoldable pub mark_assign_src_complete : ℕ → Heap D → Result HeapError (Heap D)
  mark_assign_src_complete i h = mark_block assign_src_complete i h >>= confirm true i

  unfoldable pub mark_store_read_complete : ℕ → Heap D → Result HeapError (Heap D)
  mark_store_read_complete i h = mark_block store_read_complete i h >>= confirm false i

  unfoldable pub mark_all_read : List ℕ → Heap D → Result HeapError (Heap D)
  mark_all_read [] h = ok h
  mark_all_read (i ∷ is) h = mark_store_read_complete i h >>= mark_all_read is

  -- The sources of a temporary block that still expect to be read, or wait for a confirmation.
  abbrev pub unread : Heap D → ℕ → Bool
  unread h i = elim (get_elem? h.blocks i) [
    | none ↦ false
    | some b ↦ contains ExpectedOp.store_src b.machine.expected_ops || b.store_confirmation_pending
  ]

  abbrev pub unread_sources : Heap D → List ℕ → List ℕ
  unread_sources h [] = []
  unread_sources h (i ∷ is) = if unread h i then i ∷ unread_sources h is else unread_sources h is

  -- `source_blocks_to_mark` of `store`.
  unfoldable pub sources_to_mark : Heap D → ℕ → Block → List ℕ
  sources_to_mark h i b =
      if is_consumed b && contains ExpectedOp.store_src b.machine.expected_ops
      then i ∷ []
      else if b.is_temporary
      then unread_sources h b.source_blocks
      else []

  -- The end of `store`: the data goes to the destination's tensor, or, where the element shapes
  -- differ, the destination takes the source's tensor. The result names the ring slot that then
  -- takes the tensor too: buffer, slot and tensor.
  unfoldable pub transfer : ℕ → ℕ → Heap D → Result HeapError (Heap D × Option (ℕ × ℕ × ℕ))
  unfolding block_at tensor_at put_block
  transfer dst source_tensor h = do
    b ← block_at h dst
    t ← tensor_at h source_tensor
    u ← tensor_at h b.buf
    ok (
        if shape_eq t.shape u.shape
        then (
          record h { tensors = set h.tensors b.buf (record u { elements = u.cast t.elements }) },
          none,
        )
        else (
          put_block dst (record b { buf = source_tensor }) h,
          elim b.dfb_state [ none ↦ none | some (d, slot_idx) ↦ some (d, slot_idx, source_tensor) ],
        ))

  -- `dst.store(items)`
  unfoldable pub store : ℕ → ℕ → Heap D → Result HeapError (Heap D × Option (ℕ × ℕ × ℕ))
  unfolding block_at
  store dst items h = do
    d ← block_at h dst
    check_can_write d
    b ← block_at h items
    guard (prod b.shape == prod d.shape) shape_mismatch
    h' ← mark_all_read (sources_to_mark h items b) h
    h'' ← mark_block store_complete dst h'
    transfer dst b.buf h''

  -- `_track_sources_for_result`, for the result block `r`.
  extend_sources : ℕ → List ℕ → Heap D → Result HeapError (Heap D)
  unfolding block_at put_block
  extend_sources r is h = do
    b ← block_at h r
    ok (put_block r (record b { source_blocks = b.source_blocks ++ is }) h)

  track_source : ℕ → ℕ → Block → Heap D → Result HeapError (Heap D)
  unfolding extend_sources
  track_source r i b h =
      if not b.is_temporary && is_consumed b
      then extend_sources r (i ∷ []) h >>= (λ h'.
        if contains ExpectedOp.store_src b.machine.expected_ops
        then mark_assign_src_complete i h'
        else ok h')
      else if b.is_temporary
      then extend_sources r b.source_blocks h
      else ok h

  unfoldable pub track_sources_for_result : ℕ → List ℕ → Heap D → Result HeapError (Heap D)
  unfolding track_source block_at
  track_sources_for_result r [] h = ok h
  track_sources_for_result r (i ∷ is) h = do
    b ← block_at h i
    h' ← track_source r i b h
    track_sources_for_result r is h'

  -- `_create_temporary_result`: the new block's name, and the heap.
  unfoldable pub create_temporary_result :
      Tensor D → List ℕ → List ℕ → Heap D → Result HeapError (ℕ × Heap D)
  unfolding new_block
  create_temporary_result t shape sources h = do
    let result = new_block (length h.tensors) shape reserve compute true
    let h' = record h { tensors = h.tensors ++ (t ∷ []); blocks = h.blocks ++ (result ∷ []) }
    h'' ← track_sources_for_result (length h.blocks) sources h'
    ok (length h.blocks, h'')

  -- `_binary_op`, with the operator on tensors as a parameter.
  unfoldable pub binary_op :
      (Tensor D → Tensor D → Tensor D) → ℕ → ℕ → Heap D → Result HeapError (ℕ × Heap D)
  unfolding block_at tensor_at
  binary_op op i j h = do
    a ← block_at h i
    b ← block_at h j
    t ← tensor_at h a.buf
    u ← tensor_at h b.buf
    guard (layout_eq u.layout t.layout) layout_mismatch
    guard (shape_eq a.shape b.shape) shape_mismatch
    create_temporary_result (op t u) a.shape (i ∷ j ∷ []) h

  -- `__iadd__`
  unfoldable pub iadd :
      (Tensor D → Tensor D → Tensor D) → ℕ → ℕ → Heap D → Result HeapError (ℕ × Heap D)
  unfolding block_at
  iadd op i j h = do a ← block_at h i; guard a.is_temporary not_temporary; binary_op op i j h
