-- ===== src/Copy.antt =====
-- python/sim/copy.py and python/sim/copyhandlers.py: copy transactions between tensors, blocks and
-- pipes, in a kernel of the node `nid`. Tensors and blocks are named by their places in the heap, equal
-- pipes by one number, and transactions by their places in a list. A copy that raises gives an error
-- without a state.
pub mod Outcome
mod Parts
pub mod Delivers
pub mod Group
mod Tests
use ml_tt_lang.Prelude.{
  ℕ, ◌+◌, ◌/◌, Bool, true, false, not, ◌&&◌, Option, none, some, List, [], ◌∷◌, ◌++◌, ◌==◌,
  if◌then◌else◌, length, get_elem?, set,
}
use ml_tt_lang.Result.{Result, ok, err, ◌>>=◌, ◌>>◌, guard}
use ml_tt_lang.BlockMachine.{Mark, copy_as_source, copy_as_dest, tx_wait_complete}
use ml_tt_lang.Block.{
  Tensor, Block, Heap, HeapError, block_at, tensor_at, mark_block, shape_eq, layout_eq, is_tile,
  prod, layout_mismatch, shape_mismatch,
}
use ml_tt_lang.Pipe.{Pipe, PipeError, num_receivers}
use ml_tt_lang.PipeBuffer.{PipeEntry, PipeBufferError, send, receive, can_receive}

-- `CopyEndpoint`
pub data Endpoint : Type 0 where
  tensor block pipe src_pipe dst_pipe : ℕ → Endpoint

-- A handler with the endpoints that it is called with.
pub data Handler : Type 0 where
  tensor_to_block : ℕ → ℕ → Handler
  block_to_tensor : ℕ → ℕ → Handler
  block_to_pipe : ℕ → ℕ → Handler
  pipe_to_block : ℕ → ℕ → Handler

-- `would_block` is a wait() from which the scheduler cannot resume the kernel, and `no_dimension` an
-- index out of range.
pub data CopyError : Type 0 where
  of_heap : HeapError → CopyError
  of_pipe : PipeError → CopyError
  of_buffer : PipeBufferError → CopyError
  no_handler count_mismatch reshape_mismatch no_dimension would_block no_transaction : CopyError
  add_after_wait waited_twice : CopyError

pub record Transaction : Type 0 where
  pub src : Endpoint
  pub dst : Endpoint
  pub handler : Handler
  pub completed : Bool
  pub transfer_performed : Bool

-- `transactions` are the kernel's own, and `slots` lists the tensors that rings have taken in their
-- slots: buffer, slot and tensor.
pub record World (D : Type 0) : Type 0 where
  pub heap : Heap D
  pub pipe_buffer : List (ℕ × PipeEntry ℕ)
  pub transactions : List Transaction
  pub slots : List (ℕ × ℕ × ℕ)

-- `_lookup_handler`; the handlers of pipe identities hand on to those of their pipes.
unfoldable pub lookup_handler : Endpoint → Endpoint → Result CopyError Handler
lookup_handler (tensor t) (block b) = ok (tensor_to_block t b)
lookup_handler (block b) (tensor t) = ok (block_to_tensor b t)
lookup_handler (block b) (pipe p) = ok (block_to_pipe b p)
lookup_handler (block b) (src_pipe p) = ok (block_to_pipe b p)
lookup_handler (pipe p) (block b) = ok (pipe_to_block p b)
lookup_handler (dst_pipe p) (block b) = ok (pipe_to_block p b)
lookup_handler _ _ = err no_handler

-- `tile_shape_from_tensor`
abbrev pub tile_dim : ℕ → ℕ
tile_dim n = if n == 1 then 1 else n / 32

unfoldable pub tile_shape : List ℕ → Result CopyError (List ℕ)
tile_shape [] = err no_dimension
tile_shape (w ∷ []) = ok (tile_dim w ∷ [])
tile_shape (h ∷ w ∷ []) = ok (tile_dim h ∷ tile_dim w ∷ [])
tile_shape (x ∷ h ∷ w ∷ s) = tile_shape (h ∷ w ∷ s) >>= (λ ts. ok (x ∷ ts))

abbrev pub of_heap_result {ℓ} : {A : Type ℓ} → Result HeapError A → Result CopyError A
of_heap_result (err e) = err (of_heap e)
of_heap_result (ok a) = ok a

abbrev pub of_buffer_result {ℓ} : {A : Type ℓ} → Result PipeBufferError A → Result CopyError A
of_buffer_result (err e) = err (of_buffer e)
of_buffer_result (ok a) = ok a

abbrev pub of_pipe_result {ℓ} : {A : Type ℓ} → Result PipeError A → Result CopyError A
of_pipe_result (err e) = err (of_pipe e)
of_pipe_result (ok a) = ok a

-- The table `pipe_buffer`.
abbrev pub entry_of : ℕ → List (ℕ × PipeEntry ℕ) → Option (PipeEntry ℕ)
entry_of p [] = none
entry_of p ((q, entry) ∷ table) = if q == p then some entry else entry_of p table

abbrev pub put_entry : ℕ → PipeEntry ℕ → List (ℕ × PipeEntry ℕ) → List (ℕ × PipeEntry ℕ)
put_entry p new [] = (p, new) ∷ []
put_entry p new ((q, entry) ∷ table) =
    let rest = put_entry p new table in if q == p then (p, new) ∷ table else (q, entry) ∷ rest

-- Whether the source's effects begin at the copy.
unfoldable pub starts_on_copy : Endpoint → Endpoint → Bool
starts_on_copy (block _) (pipe _) = true
starts_on_copy (block _) (src_pipe _) = true
starts_on_copy _ _ = false

module _ {D : Type 0} where
  -- `tile_count_from_tensor`
  unfoldable pub tile_count : Tensor D → Result CopyError ℕ
  unfolding tile_shape
  tile_count t =
      if is_tile t.layout then tile_shape t.shape >>= (λ s. ok (prod s)) else ok (prod t.shape)

  -- The two checks that copies between tensors and blocks share: layouts and counts of tiles.
  unfoldable pub check_match : ℕ → ℕ → Heap D → Result CopyError (Unit {0})
  unfolding tile_count
  check_match t j h = do
    x ← of_heap_result (tensor_at h t)
    b ← of_heap_result (block_at h j)
    u ← of_heap_result (tensor_at h b.buf)
    guard (layout_eq x.layout u.layout) (of_heap layout_mismatch)
    n ← tile_count x
    guard (n == prod b.shape) count_mismatch

  -- `copy_as_dest` of python/sim/dfb.py, which ends as `store` does.
  unfoldable pub fill_block : ℕ → ℕ → World D → Result CopyError (World D)
  fill_block j t w = do
    check_match t j w.heap
    r ← of_heap_result (ml_tt_lang.Block.transfer j t w.heap)
    ok (record w { heap = r.0; slots = elim r.1 [ none ↦ w.slots | some s ↦ w.slots ++ (s ∷ []) ] })

  -- The tensors' shapes agree.
  unfoldable pub same_shape : Heap D → ℕ → ℕ → Bool
  same_shape h t u = elim (get_elem? h.tensors t) [
    | none ↦ false
    | some x ↦ elim (get_elem? h.tensors u) [ none ↦ false | some y ↦ shape_eq x.shape y.shape ]
  ]

  unfoldable pub mark_endpoint : Mark → Endpoint → World D → Result CopyError (World D)
  mark_endpoint m (block j) w =
      of_heap_result (mark_block m j w.heap) >>= (λ h. ok (record w { heap = h }))
  mark_endpoint m _ w = ok w

  -- The handlers' `validate`.
  unfoldable pub validate : Handler → World D → Result CopyError (Unit {0})
  unfolding check_match
  validate (tensor_to_block t j) w = check_match t j w.heap
  validate (block_to_tensor j t) w = check_match t j w.heap
  validate _ w = ok tt

-- The pipes by their numbers, the grid, and the node of the kernel.
module _ {D : Type 0} (pipe_at : ℕ → Pipe) (grid : List ℕ) (nid : ℕ) where
  -- The handlers' `transfer`.
  unfoldable pub transfer : Handler → World D → Result CopyError (World D)
  transfer (tensor_to_block t j) w = fill_block j t w
  transfer (block_to_tensor j t) w = do
    b ← of_heap_result (block_at w.heap j)
    x ← of_heap_result (tensor_at w.heap b.buf)
    y ← of_heap_result (tensor_at w.heap t)
    guard (prod x.shape == prod y.shape) reshape_mismatch
    let written = record y { elements = y.cast x.elements }
    ok (record w { heap = record w.heap { tensors = set w.heap.tensors t written } })
  transfer (block_to_pipe j p) w = do
    b ← of_heap_result (block_at w.heap j)
    n ← of_pipe_result (num_receivers grid (pipe_at p).dst)
    ok (record w {
      pipe_buffer = put_entry p (send b.buf n (entry_of p w.pipe_buffer)) w.pipe_buffer;
    })
  transfer (pipe_to_block p j) w = do
    b ← of_heap_result (block_at w.heap j)
    r ← of_buffer_result (receive (λ t. same_shape w.heap t b.buf) nid (entry_of p w.pipe_buffer))
    w' ← fill_block j r.0 w
    ok (record w' { pipe_buffer = put_entry p r.1 w'.pipe_buffer })

  -- `CopyTransaction.__init__`: the name of the transaction, and the state.
  unfoldable pub start : Endpoint → Endpoint → World D → Result CopyError (ℕ × World D)
  start src dst w = do
    handler ← lookup_handler src dst
    w₁ ← mark_endpoint copy_as_source src w
    w₂ ← mark_endpoint Mark.copy_as_dest dst w₁
    validate handler w₂
    let early = starts_on_copy src dst
    w₃ ← if early then transfer handler w₂ else ok w₂
    let made : Transaction = record {
      src = src;
      dst = dst;
      handler = handler;
      completed = false;
      transfer_performed = early;
    }
    ok (length w.transactions, record w₃ { transactions = w₃.transactions ++ (made ∷ []) })

  -- The handlers' `can_wait`.
  unfoldable pub can_wait : Handler → World D → Bool
  can_wait (pipe_to_block p j) w = can_receive nid (entry_of p w.pipe_buffer)
  can_wait _ w = true

  -- The end of `wait`, from where the scheduler resumes the kernel on.
  unfoldable pub finish : ℕ → Transaction → World D → Result CopyError (World D)
  finish i tx w = do
    guard (can_wait tx.handler w) would_block
    w₁ ← if tx.transfer_performed then ok w else transfer tx.handler w
    let done = record tx { completed = true; transfer_performed = true }
    let w₂ = record w₁ { transactions = set w₁.transactions i done }
    w₃ ← mark_endpoint tx_wait_complete tx.src w₂
    mark_endpoint tx_wait_complete tx.dst w₃

-- `meanwhile` is what other kernels do while the kernel, which waits for a transaction, is not running.
module _ {D : Type 0} (pipe_at : ℕ → Pipe) (grid : List ℕ) (nid : ℕ)
    (meanwhile : ℕ → World D → World D) where
  unfoldable pub wait : ℕ → World D → Result CopyError (World D)
  unfolding finish
  wait i w = elim (get_elem? w.transactions i) [
    | none ↦ err no_transaction
    | some tx ↦ if tx.completed then ok w else finish pipe_at grid nid i tx (meanwhile i w)
  ]

  -- `copy`, where the call's line may be one that waits at once.
  unfoldable pub copy : Bool → Endpoint → Endpoint → World D → Result CopyError (ℕ × World D)
  copy auto_wait src dst w = do
    r ← start pipe_at grid nid src dst w
    if auto_wait then (wait r.0 r.1 >>= (λ w'. ok (r.0, w'))) else ok r

-- `GroupTransfer`
pub record GroupTransfer : Type 0 where
  pub transfers : List ℕ
  pub waited : Bool

unfoldable pub add_transfer : ℕ → GroupTransfer → Result CopyError GroupTransfer
add_transfer i g = do
  guard (not g.waited) add_after_wait
  ok (record g { transfers = g.transfers ++ (i ∷ []) })

module _ {D : Type 0} (pipe_at : ℕ → Pipe) (grid : List ℕ) (nid : ℕ)
    (meanwhile : ℕ → World D → World D) where
  unfoldable pub wait_each : List ℕ → World D → Result CopyError (World D)
  wait_each [] w = ok w
  wait_each (i ∷ is) w = wait pipe_at grid nid meanwhile i w >>= wait_each is

  unfoldable pub wait_all : GroupTransfer → World D → Result CopyError (GroupTransfer × World D)
  unfolding wait_each
  wait_all g w = do
    guard (not g.waited) waited_twice
    let waited = record g { waited = true }
    w' ← wait_each g.transfers w
    ok (waited, w')
