-- ===== src/Copy/Parts.antt =====
-- What the calls of `copy` and `wait` are made of.
use mathlib.Core.Path.{subst}
use ml_tt_lang.Prelude.{
  ℕ, ◌≡◌, refl, sym, ap, ◌∙◌, Bool, true, false, some, List, [], ◌∷◌, ◌++◌, length, get_elem?, set,
  inl, inr, Bool-cases, if◌then◌else◌, ◌==◌,
}
use ml_tt_lang.Result.{Result, ok, >>=-eq-ok, guard-ok}
use ml_tt_lang.BlockMachine.{Mark, copy_as_source, tx_wait_complete}
use ml_tt_lang.Block.{Heap, mark_block, block_at, tensor_at, prod}
use ml_tt_lang.Block.Marks.{Frame, Frame-refl, Frame-trans, mark_block-Frame, get_elem?-set_found}
use ml_tt_lang.Pipe.{Pipe, num_receivers}
use ml_tt_lang.PipeBuffer.{receive}
use ml_tt_lang.Copy.{
  Endpoint, tensor, block, pipe, src_pipe, dst_pipe, Handler, tensor_to_block, block_to_tensor,
  block_to_pipe, pipe_to_block, CopyError, Transaction, World, lookup_handler, starts_on_copy,
  of_heap_result, of_pipe_result, of_buffer_result, entry_of, fill_block, check_match, same_shape,
  mark_endpoint, validate, transfer, start, can_wait, finish, would_block, reshape_mismatch,
}
use ml_tt_lang.Copy.Outcome.{Alike, of_heap_result-eq, world-eq}

module _ {ℓ} {A : Type ℓ} where
  get_elem?-last : (xs : List A) (x : A) → get_elem? (xs ++ (x ∷ [])) (length xs) ≡ some x
  get_elem?-last [] x = refl
  get_elem?-last (y ∷ xs) x = get_elem?-last xs x

module _ {D : Type 0} where
  pub Alike-refl : (w : World D) → Alike w w
  Alike-refl w = record { frame = Frame-refl w.heap; pipes = refl }

  pub Alike-trans : {w w₁ w₂ : World D} → Alike w w₁ → Alike w₁ w₂ → Alike w w₂
  Alike-trans a b = record { frame = Frame-trans a.frame b.frame; pipes = b.pipes ∙ a.pipes }

  mark_endpoint-Alike :
      (m : Mark) (e : Endpoint) (w : World D) {w' : World D}
      → mark_endpoint m e w ≡ ok w'
      → Alike w w' × (w'.transactions ≡ w.transactions)
  unfolding mark_endpoint
  mark_endpoint-Alike m (tensor t) w h =
      (subst (Alike w) (world-eq (λ z. z) h) (Alike-refl w), sym (world-eq (λ z. z.transactions) h))
  mark_endpoint-Alike m (pipe t) w h =
      (subst (Alike w) (world-eq (λ z. z) h) (Alike-refl w), sym (world-eq (λ z. z.transactions) h))
  mark_endpoint-Alike m (src_pipe t) w h =
      (subst (Alike w) (world-eq (λ z. z) h) (Alike-refl w), sym (world-eq (λ z. z.transactions) h))
  mark_endpoint-Alike m (dst_pipe t) w h =
      (subst (Alike w) (world-eq (λ z. z) h) (Alike-refl w), sym (world-eq (λ z. z.transactions) h))
  mark_endpoint-Alike m (block j) w {w'} h =
      let (k, h₁, h₂) = >>=-eq-ok (of_heap_result (mark_block m j w.heap)) _ h in
      let framed = (mark_block-Frame m j w.heap (of_heap_result-eq (mark_block m j w.heap) h₁)).0 in
      (
        record {
          frame = subst (Frame w.heap) (world-eq (λ z. z.heap) h₂) framed;
          pipes = sym (world-eq (λ z. z.pipe_buffer) h₂);
        },
        sym (world-eq (λ z. z.transactions) h₂),
      )

  fill_block-transactions :
      (j t : ℕ) (w : World D) {w' : World D}
      → fill_block j t w ≡ ok w'
      → w'.transactions ≡ w.transactions
  unfolding fill_block
  fill_block-transactions j t w {w'} h =
      let (_, _, h₁) = >>=-eq-ok (check_match t j w.heap) _ h in
      let (r, h₂, h₃) = >>=-eq-ok (of_heap_result (ml_tt_lang.Block.transfer j t w.heap)) _ h₁ in
      sym (world-eq (λ z. z.transactions) h₃)

  pub pair-eq :
      {i k : ℕ} {w v : World D}
      → ◌≡◌ {A = Result CopyError (ℕ × World D)} (ok (k, v)) (ok (i, w))
      → (k ≡ i) × (v ≡ w)
  pair-eq {i} {k} {w} {v} e =
      let same : (k, v) ≡ (i, w) = cc e in
      (ap (λ (z : ℕ × World D). z.0) same, ap (λ (z : ℕ × World D). z.1) same)

  pub result-eq : {w v : World D} → ◌≡◌ {A = Result CopyError (World D)} (ok v) (ok w) → v ≡ w
  result-eq e = world-eq (λ z. z) e

  -- A transaction that is entered is found by its name.
  entered :
      (tx : Transaction) (w w₃ : World D) {i : ℕ} {w' : World D}
      → w₃.transactions ≡ w.transactions
      → ◌≡◌ {A = Result CopyError (ℕ × World D)}
          (ok (length w.transactions, record w₃ { transactions = w₃.transactions ++ (tx ∷ []) }))
          (ok (i, w'))
      → (get_elem? w'.transactions i ≡ some tx) × Alike w₃ w'
  entered tx w w₃ {i} {w'} kept e =
      let (name, state) = pair-eq e in
      let last = get_elem?-last w₃.transactions tx in
      (
        ap (λ z. get_elem? z i) (sym (ap (λ (z : World D). z.transactions) state))
            ∙ ap (get_elem? (w₃.transactions ++ (tx ∷ []))) (sym name ∙ ap length (sym kept))
            ∙ last,
        subst (Alike w₃) state (record { frame = Frame-refl w₃.heap; pipes = refl }),
      )

  -- The transaction has been waited for.
  abbrev pub IsCompleted : ℕ → World D → Type 0
  IsCompleted i w =
      (tx : Transaction) × (get_elem? w.transactions i ≡ some tx) × (tx.completed ≡ true)

  module _ (pipe_at : ℕ → Pipe) (grid : List ℕ) (nid : ℕ) where
    transfer-transactions :
        (h : Handler) (w : World D) {w' : World D}
        → transfer pipe_at grid nid h w ≡ ok w'
        → w'.transactions ≡ w.transactions
    unfolding transfer
    transfer-transactions (tensor_to_block t j) w h = fill_block-transactions j t w h
    transfer-transactions (block_to_tensor j t) w {w'} h =
        let (b, _, h₁) = >>=-eq-ok (of_heap_result (block_at w.heap j)) _ h in
        let (x, _, h₂) = >>=-eq-ok (of_heap_result (tensor_at w.heap b.buf)) _ h₁ in
        let (y, _, h₃) = >>=-eq-ok (of_heap_result (tensor_at w.heap t)) _ h₂ in
        let (_, h₄) = guard-ok (prod x.shape == prod y.shape) reshape_mismatch _ h₃ in
        sym (world-eq (λ z. z.transactions) h₄)
    transfer-transactions (block_to_pipe j p) w {w'} h =
        let (b, _, h₁) = >>=-eq-ok (of_heap_result (block_at w.heap j)) _ h in
        let (n, _, h₂) = >>=-eq-ok (of_pipe_result (num_receivers grid (pipe_at p).dst)) _ h₁ in
        sym (world-eq (λ z. z.transactions) h₂)
    transfer-transactions (pipe_to_block p j) w {w'} h =
        let (b, _, h₁) = >>=-eq-ok (of_heap_result (block_at w.heap j)) _ h in
        let (r, _, h₂) =
          >>=-eq-ok
            (of_buffer_result
              (receive (λ t. same_shape w.heap t b.buf) nid (entry_of p w.pipe_buffer)))
            _ h₁ in
        let (w₁, hw, h₃) = >>=-eq-ok (fill_block j r.0 w) _ h₂ in
        sym (world-eq (λ z. z.transactions) h₃) ∙ fill_block-transactions j r.0 w hw

    kept-transfer :
        (early : Bool) (h : Handler) (w : World D) {w₁ : World D}
        → (if early then transfer pipe_at grid nid h w else ok w) ≡ ok w₁
        → w₁.transactions ≡ w.transactions
    kept-transfer true h w e = transfer-transactions h w e
    kept-transfer false h w e = sym (world-eq (λ z. z.transactions) e)

    kept-transactions :
        (tx : Transaction) (w : World D) {w₁ : World D}
        → (if tx.transfer_performed then ok w else transfer pipe_at grid nid tx.handler w) ≡ ok w₁
        → w₁.transactions ≡ w.transactions
    kept-transactions tx w h = elim (Bool-cases tx.transfer_performed) [
      | inl done ↦ sym (world-eq (λ z. z.transactions) (rw done at h))
      | inr due ↦ transfer-transactions tx.handler w (rw due at h)
    ]

    -- After `finish`, the transaction is completed, and the transfer was made unless it had been.
    pub finish-parts :
        (i : ℕ) (tx : Transaction) (w : World D) {w' : World D}
        → get_elem? w.transactions i ≡ some tx
        → finish pipe_at grid nid i tx w ≡ ok w'
        → (w₁ : World D) × ((if tx.transfer_performed
              then ok w
              else transfer pipe_at grid nid tx.handler w)
            ≡ ok w₁)
          × Alike w₁ w'
          × IsCompleted i w'
          × (w'.transactions
              ≡ set w.transactions i (record tx { completed = true; transfer_performed = true }))
    unfolding finish
    finish-parts i tx w {w'} found h =
        let (_, h₀) = guard-ok (can_wait pipe_at grid nid tx.handler w) would_block _ h in
        let (w₁, moved, h₁) =
          >>=-eq-ok (if tx.transfer_performed then ok w else transfer pipe_at grid nid tx.handler w)
            _ h₀ in
        let done : Transaction = record tx { completed = true; transfer_performed = true } in
        let w₂ : World D = record w₁ { transactions = set w₁.transactions i done } in
        let (w₃, marked, h₂) = >>=-eq-ok (mark_endpoint tx_wait_complete tx.src w₂) _ h₁ in
        let (a, txs) = mark_endpoint-Alike tx_wait_complete tx.src w₂ marked in
        let (b, txs') = mark_endpoint-Alike tx_wait_complete tx.dst w₃ h₂ in
        let kept = kept-transactions tx w moved in
        let there = ap (λ l. get_elem? l i) kept ∙ found in
        (
          w₁,
          moved,
          Alike-trans (record { frame = Frame-refl w₁.heap; pipes = refl }) (Alike-trans a b),
          (
            done,
            ap (λ l. get_elem? l i) (txs' ∙ txs) ∙ get_elem?-set_found w₁.transactions i done there,
            refl,
          ),
          txs' ∙ txs ∙ ap (λ l. set l i done) kept,
        )

    -- The state that `start` ends in, and the transfer that it made if it did.
    pub start-parts :
        (src dst : Endpoint) (w : World D) {i : ℕ} {w' : World D}
        → start pipe_at grid nid src dst w ≡ ok (i, w')
        → (tx : Transaction) × (w₂ : World D) × (w₃ : World D) × (lookup_handler src dst
            ≡ ok tx.handler)
          × (get_elem? w'.transactions i ≡ some tx)
          × (tx.completed ≡ false)
          × (tx.transfer_performed ≡ starts_on_copy src dst)
          × Alike w w₂
          × ((if tx.transfer_performed then transfer pipe_at grid nid tx.handler w₂ else ok w₂)
              ≡ ok w₃)
          × Alike w₃ w'
    unfolding start
    start-parts src dst w {i} {w'} h =
        let (handler, looked, h₁) = >>=-eq-ok (lookup_handler src dst) _ h in
        let (w₁, marked, h₂) = >>=-eq-ok (mark_endpoint copy_as_source src w) _ h₁ in
        let (w₂, marked', h₃) = >>=-eq-ok (mark_endpoint Mark.copy_as_dest dst w₁) _ h₂ in
        let (_, _, h₄) = >>=-eq-ok (validate handler w₂) _ h₃ in
        let early = starts_on_copy src dst in
        let (w₃, moved, h₅) =
          >>=-eq-ok (if early then transfer pipe_at grid nid handler w₂ else ok w₂) _ h₄ in
        let txs = (mark_endpoint-Alike copy_as_source src w marked).1 in
        let txs' = (mark_endpoint-Alike Mark.copy_as_dest dst w₁ marked').1 in
        let made : Transaction = record {
          src = src;
          dst = dst;
          handler = handler;
          completed = false;
          transfer_performed = early;
        } in
        let (there, after) =
          entered made w w₃ (kept-transfer early handler w₂ moved ∙ txs' ∙ txs) h₅ in
        (
          made,
          w₂,
          w₃,
          looked,
          there,
          refl,
          refl,
          Alike-trans (mark_endpoint-Alike copy_as_source src w marked).0
              (mark_endpoint-Alike Mark.copy_as_dest dst w₁ marked').0,
          moved,
          after,
        )
