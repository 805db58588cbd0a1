-- ===== src/Copy/Outcome.antt =====
-- What the transfer of each handler does to the data.
use mathlib.Core.Option
use ml_tt_lang.Prelude.{
  ℕ, ◌≡◌, ◌≢◌, refl, sym, ap, ◌∙◌, Bool, Option, none, some, List, [], ◌∷◌, ◌++◌, ◌==◌, ==_iff,
  get_elem?, get_elem?-set_ne, inl, inr, Bool-cases, arith,
}
use ml_tt_lang.Result.{Result, ok, err, >>=-eq-ok, guard-ok}
use ml_tt_lang.Block.{Tensor, Block, Heap, HeapError, block_at, tensor_at, mark_block, member, prod}
use ml_tt_lang.Block.Marks.{Frame, block_at-eq, get_elem?-set_found}
use ml_tt_lang.Block.Store.{
  buf_of, elements_at, contents, transfer-contents, transfer-others, Frame-buf_of, Frame-elements,
  Frame-contents, Frame-arriving, arriving,
}
use ml_tt_lang.Pipe.{Pipe, num_receivers}
use ml_tt_lang.PipeBuffer.{Message, PipeEntry, PipeBufferError, send, receive, take_first, settle}
use ml_tt_lang.PipeBuffer.Delivery.{pending}
use ml_tt_lang.PipeBuffer.Traffic.{queue_of, pending-new}
use ml_tt_lang.Copy.{
  Handler, tensor_to_block, block_to_tensor, block_to_pipe, pipe_to_block, CopyError, World,
  of_heap_result, of_buffer_result, of_pipe_result, entry_of, put_entry, check_match, fill_block,
  same_shape, transfer, reshape_mismatch,
}

pub of_heap_result-eq :
    {B : Type 0} (r : Result HeapError B) {y : B} → of_heap_result r ≡ ok y → r ≡ ok y
of_heap_result-eq (ok x) {y} e = let same : x ≡ y = cc e in ap ok same
of_heap_result-eq (err x) e = cc e

of_buffer_result-eq :
    {B : Type 0} (r : Result PipeBufferError B) {y : B} → of_buffer_result r ≡ ok y → r ≡ ok y
of_buffer_result-eq (ok x) {y} e = let same : x ≡ y = cc e in ap ok same
of_buffer_result-eq (err x) e = cc e

result_of-eq :
    {A : Type 0} {r s : A × List (Message A)}
    → ◌≡◌ {A = Result PipeBufferError (A × List (Message A))} (ok r) (ok s)
    → r ≡ s
result_of-eq e = cc e

-- A node lacks a message no longer when it has taken it.
settle-pending :
    {A : Type 0} (n : ℕ) (m : Message A) (queue : List (Message A))
    → pending n (settle n m queue) ≡ pending n queue
unfolding settle
settle-pending n m queue = ground arith

-- The first message that a node takes is the first that it lacks.
take_first-pending :
    {A : Type 0} (fits : A → Bool) (n : ℕ) (queue : List (Message A)) {r : A × List (Message A)}
    → take_first fits n queue ≡ ok r
    → pending n queue ≡ r.0 ∷ pending n r.1
unfolding take_first
take_first-pending fits n [] h = cc h
take_first-pending {A} fits n (m ∷ queue) {r} h = elim (Bool-cases (member n m.received)) [
  | inl had ↦
      let (s, h₁, h₂) =
        >>=-eq-ok (take_first fits n queue) (λ r. ok (r.0, m ∷ r.1)) (rw (take_first, had) at h) in
      let skipped : pending n (m ∷ queue) ≡ s.0 ∷ pending n (m ∷ s.1) =
        rw (pending, had) (take_first-pending fits n queue h₁) in
      skipped ∙ ap (λ (z : A × List (Message A)). z.0 ∷ pending n z.1) (result_of-eq h₂)
  | inr new ↦ elim (Bool-cases (fits m.message_data)) [
    | inr wrong ↦ cc (rw (take_first, new, wrong) at h)
    | inl right ↦
        let here : pending n (m ∷ queue) ≡ m.message_data ∷ pending n (settle n m queue) =
          rw (pending, new) (ap (λ q. m.message_data ∷ q) (sym (settle-pending n m queue))) in
        here
        ∙ ap (λ (z : A × List (Message A)). z.0 ∷ pending n z.1)
            (result_of-eq (rw (take_first, new, right) at h))
  ]
]

entry_of-put :
    (p : ℕ) (e : PipeEntry ℕ) (table : List (ℕ × PipeEntry ℕ))
    → entry_of p (put_entry p e table) ≡ some e
entry_of-put p e [] = rw ((==_iff p p).1 refl) refl
entry_of-put p e ((q, old) ∷ table) = elim (Bool-cases (q == p)) [
  | inl same ↦ rw (put_entry, same, (==_iff p p).1 refl) refl
  | inr other ↦ rw (put_entry, other) (rw other (entry_of-put p e table))
]

taken-eq :
    {a : ℕ} {r : ℕ × PipeEntry ℕ} {e : PipeEntry ℕ}
    → ◌≡◌ {A = Result PipeBufferError (ℕ × PipeEntry ℕ)} (ok (a, e)) (ok r)
    → (a ≡ r.0) × (e.queue ≡ r.1.queue)
taken-eq {a} {r} {e} h =
    let same : (a, e) ≡ r = cc h in
    (ap (λ (z : ℕ × PipeEntry ℕ). z.0) same, ap (λ (z : ℕ × PipeEntry ℕ). z.1.queue) same)

module _ {D : Type 0} where
  pub world-eq :
      {B : Type 0} (f : World D → B) {w w' : World D}
      → ◌≡◌ {A = Result CopyError (World D)} (ok w) (ok w')
      → f w ≡ f w'
  world-eq f e = ap f (cc e)

  tensor_at-eq :
      (h : Heap D) (i : ℕ) {t : Tensor D}
      → of_heap_result (tensor_at h i) ≡ ok t
      → get_elem? h.tensors i ≡ some t
  unfolding tensor_at
  tensor_at-eq h i e = ground arith

  -- The block `j` has the data of the tensor `a`, as they arrive in its own tensor, and blocks of
  -- other tensors have what they had.
  pub record Delivered (j a : ℕ) (w w' : World D) : Type 0 where
    pub data_of : contents w'.heap j ≡ arriving w.heap (buf_of w.heap j) (some a)
    pub others :
        (k : ℕ) → k ≢ j → buf_of w.heap k ≢ buf_of w.heap j → contents w'.heap k ≡ contents w.heap k

  fill_block-Delivered :
      (j t : ℕ) (w : World D) {w' : World D} → fill_block j t w ≡ ok w' → Delivered j t w w'
  unfolding fill_block
  fill_block-Delivered j t w {w'} h =
      let (_, _, h₁) = >>=-eq-ok (check_match t j w.heap) _ h in
      let (r, h₂, h₃) = >>=-eq-ok (of_heap_result (ml_tt_lang.Block.transfer j t w.heap)) _ h₁ in
      let heap = world-eq (λ z. z.heap) h₃ in
      let moved = of_heap_result-eq (ml_tt_lang.Block.transfer j t w.heap) h₂ in
      record {
        data_of = ap (λ z. contents z j) (sym heap) ∙ transfer-contents j t w.heap moved;
        others = λ k ne apart.
            ap (λ z. contents z k) (sym heap) ∙ transfer-others j t k w.heap moved ne apart;
      }

  -- The data of a tensor in the dtype of the tensor `t`.
  abbrev convert : Option (Tensor D) → Option (Tensor D) → Option D
  convert (some y) (some x) = some (y.cast x.elements)
  convert _ _ = none

  abbrev pub converted : Heap D → ℕ → Option ℕ → Option D
  converted h t none = none
  converted h t (some u) = convert (get_elem? h.tensors t) (get_elem? h.tensors u)

  -- What the handler's transfer is to do: a block takes the data of a tensor, or of the first
  -- message that the node lacks, and lacks that message no longer; a tensor takes the data of a
  -- block; and a message with the block's tensor comes last for every node.
  pub Outcome : ℕ → Handler → World D → World D → Type 0
  Outcome nid (tensor_to_block t j) w w' = Delivered j t w w'
  Outcome nid (block_to_tensor j t) w w' =
      (elements_at w'.heap t ≡ converted w.heap t (buf_of w.heap j))
      × ((u : ℕ) → u ≢ t → elements_at w'.heap u ≡ elements_at w.heap u)
  Outcome nid (block_to_pipe j p) w w' =
      (a : ℕ) × (buf_of w.heap j ≡ some a)
      × ((o : ℕ)
          → pending o (queue_of (entry_of p w'.pipe_buffer))
            ≡ pending o (queue_of (entry_of p w.pipe_buffer)) ++ (a ∷ []))
  Outcome nid (pipe_to_block p j) w w' =
      (a : ℕ) × (pending nid (queue_of (entry_of p w.pipe_buffer))
        ≡ a ∷ pending nid (queue_of (entry_of p w'.pipe_buffer)))
      × Delivered j a w w'

  -- The same tensors and references, and the same pipes.
  pub record Alike (w w' : World D) : Type 0 where
    pub frame : Frame w.heap w'.heap
    pub pipes : w'.pipe_buffer ≡ w.pipe_buffer

  Delivered-Alike :
      (j a : ℕ) {w w₁ w₂ w₃ : World D}
      → Alike w w₁
      → Alike w₂ w₃
      → Delivered j a w₁ w₂
      → Delivered j a w w₃
  Delivered-Alike j a {w} {w₁} {w₂} {w₃} before after d = record {
    data_of =
        Frame-contents after.frame j
        ∙ d.data_of
        ∙ Frame-arriving before.frame (buf_of w₁.heap j) (some a)
        ∙ ap (λ u. arriving w.heap u (some a)) (Frame-buf_of before.frame j);
    others = λ k ne apart.
        Frame-contents after.frame k
        ∙ d.others k ne
            (λ e. apart (sym (Frame-buf_of before.frame k) ∙ e ∙ Frame-buf_of before.frame j))
        ∙ Frame-contents before.frame k;
  }

  Frame-converted :
      {h h' : Heap D} → Frame h h' → (t : ℕ) (u : Option ℕ) → converted h' t u ≡ converted h t u
  Frame-converted f t none = refl
  Frame-converted f t (some u) = ap (λ ts. convert (get_elem? ts t) (get_elem? ts u)) f.tensors

  pub Outcome-Alike :
      (nid : ℕ) (h : Handler) {w w₁ w₂ w₃ : World D}
      → Alike w w₁
      → Alike w₂ w₃
      → Outcome nid h w₁ w₂
      → Outcome nid h w w₃
  unfolding Outcome
  Outcome-Alike nid (tensor_to_block t j) before after o = Delivered-Alike j t before after o
  Outcome-Alike nid (block_to_tensor j t) {w} {w₁} before after (o, others) = (
    Frame-elements after.frame (some t)
        ∙ o
        ∙ Frame-converted before.frame t (buf_of w₁.heap j)
        ∙ ap (converted w.heap t) (Frame-buf_of before.frame j),
    λ u ne.
        Frame-elements after.frame (some u) ∙ others u ne ∙ Frame-elements before.frame (some u),
  )
  Outcome-Alike nid (block_to_pipe j p) before after (a, e, o) = (
    a,
    sym (Frame-buf_of before.frame j) ∙ e,
    λ n.
        ap (λ z. pending n (queue_of (entry_of p z))) after.pipes
        ∙ o n
        ∙ ap (λ z. pending n (queue_of (entry_of p z)) ++ (a ∷ [])) before.pipes,
  )
  Outcome-Alike nid (pipe_to_block p j) before after (a, e, d) = (
    a,
    ap (λ z. pending nid (queue_of (entry_of p z))) (sym before.pipes)
        ∙ e
        ∙ ap (λ z. a ∷ pending nid (queue_of (entry_of p z))) (sym after.pipes),
    Delivered-Alike j a before after d,
  )

  module _ (pipe_at : ℕ → Pipe) (grid : List ℕ) (nid : ℕ) where
    send_block-Outcome :
        (j p : ℕ) (w : World D) {w' : World D}
        → transfer pipe_at grid nid (block_to_pipe j p) w ≡ ok w'
        → Outcome nid (block_to_pipe j p) w w'
    unfolding transfer Outcome send
    send_block-Outcome j p w {w'} h =
        let (b, hb, h₁) = >>=-eq-ok (of_heap_result (block_at w.heap j)) _ h in
        let (n, hn, h₂) = >>=-eq-ok (of_pipe_result (num_receivers grid (pipe_at p).dst)) _ h₁ in
        let found = block_at-eq w.heap j (of_heap_result-eq (block_at w.heap j) hb) in
        let old = entry_of p w.pipe_buffer in
        let table = sym (world-eq (λ z. z.pipe_buffer) h₂) in
        (
          b.buf,
          ap (Option.map (λ z. z.buf)) found,
          λ o.
              ap (λ z. pending o (queue_of (entry_of p z))) table
              ∙ ap (λ z. pending o (queue_of z)) (entry_of-put p (send b.buf n old) w.pipe_buffer)
              ∙ pending-new o (queue_of old) _ refl,
        )

    write_tensor-Outcome :
        (j t : ℕ) (w : World D) {w' : World D}
        → transfer pipe_at grid nid (block_to_tensor j t) w ≡ ok w'
        → Outcome nid (block_to_tensor j t) w w'
    unfolding transfer Outcome tensor_at
    write_tensor-Outcome j t w {w'} h =
        let (b, hb, h₁) = >>=-eq-ok (of_heap_result (block_at w.heap j)) _ h in
        let (x, hx, h₂) = >>=-eq-ok (of_heap_result (tensor_at w.heap b.buf)) _ h₁ in
        let (y, hy, h₃) = >>=-eq-ok (of_heap_result (tensor_at w.heap t)) _ h₂ in
        let (_, h₄) = guard-ok (prod x.shape == prod y.shape) reshape_mismatch _ h₃ in
        let found = block_at-eq w.heap j (of_heap_result-eq (block_at w.heap j) hb) in
        let tensors = sym (world-eq (λ z. z.heap.tensors) h₄) in
        let written : Tensor D = record y { elements = y.cast x.elements } in
        (
          ap (λ z. Option.map (λ v. v.elements) (get_elem? z t)) tensors
              ∙ ap (Option.map (λ v. v.elements))
                  (get_elem?-set_found w.heap.tensors t written (tensor_at-eq w.heap t hy))
              ∙ sym (
                  ap (λ o. converted w.heap t (Option.map (λ b. b.buf) o)) found
                  ∙ ap (λ o. convert o (get_elem? w.heap.tensors b.buf)) (tensor_at-eq w.heap t hy)
                  ∙ ap (convert (some y)) (tensor_at-eq w.heap b.buf hx)),
          λ u ne.
              ap (λ z. Option.map (λ v. v.elements) (get_elem? z u)) tensors
              ∙ ap (Option.map (λ v. v.elements))
                  (get_elem?-set_ne w.heap.tensors written (λ e. ne (sym e))),
        )

    take_message-Outcome :
        (p j : ℕ) (w : World D) {w' : World D}
        → transfer pipe_at grid nid (pipe_to_block p j) w ≡ ok w'
        → Outcome nid (pipe_to_block p j) w w'
    unfolding transfer Outcome receive
    take_message-Outcome p j w {w'} h =
        let (b, hb, h₁) = >>=-eq-ok (of_heap_result (block_at w.heap j)) _ h in
        let fits = λ (t : ℕ). same_shape w.heap t b.buf in
        let old = entry_of p w.pipe_buffer in
        let (r, hr, h₂) = >>=-eq-ok (of_buffer_result (receive fits nid old)) _ h₁ in
        let (w₁, hw, h₃) = >>=-eq-ok (fill_block j r.0 w) _ h₂ in
        let (s, hs, h₄) =
          >>=-eq-ok (take_first fits nid (queue_of old)) _
            (of_buffer_result-eq (receive fits nid old) hr) in
        let e = take_first-pending fits nid (queue_of old) hs in
        let d = fill_block-Delivered j r.0 w hw in
        let (same, left) = taken-eq h₄ in
        let table = sym (world-eq (λ z. z.pipe_buffer) h₃) in
        (
          r.0,
          e
              ∙ ap (λ a. a ∷ pending nid s.1) same
              ∙ ap (λ q. r.0 ∷ pending nid q) left
              ∙ ap (λ o. r.0 ∷ pending nid (queue_of o)) (sym (entry_of-put p r.1 w₁.pipe_buffer))
              ∙ ap (λ z. r.0 ∷ pending nid (queue_of (entry_of p z))) (sym table),
          record {
            data_of = ap (λ z. contents z j) (sym (world-eq (λ z. z.heap) h₃)) ∙ d.data_of;
            others = λ k ne apart.
                ap (λ z. contents z k) (sym (world-eq (λ z. z.heap) h₃)) ∙ d.others k ne apart;
          },
        )

    pub transfer-Outcome :
        (h : Handler) (w : World D) {w' : World D}
        → transfer pipe_at grid nid h w ≡ ok w'
        → Outcome nid h w w'
    unfolding transfer Outcome
    transfer-Outcome (tensor_to_block t j) w h = fill_block-Delivered j t w h
    transfer-Outcome (block_to_tensor j t) w h = write_tensor-Outcome j t w h
    transfer-Outcome (block_to_pipe j p) w h = send_block-Outcome j p w h
    transfer-Outcome (pipe_to_block p j) w h = take_message-Outcome p j w h
