-- ===== src/Copy/Delivers.antt =====
-- A copy moves its data once, at the call or at the wait.
use mathlib.Core.Path.{subst}
use ml_tt_lang.Prelude.{
  ℕ, ◌≡◌, refl, sym, ap, ◌∙◌, true, false, some, List, get_elem?, inl, inr, Bool-cases, ◌==◌,
  Option-cases, ==_iff, get_elem?-set_ne,
}
use ml_tt_lang.Result.{ok}
use ml_tt_lang.Pipe.{Pipe}
use ml_tt_lang.Copy.{Endpoint, Handler, Transaction, World, starts_on_copy, finish, wait}
use ml_tt_lang.Copy.Outcome.{Outcome, Alike, Outcome-Alike, transfer-Outcome, world-eq}
use ml_tt_lang.Copy.Parts.{IsCompleted, Alike-refl, finish-parts}

-- `meanwhile` is what other kernels do while this one waits for a transaction; they do not touch its
-- transactions.
module _ {D : Type 0} (pipe_at : ℕ → Pipe) (grid : List ℕ) (nid : ℕ)
    (meanwhile : ℕ → World D → World D)
    (own : (i : ℕ) (w : World D) → (meanwhile i w).transactions ≡ w.transactions) where
  own-found :
      (i k : ℕ) (w : World D) {tx : Transaction}
      → get_elem? w.transactions k ≡ some tx
      → get_elem? (meanwhile i w).transactions k ≡ some tx
  own-found i k w found = ap (λ l. get_elem? l k) (own i w) ∙ found

  wait-finish :
      (i : ℕ) (tx : Transaction) (w : World D) {w' : World D}
      → get_elem? w.transactions i ≡ some tx
      → tx.completed ≡ false
      → wait pipe_at grid nid meanwhile i w ≡ ok w'
      → finish pipe_at grid nid i tx (meanwhile i w) ≡ ok w'
  unfolding wait
  wait-finish i tx w found due h = rw (wait, found, due) at h

  -- A wait() for a copy whose transfer was not made at the call returns with the transaction
  -- completed and with what the transfer is to do done, from the state in which the scheduler
  -- resumed the kernel: a block has the data of the tensor, or of the first message that the node
  -- lacked and has then taken, and the blocks of other tensors have what they had; or a tensor has
  -- the data of the block. Data that are copied are converted to the dtype of the tensor that takes
  -- them, except that a block whose tensor has another shape takes the source's tensor itself. The
  -- other kernels, which run in between in any way, are taken to leave this kernel's transactions
  -- alone.
  pub wait-Outcome :
      (i : ℕ) (tx : Transaction) (w : World D) {w' : World D}
      → get_elem? w.transactions i ≡ some tx
      → tx.completed ≡ false
      → tx.transfer_performed ≡ false
      → wait pipe_at grid nid meanwhile i w ≡ ok w'
      → Outcome nid tx.handler (meanwhile i w) w' × IsCompleted i w'
  wait-Outcome i tx w found due unmoved h =
      let v = meanwhile i w in
      let (w₁, moved, after, done, _) =
        finish-parts pipe_at grid nid i tx v (own-found i i w found)
          (wait-finish i tx w found due h) in
      let o = transfer-Outcome pipe_at grid nid tx.handler v (rw unmoved at moved) in
      (Outcome-Alike nid tx.handler (Alike-refl v) after o, done)

  wait-IsCompleted :
      (i : ℕ) (tx : Transaction) (w : World D) {w' : World D}
      → get_elem? w.transactions i ≡ some tx
      → wait pipe_at grid nid meanwhile i w ≡ ok w'
      → IsCompleted i w'
  unfolding wait
  wait-IsCompleted i tx w {w'} found h = elim (Bool-cases tx.completed) [
    | inr due ↦
        (finish-parts pipe_at grid nid i tx (meanwhile i w) (own-found i i w found)
          (wait-finish i tx w found due h)).3
    | inl done ↦ (
      tx,
      ap (λ z. get_elem? z i) (sym (world-eq (λ z. z.transactions) (rw (wait, found, done) at h)))
          ∙ found,
      done,
    )
  ]

  -- What a copy that waits at once does between `w` and `w'`, with `v` where the wait begins. A send
  -- is made before it, and the wait changes no data and no pipe; any other transfer is made after it,
  -- and before it no data and no pipe has changed.
  pub Waited : Endpoint → Endpoint → ℕ → Handler → World D → World D → World D → Type 0
  Waited src dst i h w v w' =
      (starts_on_copy src dst ≡ true → Outcome nid h w v × Alike (meanwhile i v) w')
      × (starts_on_copy src dst ≡ false → Alike w v × Outcome nid h (meanwhile i v) w')

  -- A wait() that has returned is done with: the next one changes nothing.
  pub wait-again :
      (i : ℕ) (w : World D) {w' : World D}
      → wait pipe_at grid nid meanwhile i w ≡ ok w'
      → IsCompleted i w' × (wait pipe_at grid nid meanwhile i w' ≡ ok w')
  unfolding wait
  wait-again i w {w'} h = elim (Option-cases (get_elem? w.transactions i)) [
    | inl missing ↦ cc (rw (wait, missing) at h)
    | inr (tx, found) ↦
        let done : IsCompleted i w' = wait-IsCompleted i tx w found h in
        (done, rw (wait, done.1, done.2) refl)
  ]

  others-kept :
      (i k : ℕ) (tx : Transaction) (w : World D) {w' : World D}
      → get_elem? w.transactions i ≡ some tx
      → (i == k) ≡ false
      → wait pipe_at grid nid meanwhile i w ≡ ok w'
      → get_elem? w'.transactions k ≡ get_elem? w.transactions k
  unfolding wait
  others-kept i k tx w found other h = elim (Bool-cases tx.completed) [
    | inl done ↦
        ap (λ z. get_elem? z k) (sym (world-eq (λ z. z.transactions) (rw (wait, found, done) at h)))
    | inr due ↦
        let written =
          (finish-parts pipe_at grid nid i tx (meanwhile i w) (own-found i i w found)
            (wait-finish i tx w found due h)).4 in
        ap (λ z. get_elem? z k) written
        ∙ get_elem?-set_ne (meanwhile i w).transactions _ (λ e. cc ((==_iff i k).1 e, other))
        ∙ ap (λ l. get_elem? l k) (own i w)
  ]

  -- A wait() keeps what is completed.
  pub wait-keeps :
      (i k : ℕ) (w : World D) {w' : World D}
      → wait pipe_at grid nid meanwhile i w ≡ ok w'
      → IsCompleted k w
      → IsCompleted k w'
  unfolding wait
  wait-keeps i k w {w'} h (tx, found, done) = elim (Bool-cases (i == k)) [
    | inl same ↦ subst (λ z. IsCompleted z w') ((==_iff i k).0 same) (wait-again i w h).0
    | inr other ↦ elim (Option-cases (get_elem? w.transactions i)) [
      | inl missing ↦ cc (rw (wait, missing) at h)
      | inr (ty, here) ↦ (tx, others-kept i k ty w here other h ∙ found, done)
    ]
  ]
