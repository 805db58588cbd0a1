-- ===== src/Copy/Group.antt =====
-- Transactions that are waited for together.
use mathlib.Core.Path.{subst}
use ml_tt_lang.Prelude.{ℕ, ◌≡◌, refl, sym, ap, true, not, List, [], ◌∷◌, All}
use ml_tt_lang.Result.{Result, ok, err, >>=-eq-ok, guard-ok}
use ml_tt_lang.Pipe.{Pipe}
use ml_tt_lang.Copy.{
  CopyError, add_after_wait, waited_twice, World, wait, GroupTransfer, add_transfer, wait_each,
  wait_all,
}
use ml_tt_lang.Copy.Outcome.{world-eq}
use ml_tt_lang.Copy.Parts.{IsCompleted}
use ml_tt_lang.Copy.Delivers.{wait-again, wait-keeps}

module _ {D : Type 0} (pipe_at : ℕ → Pipe) (grid : List ℕ) (nid : ℕ)
    (meanwhile : ℕ → World D → World D)
    (own : (i : ℕ) (w : World D) → (meanwhile i w).transactions ≡ w.transactions) where
  wait_each-keeps :
      (is : List ℕ) (k : ℕ) (w : World D) {w' : World D}
      → wait_each pipe_at grid nid meanwhile is w ≡ ok w'
      → IsCompleted k w
      → IsCompleted k w'
  unfolding wait_each
  wait_each-keeps [] k w h c = subst (IsCompleted k) (world-eq (λ z. z) h) c
  wait_each-keeps (i ∷ is) k w h c =
      let (v, h₁, h₂) = >>=-eq-ok (wait pipe_at grid nid meanwhile i w) _ h in
      wait_each-keeps is k v h₂ (wait-keeps pipe_at grid nid meanwhile own i k w h₁ c)

  wait_each-IsCompleted :
      (is : List ℕ) (w : World D) {w' : World D}
      → wait_each pipe_at grid nid meanwhile is w ≡ ok w'
      → All (λ i. IsCompleted i w') is
  unfolding wait_each
  wait_each-IsCompleted [] w h = tt
  wait_each-IsCompleted (i ∷ is) w h =
      let (v, h₁, h₂) = >>=-eq-ok (wait pipe_at grid nid meanwhile i w) _ h in
      (
        wait_each-keeps is i v h₂ (wait-again pipe_at grid nid meanwhile own i w h₁).0,
        wait_each-IsCompleted is v h₂,
      )

  waited-eq :
      {g k : GroupTransfer} {w v : World D}
      → ◌≡◌ {A = Result CopyError (GroupTransfer × World D)} (ok (g, w)) (ok (k, v))
      → (g ≡ k) × (w ≡ v)
  waited-eq {g} {k} {w} {v} e =
      let same : (g, w) ≡ (k, v) = cc e in
      (
        ap (λ (z : GroupTransfer × World D). z.0) same,
        ap (λ (z : GroupTransfer × World D). z.1) same,
      )

  -- After a wait_all() that returns, every transaction of the group is completed, and the group
  -- refuses both another transaction and another wait_all(), where other kernels, which run during
  -- the waits, leave this kernel's transactions alone.
  pub wait_all-IsCompleted :
      (g : GroupTransfer) (w : World D) {g' : GroupTransfer} {w' : World D}
      → wait_all pipe_at grid nid meanwhile g w ≡ ok (g', w')
      → All (λ i. IsCompleted i w') g.transfers
        × ((i : ℕ) → add_transfer i g' ≡ err add_after_wait)
        × ((v : World D) → wait_all pipe_at grid nid meanwhile g' v ≡ err waited_twice)
  unfolding wait_all add_transfer
  wait_all-IsCompleted g w {g'} {w'} h =
      let (_, h₁) = guard-ok (not g.waited) waited_twice _ h in
      let (v, h₂, h₃) = >>=-eq-ok (wait_each pipe_at grid nid meanwhile g.transfers w) _ h₁ in
      let (eg, ev) = waited-eq h₃ in
      let shut : g'.waited ≡ true = sym (ap (λ (z : GroupTransfer). z.waited) eg) in
      (
        subst (λ z. All (λ i. IsCompleted i z) g.transfers) ev
            (wait_each-IsCompleted g.transfers w h₂),
        λ i. rw (add_transfer, shut) refl,
        λ u. rw (wait_all, shut) refl,
      )
