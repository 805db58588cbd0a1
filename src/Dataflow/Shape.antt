-- ===== src/Dataflow/Shape.antt =====
-- The element shape that a new buffer takes from a tiled likeness tensor.
use mathlib.Core.Path.{subst}
use ml_tt_lang.Prelude.{
  ℕ, ap, ◌∙◌, ◌%◌, ◌/◌, ◌≤◌, ◌≡◌, true, List, [], ◌∷◌, inl, inr, Bool-cases, arith, length, leb,
  leb→le, ◌==◌, ==_iff,
}
use ml_tt_lang.Result.{ok, ◌>>◌, >>=-eq-ok, guard, Result, guard-ok}
use ml_tt_lang.DfbState
use ml_tt_lang.Block.{tile}
use ml_tt_lang.Dataflow.{
  Dataflow, DataflowError, check_dims, tile_element_shape, element_shape, create, all_positive,
  no_dimension, bad_shape, bad_block_count, rank_mismatch, not_aligned, too_small,
}

-- As many dimensions, each at most the other's.
abbrev pub Fits : List ℕ → List ℕ → Type 0
Fits [] [] = Unit
Fits (x ∷ xs) (y ∷ ys) = (x ≤ y) × Fits xs ys
Fits _ _ = ⊥

ok-eq :
    {A B : Type 0} (f : A → B) {x y : A}
    → ◌≡◌ {A = Result DataflowError A} (ok x) (ok y)
    → f x ≡ f y
ok-eq f e = ap f (cc e)

element-eq : {x y : List ℕ} → ◌≡◌ {A = Result DataflowError (List ℕ)} (ok x) (ok y) → x ≡ y
element-eq e = cc e

check_dims-Fits :
    (likeness shape : List ℕ)
    → length likeness ≡ length shape
    → check_dims likeness shape ≡ ok tt
    → Fits (tile_element_shape shape) likeness
unfolding check_dims tile_element_shape
check_dims-Fits [] [] e h = tt
check_dims-Fits [] (t ∷ ts) e h = omega arith
check_dims-Fits (l ∷ ls) [] e h = omega arith
check_dims-Fits (l ∷ ls) (t ∷ ts) e h = elim (Bool-cases (leb (length ts) 1)) [
  | inl last ↦
      let h' = rw (check_dims, last) at h in
      let (_, h₁) =
        guard-ok (l % 32 == 0) not_aligned (guard (leb t (l / 32)) too_small >> check_dims ls ts)
          h' in
      let (room, h₂) = guard-ok (leb t (l / 32)) too_small (check_dims ls ts) h₁ in
      let le = leb→le t (l / 32) room in
      rw (tile_element_shape, last) (omega arith, check_dims-Fits ls ts (omega arith) h₂)
  | inr outer ↦
      let (room, h₂) =
        guard-ok (leb t l) too_small (check_dims ls ts) (rw (check_dims, outer) at h) in
      rw (tile_element_shape, outer) (leb→le t l room, check_dims-Fits ls ts (omega arith) h₂)
]

-- A buffer that was created on a tiled likeness tensor has slots of no more elements than the tensor
-- in each dimension, and all numbers of its own shape and its block count are positive.
pub create-Fits :
    (A : Type 0) (likeness shape : List ℕ) (block_count : ℕ) {d : Dataflow A}
    → create A likeness tile shape block_count ≡ ok d
    → Fits d.element_shape likeness × (all_positive d.shape ≡ true) × (1 ≤ d.state.cap)
unfolding create element_shape DfbState.init
create-Fits A likeness shape block_count {d} h =
    let (_, h₁) = guard-ok (leb 1 (length shape)) no_dimension _ h in
    let (positive, h₂) = guard-ok (all_positive shape) bad_shape _ h₁ in
    let (count, h₃) = guard-ok (leb 1 block_count) bad_block_count _ h₂ in
    let (element, he, h₄) = >>=-eq-ok (element_shape likeness tile shape) _ h₃ in
    let (rank, e₁) =
      guard-ok (length likeness == length shape) rank_mismatch
        (check_dims likeness shape >> ok (tile_element_shape shape)) he in
    let (_, dims, e₂) =
      >>=-eq-ok (check_dims likeness shape) (λ _. ok (tile_element_shape shape)) e₁ in
    let fits =
      check_dims-Fits likeness shape ((==_iff (length likeness) (length shape)).0 rank) dims in
    let shape_is : element ≡ d.element_shape = ok-eq (λ (x : Dataflow A). x.element_shape) h₄ in
    let own : shape ≡ d.shape = ok-eq (λ (x : Dataflow A). x.shape) h₄ in
    let cap : block_count ≡ d.state.cap = ok-eq (λ (x : Dataflow A). x.state.cap) h₄ in
    (
      subst (λ z. Fits z likeness) (element-eq e₂ ∙ shape_is) fits,
      subst (λ z. all_positive z ≡ true) own positive,
      subst (λ z. 1 ≤ z) cap (leb→le 1 block_count count),
    )
