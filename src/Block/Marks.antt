-- ===== src/Block/Marks.antt =====
-- What the marks of blocks leave as it is: the tensors, and the references of the blocks.
use mathlib.Core.Option
use mathlib.Core.Path.{subst}
use ml_tt_lang.Prelude.{
  ℕ, zero, suc, ◌≡◌, refl, sym, ap, ◌∙◌, Bool, false, Option, some, List, [], ◌∷◌, map, arith,
  get_elem?, set, inl, inr, Option-cases, Bool-cases, if◌then◌else◌,
}
use ml_tt_lang.Result.{Result, ok, >>=-eq-ok, Result-cases}
use ml_tt_lang.BlockMachine.{BlockStateMachine, Mark, store_read_complete, mark}
use ml_tt_lang.Block.{
  Block, Heap, HeapError, block_at, put_block, mark_block, confirm, mark_store_read_complete,
  mark_all_read, has_dfb, add, discard,
}

module _ {ℓ} {A : Type ℓ} where
  pub get_elem?-set_found :
      (xs : List A) (i : ℕ) (v : A) {x : A}
      → get_elem? xs i ≡ some x
      → get_elem? (set xs i v) i ≡ some v
  get_elem?-set_found [] i v h = cc
  get_elem?-set_found (x ∷ xs) zero v h = refl
  get_elem?-set_found (x ∷ xs) (suc i) v h = get_elem?-set_found xs i v h

  -- A write that keeps `f` of the entry keeps `map f`.
  pub map-set {κ} :
      {B : Type κ} (f : A → B) (xs : List A) (i : ℕ) (v : A) {x : A}
      → get_elem? xs i ≡ some x
      → f v ≡ f x
      → map f (set xs i v) ≡ map f xs
  map-set f [] i v h e = refl
  map-set f (y ∷ ys) zero v h e = cc (h, e)
  map-set f (y ∷ ys) (suc i) v h e = ap (λ zs. f y ∷ zs) (map-set f ys i v h e)

  pub get_elem?-map {κ} :
      {B : Type κ} (f : A → B) (xs : List A) (i : ℕ)
      → get_elem? (map f xs) i ≡ Option.map f (get_elem? xs i)
  get_elem?-map f [] i = refl
  get_elem?-map f (x ∷ xs) zero = refl
  get_elem?-map f (x ∷ xs) (suc i) = get_elem?-map f xs i

-- The references that a block holds: its tensor and its buffer.
abbrev pub refs : Block → ℕ × Option ℕ
refs b = (b.buf, b.dfb)

module _ {D : Type 0} where
  ap_ok :
      {B : Type 0} (f : Heap D → B) {h h' : Heap D}
      → ◌≡◌ {A = Result HeapError (Heap D)} (ok h) (ok h')
      → f h ≡ f h'
  ap_ok f e = ap f (cc e)

  -- `h'` has the tensors of `h`, and its blocks have the same references.
  pub record Frame (h h' : Heap D) : Type 0 where
    pub tensors : h'.tensors ≡ h.tensors
    pub blocks : map refs h'.blocks ≡ map refs h.blocks

  pub Frame-refl : (h : Heap D) → Frame h h
  Frame-refl h = record { tensors = refl; blocks = refl }

  pub Frame-trans : {h h' h'' : Heap D} → Frame h h' → Frame h' h'' → Frame h h''
  Frame-trans f g = record { tensors = g.tensors ∙ f.tensors; blocks = g.blocks ∙ f.blocks }

  pub block_at-eq :
      (h : Heap D) (i : ℕ) {b : Block} → block_at h i ≡ ok b → get_elem? h.blocks i ≡ some b
  unfolding block_at
  block_at-eq h i e = ground arith

  -- What a successful mark did.
  pub mark_block-eq :
      (m : Mark) (i : ℕ) (h : Heap D) {h' : Heap D}
      → mark_block m i h ≡ ok h'
      → (b : Block) × (s : BlockStateMachine) × (get_elem? h.blocks i ≡ some b)
        × (mark m b.machine ≡ ok s)
        × (h' ≡ put_block i (record b { machine = s }) h)
  unfolding mark_block
  mark_block-eq m i h e = elim (Option-cases (get_elem? h.blocks i)) [
    | inl missing ↦ cc (rw missing at e)
    | inr (b, hb) ↦ elim (Result-cases (mark m b.machine)) [
      | inl (s, hs) ↦ (b, s, hb, hs, cc (rw (hb, hs) at e))
      | inr (x, hx) ↦ cc (rw (hb, hx) at e)
    ]
  ]

  pub confirm-eq :
      (p : Bool) (i : ℕ) (h : Heap D) {h' : Heap D}
      → confirm p i h ≡ ok h'
      → (b : Block) × (get_elem? h.blocks i ≡ some b)
        × (h'.tensors ≡ h.tensors)
        × (h'.blocks ≡ set h.blocks i (record b { store_confirmation_pending = p }))
        × (h'.pending_confirmations ≡ (
            if has_dfb b.dfb
            then (if p then add i h.pending_confirmations else discard i h.pending_confirmations)
            else h.pending_confirmations))
  unfolding confirm
  confirm-eq p i h e = elim (Option-cases (get_elem? h.blocks i)) [
    | inl missing ↦ cc (rw missing at e)
    | inr (b, hb) ↦ elim (Bool-cases (has_dfb b.dfb)) [
      | inl d ↦
          let q = rw (hb, d) at e in
          (
            b,
            hb,
            sym (ap_ok (λ k. k.tensors) q),
            sym (ap_ok (λ k. k.blocks) q),
            rw d (sym (ap_ok (λ k. k.pending_confirmations) q)),
          )
      | inr d ↦
          let q = rw (hb, d) at e in
          (
            b,
            hb,
            sym (ap_ok (λ k. k.tensors) q),
            sym (ap_ok (λ k. k.blocks) q),
            rw d (sym (ap_ok (λ k. k.pending_confirmations) q)),
          )
    ]
  ]

  pub mark_block-Frame :
      (m : Mark) (i : ℕ) (h : Heap D) {h' : Heap D}
      → mark_block m i h ≡ ok h'
      → Frame h h' × (h'.pending_confirmations ≡ h.pending_confirmations)
  unfolding put_block
  mark_block-Frame m i h e =
      let (b, s, hb, hs, eq) = mark_block-eq m i h e in
      (
        record {
          tensors = ap (λ k. k.tensors) eq;
          blocks = ap (λ k. map refs k.blocks) eq ∙ map-set refs h.blocks i _ hb refl;
        },
        ap (λ k. k.pending_confirmations) eq,
      )

  pub confirm-Frame :
      (p : Bool) (i : ℕ) (h : Heap D) {h' : Heap D} → confirm p i h ≡ ok h' → Frame h h'
  confirm-Frame p i h e =
      let (b, hb, t, bs, pc) = confirm-eq p i h e in
      record { tensors = t; blocks = ap (map refs) bs ∙ map-set refs h.blocks i _ hb refl }

  pub mark_store_read_complete-Frame :
      (i : ℕ) (h : Heap D) {h' : Heap D} → mark_store_read_complete i h ≡ ok h' → Frame h h'
  unfolding mark_store_read_complete
  mark_store_read_complete-Frame i h e =
      let (k, e₁, e₂) = >>=-eq-ok (mark_block store_read_complete i h) (confirm false i) e in
      Frame-trans (mark_block-Frame store_read_complete i h e₁).0 (confirm-Frame false i k e₂)

  pub mark_all_read-Frame :
      (is : List ℕ) (h : Heap D) {h' : Heap D} → mark_all_read is h ≡ ok h' → Frame h h'
  unfolding mark_all_read
  mark_all_read-Frame [] h {h'} e = subst (Frame h) (cc e) (Frame-refl h)
  mark_all_read-Frame (i ∷ is) h e =
      let (k, e₁, e₂) = >>=-eq-ok (mark_store_read_complete i h) (mark_all_read is) e in
      Frame-trans (mark_store_read_complete-Frame i h e₁) (mark_all_read-Frame is k e₂)
