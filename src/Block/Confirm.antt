-- ===== src/Block/Confirm.antt =====
-- `store` confirms the sources of a temporary block: none of them waits for a store afterwards.
use mathlib.Core.Path.{subst}
use ml_tt_lang.Prelude.{
  ℕ, zero, suc, ◌≡◌, ◌≢◌, refl, sym, ap, ◌∙◌, Bool, true, false, Option, none, some, List, [], ◌∷◌,
  get_elem?, set, inl, inr, Option-cases, Bool-cases, arith, ◌==◌, ==_iff, ne→==, ◌||◌,
}
use ml_tt_lang.Result.{ok, >>=-eq-ok, guard}
use ml_tt_lang.BlockMachine.{Mark, store_complete, store_read_complete}
use ml_tt_lang.Block.{
  Block, Heap, block_at, put_block, mark_block, confirm, mark_store_read_complete, mark_all_read,
  sources_to_mark, transfer, store, check_can_write, shape_eq, prod, shape_mismatch, member, unread,
  unread_sources, is_consumed,
}
use ml_tt_lang.Block.Store.{fst_ok}
use ml_tt_lang.Block.Marks.{block_at-eq, mark_block-eq, confirm-eq}

-- Whether the block at a place waits for a confirmation.
abbrev pub flag : Option Block → Bool
flag none = false
flag (some b) = b.store_confirmation_pending

set-flag_same :
    (xs : List Block) (i j : ℕ) (v : Block)
    → (get_elem? xs i ≢ none → v.store_confirmation_pending ≡ flag (get_elem? xs i))
    → flag (get_elem? (set xs i v) j) ≡ flag (get_elem? xs j)
set-flag_same [] i j v h = refl
set-flag_same (x ∷ xs) zero zero v h = h (λ e. cc e)
set-flag_same (x ∷ xs) zero (suc j) v h = refl
set-flag_same (x ∷ xs) (suc i) zero v h = refl
set-flag_same (x ∷ xs) (suc i) (suc j) v h = set-flag_same xs i j v h

set-flag_cleared :
    (xs : List Block) (i j : ℕ) (v : Block)
    → v.store_confirmation_pending ≡ false
    → flag (get_elem? (set xs i v) j) ≡ true
    → (flag (get_elem? xs j) ≡ true) × (i ≢ j)
set-flag_cleared [] i j v c h = cc h
set-flag_cleared (x ∷ xs) zero zero v c h = cc (c, h)
set-flag_cleared (x ∷ xs) zero (suc j) v c h = (h, λ e. omega arith)
set-flag_cleared (x ∷ xs) (suc i) zero v c h = (h, λ e. omega arith)
set-flag_cleared (x ∷ xs) (suc i) (suc j) v c h =
    let (f, ne) = set-flag_cleared xs i j v c h in (f, λ e. ne (omega arith))

or-true : (a : Bool) {b : Bool} → b ≡ true → (a || b) ≡ true
or-true true e = refl
or-true false e = e

some-eq : {c b : Block} → ◌≡◌ {A = Option Block} (some c) (some b) → c ≡ b
some-eq e = cc e

module _ {D : Type 0} where
  abbrev pub is_pending : Heap D → ℕ → Bool
  is_pending h i = flag (get_elem? h.blocks i)

  mark_block-is_pending :
      (m : Mark) (i : ℕ) (h : Heap D) {h' : Heap D} (j : ℕ)
      → mark_block m i h ≡ ok h'
      → is_pending h' j ≡ is_pending h j
  unfolding put_block
  mark_block-is_pending m i h j e =
      let (b, s, hb, hs, eq) = mark_block-eq m i h e in
      ap (λ k. is_pending k j) eq ∙ set-flag_same h.blocks i j _ (λ _. sym (ap flag hb))

  mark_store_read_complete-is_pending :
      (i : ℕ) (h : Heap D) {h' : Heap D} (j : ℕ)
      → mark_store_read_complete i h ≡ ok h'
      → is_pending h' j ≡ true
      → (is_pending h j ≡ true) × (i ≢ j)
  unfolding mark_store_read_complete
  mark_store_read_complete-is_pending i h j e p =
      let (k, e₁, e₂) = >>=-eq-ok (mark_block store_read_complete i h) (confirm false i) e in
      let (b, hb, _, bs, _) = confirm-eq false i k e₂ in
      let (q, ne) =
        set-flag_cleared k.blocks i j (record b { store_confirmation_pending = false }) refl
          (sym (ap (λ z. flag (get_elem? z j)) bs) ∙ p) in
      (sym (mark_block-is_pending store_read_complete i h j e₁) ∙ q, ne)

  mark_all_read-is_pending :
      (is : List ℕ) (h : Heap D) {h' : Heap D} (j : ℕ)
      → mark_all_read is h ≡ ok h'
      → is_pending h' j ≡ true
      → (is_pending h j ≡ true) × (member j is ≡ false)
  unfolding mark_all_read
  mark_all_read-is_pending [] h {h'} j e p =
      (ap (λ k. is_pending k j) {x = h} {y = h'} (cc e) ∙ p, refl)
  mark_all_read-is_pending (i ∷ is) h j e p =
      let (k, e₁, e₂) = >>=-eq-ok (mark_store_read_complete i h) (mark_all_read is) e in
      let (q, m) = mark_all_read-is_pending is k j e₂ p in
      let (r, ne) = mark_store_read_complete-is_pending i h j e₁ q in (r, rw (ne→== i j ne, m) refl)

  unread_sources-member :
      (h : Heap D) (is : List ℕ) (j : ℕ)
      → member j is ≡ true
      → unread h j ≡ true
      → member j (unread_sources h is) ≡ true
  unread_sources-member h [] j m u = m
  unread_sources-member h (i ∷ is) j m u = elim (Bool-cases (i == j)) [
    | inl eq ↦
        let ui = subst (λ k. unread h k ≡ true) (sym ((==_iff i j).0 eq)) u in rw ui (rw eq refl)
    | inr ne ↦
        let later = unread_sources-member h is j (rw ne at m) u in
        elim (Bool-cases (unread h i)) [
          | inl ui ↦ rw ui (rw (ne, later) refl)
          | inr ui ↦ rw ui later
        ]
  ]

  flag-unread : (h : Heap D) (j : ℕ) → is_pending h j ≡ true → unread h j ≡ true
  flag-unread h j p = elim (Option-cases (get_elem? h.blocks j)) [
    | inl missing ↦ cc (rw missing at p)
    | inr (b, hb) ↦ rw (unread, hb) (or-true _ (rw hb at p))
  ]

  transfer-is_pending :
      (dst t j : ℕ) (h : Heap D) {h' : Heap D} {w : Option (ℕ × ℕ × ℕ)}
      → transfer dst t h ≡ ok (h', w)
      → is_pending h' j ≡ is_pending h j
  unfolding transfer put_block
  transfer-is_pending dst t j h e = elim (Option-cases (get_elem? h.blocks dst)) [
    | inl missing ↦ cc (rw missing at e)
    | inr (b, hb) ↦ elim (Option-cases (get_elem? h.tensors t)) [
      | inl missing ↦ cc (rw (hb, missing) at e)
      | inr (x, hx) ↦ elim (Option-cases (get_elem? h.tensors b.buf)) [
        | inl missing ↦ cc (rw (hb, hx, missing) at e)
        | inr (u, hu) ↦ elim (Bool-cases (shape_eq x.shape u.shape)) [
          | inl same ↦ sym (fst_ok (λ k. is_pending k j) (rw (hb, hx, hu, same) at e))
          | inr other ↦
              sym (fst_ok (λ k. is_pending k j) (rw (hb, hx, hu, other) at e))
              ∙ set-flag_same h.blocks dst j _ (λ _. sym (ap flag hb))
        ]
      ]
    ]
  ]

  -- The marks that a successful `store` made.
  store-is_pending :
      (dst items j : ℕ) (h : Heap D) {h' : Heap D} {w : Option (ℕ × ℕ × ℕ)} {b : Block}
      → store dst items h ≡ ok (h', w)
      → get_elem? h.blocks items ≡ some b
      → is_pending h' j ≡ true
      → (is_pending h j ≡ true) × (member j (sources_to_mark h items b) ≡ false)
  unfolding store
  store-is_pending dst items j h {b} e hb p =
      let (d, hd, e₁) = >>=-eq-ok (block_at h dst) _ e in
      let (_, _, e₂) = >>=-eq-ok (check_can_write d) _ e₁ in
      let (c, hc, e₃) = >>=-eq-ok (block_at h items) _ e₂ in
      let (_, _, e₄) = >>=-eq-ok (guard (prod c.shape == prod d.shape) shape_mismatch) _ e₃ in
      let (k, hk, e₅) = >>=-eq-ok (mark_all_read (sources_to_mark h items c) h) _ e₄ in
      let (l, hl, e₆) = >>=-eq-ok (mark_block store_complete dst k) _ e₅ in
      let q =
        sym (mark_block-is_pending store_complete dst k j hl)
        ∙ sym (transfer-is_pending dst c.buf j l e₆)
        ∙ p in
      let same : c ≡ b = some-eq (sym (block_at-eq h items hc) ∙ hb) in
      subst (λ z. (is_pending h j ≡ true) × (member j (sources_to_mark h items z) ≡ false)) same
        (mark_all_read-is_pending (sources_to_mark h items c) h j hk q)

  -- After a successful `store`, a wait() block that the stored temporary block was computed from
  -- does not wait for a store any longer, and no block has come to wait for one.
  pub store_confirms :
      (dst items : ℕ) (h : Heap D) {h' : Heap D} {w : Option (ℕ × ℕ × ℕ)} {b : Block}
      → store dst items h ≡ ok (h', w)
      → get_elem? h.blocks items ≡ some b
      → b.is_temporary ≡ true
      → is_consumed b ≡ false
      → (j : ℕ)
      → (member j b.source_blocks ≡ true → is_pending h' j ≡ false)
        × (is_pending h' j ≡ true → is_pending h j ≡ true)
  unfolding sources_to_mark
  store_confirms dst items h {h'} {b} e hb temporary wait j = (
    λ source. elim (Bool-cases (is_pending h' j)) [
      | inl p ↦
          let (q, m) = store-is_pending dst items j h e hb p in
          let marked = unread_sources-member h b.source_blocks j source (flag-unread h j q) in
          cc (rw (wait, temporary) at m, marked)
      | inr p ↦ p
    ],
    λ p. (store-is_pending dst items j h e hb p).0,
  )
