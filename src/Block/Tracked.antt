-- ===== src/Block/Tracked.antt =====
-- The set of blocks that wait for a store, `_pending_confirmations`, which is looked at when a kernel
-- ends, and the flags of the blocks in it.
use mathlib.Core.Path.{subst}
use ml_tt_lang.Prelude.{
  ℕ, ◌≡◌, refl, sym, ap, ◌∙◌, Bool, true, false, not, ◌&&◌, ◌||◌, Option, none, some, List, [], ◌∷◌,
  get_elem?, set, inl, inr, Option-cases, Bool-cases, get_elem?-set_ne, arith, ◌==◌, ==_iff,
  if◌then◌else◌,
}
use ml_tt_lang.Result.{ok, >>=-eq-ok, guard}
use ml_tt_lang.BlockMachine.{Mark, store_complete, store_read_complete}
use ml_tt_lang.Block.{
  Block, Heap, block_at, put_block, mark_block, confirm, mark_store_read_complete, mark_all_read,
  sources_to_mark, transfer, store, check_can_write, shape_eq, prod, shape_mismatch, member,
  is_consumed, has_dfb, add, discard,
}
use ml_tt_lang.Block.Store.{fst_ok}
use ml_tt_lang.Block.Marks.{mark_block-eq, confirm-eq, get_elem?-set_found}
use ml_tt_lang.Block.Confirm.{flag, is_pending, store_confirms}

-- Whether a block of a dataflow buffer waits for a confirmation.
abbrev pub waits : Option Block → Bool
waits none = false
waits (some b) = b.store_confirmation_pending && has_dfb b.dfb

member-add : (i j : ℕ) (s : List ℕ) → member j (add i s) ≡ ((i == j) || member j s)
member-add i j s = elim (Bool-cases (i == j)) [
  | inr other ↦ ground arith
  | inl same ↦
      let eq : i ≡ j = (==_iff i j).0 same in
      subst (λ z. member z (add i s) ≡ ((i == z) || member z s)) eq (ground arith)
]

member-discard : (i j : ℕ) (s : List ℕ) → member j (discard i s) ≡ (not (i == j) && member j s)
member-discard i j [] = ground arith
member-discard i j (k ∷ s) = ground (arith, member-discard i j s)

set-waits :
    (xs : List Block) (i j : ℕ) (v : Block) {b : Block}
    → get_elem? xs i ≡ some b
    → waits (get_elem? (set xs i v) j) ≡ (if i == j then waits (some v) else waits (get_elem? xs j))
set-waits xs i j v hb = elim (Bool-cases (i == j)) [
  | inl same ↦
      let eq : i ≡ j = (==_iff i j).0 same in
      rw same (
        subst (λ z. waits (get_elem? (set xs i v) z) ≡ waits (some v)) eq
          (ap waits (get_elem?-set_found xs i v hb)))
  | inr other ↦ rw other (ap waits (get_elem?-set_ne xs v (λ e. cc ((==_iff i j).1 e, other))))
]

set-waits_same :
    (xs : List Block) (i j : ℕ) (v : Block) {b : Block}
    → get_elem? xs i ≡ some b
    → waits (some v) ≡ waits (some b)
    → waits (get_elem? (set xs i v) j) ≡ waits (get_elem? xs j)
set-waits_same xs i j v {b} hb e = set-waits xs i j v hb ∙ elim (Bool-cases (i == j)) [
  | inr other ↦ rw other refl
  | inl same ↦
      let eq : i ≡ j = (==_iff i j).0 same in
      rw same (e ∙ sym (ap waits hb) ∙ ap (λ z. waits (get_elem? xs z)) eq)
]

-- The set after a confirmation: of a block with a buffer it has the new flag.
set-entered :
    (p d : Bool) (i j : ℕ) (s : List ℕ) (old : Bool)
    → member j s ≡ old
    → ((i == j) ≡ true → d ≡ false → old ≡ false)
    → member j (if d then (if p then add i s else discard i s) else s)
      ≡ (if i == j then p && d else old)
set-entered true true i j s old e h = ground (arith, member-add i j s)
set-entered false true i j s old e h = ground (arith, member-discard i j s)
set-entered p false i j s old e h = elim (Bool-cases (i == j)) [
  | inr other ↦ rw other e
  | inl same ↦ rw same (e ∙ h same refl ∙ no_flag p)
]
  where
    no_flag : (p : Bool) → false ≡ (p && false)
    no_flag true = refl
    no_flag false = refl

no_dfb-waits : (b : Block) → has_dfb b.dfb ≡ false → waits (some b) ≡ false
no_dfb-waits b e = elim (Bool-cases b.store_confirmation_pending) [
  | inl p ↦ rw p e
  | inr p ↦ rw p refl
]

waits-none : (o : Option Block) → flag o ≡ false → waits o ≡ false
waits-none none e = refl
waits-none (some b) e = rw (waits, e) refl

module _ {D : Type 0} where
  -- The block `j` is in the set just where it belongs to a buffer and waits for a confirmation.
  abbrev pub IsTracked : ℕ → Heap D → Type 0
  IsTracked j h = member j h.pending_confirmations ≡ waits (get_elem? h.blocks j)

  mark_block-IsTracked :
      (m : Mark) (i : ℕ) (h : Heap D) {h' : Heap D} (j : ℕ)
      → mark_block m i h ≡ ok h'
      → IsTracked j h
      → IsTracked j h'
  unfolding put_block
  mark_block-IsTracked m i h j e t =
      let (b, s, hb, hs, eq) = mark_block-eq m i h e in
      ap (λ k. member j k.pending_confirmations) eq
      ∙ t
      ∙ sym (set-waits_same h.blocks i j _ hb refl)
      ∙ sym (ap (λ k. waits (get_elem? k.blocks j)) eq)

  confirm-IsTracked :
      (p : Bool) (i : ℕ) (h : Heap D) {h' : Heap D} (j : ℕ)
      → confirm p i h ≡ ok h'
      → IsTracked j h
      → IsTracked j h'
  confirm-IsTracked p i h j e t =
      let (b, hb, _, bs, pc) = confirm-eq p i h e in
      ap (member j) pc
      ∙ set-entered p (has_dfb b.dfb) i j h.pending_confirmations (waits (get_elem? h.blocks j)) t
          (λ same none.
            ap (λ z. waits (get_elem? h.blocks z)) (sym ((==_iff i j).0 same))
            ∙ ap waits hb
            ∙ no_dfb-waits b none)
      ∙ sym (
          ap (λ z. waits (get_elem? z j)) bs
          ∙ set-waits h.blocks i j (record b { store_confirmation_pending = p }) hb)

  mark_store_read_complete-IsTracked :
      (i : ℕ) (h : Heap D) {h' : Heap D} (j : ℕ)
      → mark_store_read_complete i h ≡ ok h'
      → IsTracked j h
      → IsTracked j h'
  unfolding mark_store_read_complete
  mark_store_read_complete-IsTracked i h j e t =
      let (k, e₁, e₂) = >>=-eq-ok (mark_block store_read_complete i h) (confirm false i) e in
      confirm-IsTracked false i k j e₂ (mark_block-IsTracked store_read_complete i h j e₁ t)

  mark_all_read-IsTracked :
      (is : List ℕ) (h : Heap D) {h' : Heap D} (j : ℕ)
      → mark_all_read is h ≡ ok h'
      → IsTracked j h
      → IsTracked j h'
  unfolding mark_all_read
  mark_all_read-IsTracked [] h {h'} j e t = let same : h ≡ h' = cc e in subst (IsTracked j) same t
  mark_all_read-IsTracked (i ∷ is) h j e t =
      let (k, e₁, e₂) = >>=-eq-ok (mark_store_read_complete i h) (mark_all_read is) e in
      mark_all_read-IsTracked is k j e₂ (mark_store_read_complete-IsTracked i h j e₁ t)

  transfer-IsTracked :
      (dst t j : ℕ) (h : Heap D) {h' : Heap D} {w : Option (ℕ × ℕ × ℕ)}
      → transfer dst t h ≡ ok (h', w)
      → IsTracked j h
      → IsTracked j h'
  unfolding transfer put_block
  transfer-IsTracked dst t j h e tr = elim (Option-cases (get_elem? h.blocks dst)) [
    | inl missing ↦ cc (rw missing at e)
    | inr (b, hb) ↦ elim (Option-cases (get_elem? h.tensors t)) [
      | inl missing ↦ cc (rw (hb, missing) at e)
      | inr (x, hx) ↦ elim (Option-cases (get_elem? h.tensors b.buf)) [
        | inl missing ↦ cc (rw (hb, hx, missing) at e)
        | inr (u, hu) ↦ elim (Bool-cases (shape_eq x.shape u.shape)) [
          | inl same ↦
              let q = rw (hb, hx, hu, same) at e in
              sym (fst_ok (λ k. member j k.pending_confirmations) q)
              ∙ tr
              ∙ fst_ok (λ k. waits (get_elem? k.blocks j)) q
          | inr other ↦
              let q = rw (hb, hx, hu, other) at e in
              sym (fst_ok (λ k. member j k.pending_confirmations) q)
              ∙ tr
              ∙ sym (set-waits_same h.blocks dst j _ hb refl)
              ∙ fst_ok (λ k. waits (get_elem? k.blocks j)) q
        ]
      ]
    ]
  ]

  store-IsTracked :
      (dst items j : ℕ) (h : Heap D) {h' : Heap D} {w : Option (ℕ × ℕ × ℕ)}
      → store dst items h ≡ ok (h', w)
      → IsTracked j h
      → IsTracked j h'
  unfolding store
  store-IsTracked dst items j h e t =
      let (d, _, e₁) = >>=-eq-ok (block_at h dst) _ e in
      let (_, _, e₂) = >>=-eq-ok (check_can_write d) _ e₁ in
      let (c, _, e₃) = >>=-eq-ok (block_at h items) _ e₂ in
      let (_, _, e₄) = >>=-eq-ok (guard (prod c.shape == prod d.shape) shape_mismatch) _ e₃ in
      let (k, hk, e₅) = >>=-eq-ok (mark_all_read (sources_to_mark h items c) h) _ e₄ in
      let (l, hl, e₆) = >>=-eq-ok (mark_block store_complete dst k) _ e₅ in
      let t₁ = mark_all_read-IsTracked (sources_to_mark h items c) h j hk t in
      transfer-IsTracked dst c.buf j l e₆ (mark_block-IsTracked store_complete dst k j hl t₁)

  -- Where the set of blocks that are to be stored before their kernel ends has just the blocks of
  -- buffers that wait for a confirmation, and a temporary block is stored that is not itself a
  -- wait() block of a compute kernel: after a successful `store` the set has again just these
  -- blocks; the wait() blocks that the stored one was computed from are out of it and wait for
  -- nothing; and no block has come to wait for a store.
  pub store-confirmed :
      (dst items : ℕ) (h : Heap D) {h' : Heap D} {w : Option (ℕ × ℕ × ℕ)} {b : Block}
      → ((j : ℕ) → IsTracked j h)
      → store dst items h ≡ ok (h', w)
      → get_elem? h.blocks items ≡ some b
      → b.is_temporary ≡ true
      → is_consumed b ≡ false
      → (j : ℕ)
      → IsTracked j h'
        × (member j b.source_blocks ≡ true
            → (is_pending h' j ≡ false) × (member j h'.pending_confirmations ≡ false))
        × (is_pending h' j ≡ true → is_pending h j ≡ true)
  store-confirmed dst items h {h'} {b} all e hb temporary wait j =
      let (sources, others) = store_confirms dst items h e hb temporary wait j in
      let tracked = store-IsTracked dst items j h e (all j) in
      (tracked, λ m. (sources m, tracked ∙ waits-none (get_elem? h'.blocks j) (sources m)), others)
