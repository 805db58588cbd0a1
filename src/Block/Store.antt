-- ===== src/Block/Store.antt =====
-- `store` delivers the source's data to the destination and to nothing else.
use mathlib.Core.Option
use ml_tt_lang.Prelude.{
  ℕ, ◌≡◌, ◌≢◌, refl, sym, ap, ◌∙◌, Option, none, some, map, get_elem?, set, inl, inr, Option-cases,
  Bool-cases, get_elem?-set_ne, ◌==◌, if◌then◌else◌,
}
use ml_tt_lang.Result.{Result, ok, >>=-eq-ok, guard}
use ml_tt_lang.BlockMachine.{store_complete}
use ml_tt_lang.Block.{
  Tensor, Block, Heap, HeapError, block_at, put_block, mark_block, mark_all_read, sources_to_mark,
  transfer, store, check_can_write, shape_eq, prod, shape_mismatch,
}
use ml_tt_lang.Block.Marks.{
  refs, Frame, Frame-trans, mark_block-Frame, mark_all_read-Frame, block_at-eq, get_elem?-set_found,
  get_elem?-map,
}

refs-buf :
    (o : Option Block) → Option.map (λ b. b.buf) o ≡ Option.map (λ r. r.0) (Option.map refs o)
refs-buf none = refl
refs-buf (some b) = refl

module _ {D : Type 0} where
  -- The tensor that a block refers to.
  abbrev pub buf_of : Heap D → ℕ → Option ℕ
  buf_of h i = Option.map (λ b. b.buf) (get_elem? h.blocks i)

  -- The data of a tensor, and of a block.
  abbrev pub elements_at : Heap D → ℕ → Option D
  elements_at h t = Option.map (λ x. x.elements) (get_elem? h.tensors t)

  abbrev pub elements_of : Heap D → Option ℕ → Option D
  elements_of h none = none
  elements_of h (some t) = elements_at h t

  abbrev pub contents : Heap D → ℕ → Option D
  contents h i = elements_of h (buf_of h i)

  pub contents-at :
      (h : Heap D) (i : ℕ) {b : Block}
      → get_elem? h.blocks i ≡ some b
      → contents h i ≡ elements_at h b.buf
  contents-at h i e = ap (λ o. elements_of h (Option.map (λ b. b.buf) o)) e

  -- What a tensor holds after the data of another went to a block that refers to it: the data, in the
  -- tensor's own dtype, or where the shapes differ the other tensor's data as they are.
  abbrev pub arrived : Tensor D → Tensor D → D
  arrived u t = if shape_eq t.shape u.shape then u.cast t.elements else t.elements

  abbrev arrived_at : Option (Tensor D) → Option (Tensor D) → Option D
  arrived_at (some u) (some t) = some (arrived u t)
  arrived_at _ _ = none

  abbrev pub arriving : Heap D → Option ℕ → Option ℕ → Option D
  arriving h (some u) (some t) = arrived_at (get_elem? h.tensors u) (get_elem? h.tensors t)
  arriving h _ _ = none

  pub fst_ok :
      {B : Type 0} (f : Heap D → B) {h h' : Heap D} {w w' : Option (ℕ × ℕ × ℕ)}
      → ◌≡◌ {A = Result HeapError (Heap D × Option (ℕ × ℕ × ℕ))} (ok (h, w)) (ok (h', w'))
      → f h ≡ f h'
  fst_ok f e = ap f (cc e)

  pub transfer-contents :
      (dst t : ℕ) (h : Heap D) {h' : Heap D} {w : Option (ℕ × ℕ × ℕ)}
      → transfer dst t h ≡ ok (h', w)
      → contents h' dst ≡ arriving h (buf_of h dst) (some t)
  unfolding transfer put_block
  transfer-contents dst t h {h'} e = elim (Option-cases (get_elem? h.blocks dst)) [
    | inl missing ↦ cc (rw missing at e)
    | inr (b, hb) ↦ elim (Option-cases (get_elem? h.tensors t)) [
      | inl missing ↦ cc (rw (hb, missing) at e)
      | inr (x, hx) ↦ elim (Option-cases (get_elem? h.tensors b.buf)) [
        | inl missing ↦ cc (rw (hb, hx, missing) at e)
        | inr (u, hu) ↦ elim (Bool-cases (shape_eq x.shape u.shape)) [
          | inl same ↦
              let q = fst_ok (λ k. contents k dst) (rw (hb, hx, hu, same) at e) in
              let u' = record u { elements = u.cast x.elements } in
              let written = get_elem?-set_found h.tensors b.buf u' hu in
              let k : Heap D = record h { tensors = set h.tensors b.buf u' } in
              sym q
              ∙ contents-at k dst hb
              ∙ ap (Option.map (λ z. z.elements)) written
              ∙ sym (rw (hb, hx, hu, same) refl)
          | inr other ↦
              let q = fst_ok (λ k. contents k dst) (rw (hb, hx, hu, other) at e) in
              let b' = record b { buf = t } in
              let written = get_elem?-set_found h.blocks dst b' hb in
              sym q
              ∙ contents-at (put_block dst b' h) dst written
              ∙ ap (Option.map (λ z. z.elements)) hx
              ∙ sym (rw (hb, hx, hu, other) refl)
        ]
      ]
    ]
  ]

  -- A write to one tensor, seen at another.
  pub elements_of-set :
      (h : Heap D) (t : ℕ) (u : Tensor D) (o : Option ℕ)
      → o ≢ some t
      → elements_of (record h { tensors = set h.tensors t u }) o ≡ elements_of h o
  elements_of-set h t u none ne = refl
  elements_of-set h t u (some i) ne =
      ap (Option.map (λ z. z.elements)) (get_elem?-set_ne h.tensors u (λ eq. ne (ap some (sym eq))))

  pub transfer-others :
      (dst t j : ℕ) (h : Heap D) {h' : Heap D} {w : Option (ℕ × ℕ × ℕ)}
      → transfer dst t h ≡ ok (h', w)
      → j ≢ dst
      → buf_of h j ≢ buf_of h dst
      → contents h' j ≡ contents h j
  unfolding transfer put_block
  transfer-others dst t j h e ne apart = elim (Option-cases (get_elem? h.blocks dst)) [
    | inl missing ↦ cc (rw missing at e)
    | inr (b, hb) ↦ elim (Option-cases (get_elem? h.tensors t)) [
      | inl missing ↦ cc (rw (hb, missing) at e)
      | inr (x, hx) ↦ elim (Option-cases (get_elem? h.tensors b.buf)) [
        | inl missing ↦ cc (rw (hb, hx, missing) at e)
        | inr (u, hu) ↦ elim (Bool-cases (shape_eq x.shape u.shape)) [
          | inl same ↦
              let q = fst_ok (λ k. contents k j) (rw (hb, hx, hu, same) at e) in
              let u' = record u { elements = u.cast x.elements } in
              sym q
              ∙ elements_of-set h b.buf u' (buf_of h j)
                  (λ eq. apart (eq ∙ sym (ap (Option.map (λ b. b.buf)) hb)))
          | inr other ↦
              let q = fst_ok (λ k. contents k j) (rw (hb, hx, hu, other) at e) in
              let kept = get_elem?-set_ne h.blocks (record b { buf = t }) (λ eq. ne (sym eq)) in
              sym q ∙ ap (λ o. elements_of h (Option.map (λ b. b.buf) o)) kept
        ]
      ]
    ]
  ]

  buf_of-refs :
      (h : Heap D) (i : ℕ) → buf_of h i ≡ Option.map (λ r. r.0) (get_elem? (map refs h.blocks) i)
  buf_of-refs h i =
      refs-buf (get_elem? h.blocks i)
      ∙ ap (Option.map (λ r. r.0)) (sym (get_elem?-map refs h.blocks i))

  pub Frame-buf_of : {h h' : Heap D} → Frame h h' → (i : ℕ) → buf_of h' i ≡ buf_of h i
  Frame-buf_of {h} {h'} f i =
      buf_of-refs h' i
      ∙ ap (λ rs. Option.map (λ r. r.0) (get_elem? rs i)) f.blocks
      ∙ sym (buf_of-refs h i)

  pub Frame-elements :
      {h h' : Heap D} → Frame h h' → (o : Option ℕ) → elements_of h' o ≡ elements_of h o
  Frame-elements f none = refl
  Frame-elements f (some t) = ap (λ ts. Option.map (λ x. x.elements) (get_elem? ts t)) f.tensors

  pub Frame-arriving :
      {h h' : Heap D} → Frame h h' → (u t : Option ℕ) → arriving h' u t ≡ arriving h u t
  Frame-arriving f none t = refl
  Frame-arriving f (some u) none = refl
  Frame-arriving f (some u) (some t) =
      ap (λ ts. arrived_at (get_elem? ts u) (get_elem? ts t)) f.tensors

  pub Frame-contents : {h h' : Heap D} → Frame h h' → (i : ℕ) → contents h' i ≡ contents h i
  Frame-contents {h} {h'} f i =
      ap (elements_of h') (Frame-buf_of f i) ∙ Frame-elements f (buf_of h i)

  store-parts :
      (dst items : ℕ) (h : Heap D) {h' : Heap D} {w : Option (ℕ × ℕ × ℕ)}
      → store dst items h ≡ ok (h', w)
      → (b : Block) × (k : Heap D) × (get_elem? h.blocks items ≡ some b)
        × Frame h k
        × (transfer dst b.buf k ≡ ok (h', w))
  unfolding store
  store-parts dst items h e =
      let (d, hd, e₁) = >>=-eq-ok (block_at h dst) _ e in
      let (_, _, e₂) = >>=-eq-ok (check_can_write d) _ e₁ in
      let (b, hb, e₃) = >>=-eq-ok (block_at h items) _ e₂ in
      let (_, _, e₄) = >>=-eq-ok (guard (prod b.shape == prod d.shape) shape_mismatch) _ e₃ in
      let (k, hk, e₅) = >>=-eq-ok (mark_all_read (sources_to_mark h items b) h) _ e₄ in
      let (l, hl, e₆) = >>=-eq-ok (mark_block store_complete dst k) _ e₅ in
      (
        b,
        l,
        block_at-eq h items hb,
        Frame-trans (mark_all_read-Frame _ h hk) (mark_block-Frame store_complete dst k hl).0,
        e₆,
      )

  -- When `store` succeeds, the destination holds the data that the source held, converted to the dtype
  -- of the destination's tensor where the tensors' shapes agree, and as the source's own tensor where
  -- they do not; and every other block of another tensor than the destination's holds what it held.
  pub store_delivers :
      (dst items : ℕ) (h : Heap D) {h' : Heap D} {w : Option (ℕ × ℕ × ℕ)}
      → store dst items h ≡ ok (h', w)
      → (contents h' dst ≡ arriving h (buf_of h dst) (buf_of h items))
        × ((j : ℕ) → j ≢ dst → buf_of h j ≢ buf_of h dst → contents h' j ≡ contents h j)
  store_delivers dst items h {h'} e =
      let (b, k, hb, f, t) = store-parts dst items h e in
      let bufs = Frame-buf_of f in
      (
        transfer-contents dst b.buf k t
            ∙ Frame-arriving f (buf_of k dst) (some b.buf)
            ∙ ap (λ u. arriving h u (some b.buf)) (bufs dst)
            ∙ sym (ap (λ o. arriving h (buf_of h dst) (Option.map (λ b. b.buf) o)) hb),
        λ j ne apart.
            transfer-others dst b.buf j k t ne (λ eq. apart (sym (bufs j) ∙ eq ∙ bufs dst))
            ∙ Frame-contents f j,
      )
