-- ===== src/Dataflow/Tracks.antt =====
-- A buffer with one producer `p` and one consumer `c` does what its channel does.
use mathlib.Core.Path.{subst}
use mathlib.Core.List.{append-nil}
use ml_tt_lang.Prelude.{
  ℕ, ◌≡◌, refl, sym, ap, ◌∙◌, true, Option, none, some, List, [], ◌∷◌, ◌++◌, inl, inr, Bool-cases,
  ltb, length, ==_iff, if◌then◌else◌,
}
use ml_tt_lang.Result.{Result, ok, err, >>=-eq-ok}
use ml_tt_lang.BlockState.{KernelType}
use ml_tt_lang.BlockMachine.{mark, push_complete}
use ml_tt_lang.DfbState.{DfbState, DfbError, reserve_slot, push_slot}
use ml_tt_lang.DfbState.Channel
use ml_tt_lang.DfbState.Fifo.{Represents, Agree, chan, reserve_slot-refines, push_slot-refines}
use ml_tt_lang.Dataflow.{
  Dataflow, Pending, DataflowError, of_ring, of_block, push_block, release_reserved, is_own,
  auto_push_block, reserve_begin, reserve_end,
}

-- What was handed out to `g`, and the tensor of it.
abbrev pub Holds : {A : Type 0} → ℕ → Option (Pending A) → Option A → Type 0
Holds g none none = Unit
Holds g (some b) (some a) = (b.greenlet ≡ g) × (b.tensor ≡ a)
Holds g _ _ = ⊥

abbrev pub Reads : {A : Type 0} → ℕ → Option (Pending A) → List A → Type 0
Reads g none q = Unit
Reads g (some b) [] = ⊥
Reads g (some b) (a ∷ q) = (b.greenlet ≡ g) × (b.tensor ≡ a)

-- The buffer holds what is in the channel of capacity `n` with the queue `q` and the item `w` being
-- written; the producer has the block of `w`, and the consumer at most that of the first of `q`.
pub record Tracks {A : Type 0} (p c : ℕ) (d : Dataflow A) (n : ℕ) (q : List A) (w : Option A)
    : Type 0 where
  pub ring : Represents d.state (chan n q w)
  pub writing : Holds p d.reserved_block w
  pub reading : Reads c d.waited_block q

pub of_ring-eq : {B : Type 0} (r : Result DfbError B) {y : B} → of_ring r ≡ ok y → r ≡ ok y
of_ring-eq (ok x) {y} e = let same : x ≡ y = cc e in ap ok same
of_ring-eq (err x) e = cc e

module _ {A : Type 0} where
  Reads-append :
      (g : ℕ) (o : Option (Pending A)) (q : List A) (a : A)
      → Reads g o q
      → Reads g o (q ++ (a ∷ []))
  Reads-append g none q a r = tt
  Reads-append g (some b) [] a r = absurd r
  Reads-append g (some b) (x ∷ q) a r = r

  pub ok-eq : {x y : Dataflow A} → ◌≡◌ {A = Result DataflowError (Dataflow A)} (ok x) (ok y) → x ≡ y
  ok-eq e = cc e

  Holds-none : (g : ℕ) (o : Option (Pending A)) → Holds g o none → o ≡ none
  Holds-none g none h = refl
  Holds-none g (some b) h = absurd h

  Holds-own : (g : ℕ) (o : Option (Pending A)) (a : A) → Holds g o (some a) → is_own g o ≡ true
  Holds-own g none a h = absurd h
  Holds-own g (some b) a (e, _) = (==_iff b.greenlet g).1 e

  release_reserved-eq :
      (o : Option (Pending A)) (d : Dataflow A) {m : Dataflow A}
      → d.reserved_block ≡ o
      → release_reserved o d ≡ ok m
      → (m.state ≡ d.state) × (m.reserved_block ≡ none) × (m.waited_block ≡ d.waited_block)
  unfolding release_reserved
  release_reserved-eq none d {m} e h =
      let same : d ≡ m = ok-eq h in
      (
        sym (ap (λ (z : Dataflow A). z.state) same),
        sym (ap (λ (z : Dataflow A). z.reserved_block) same) ∙ e,
        sym (ap (λ (z : Dataflow A). z.waited_block) same),
      )
  release_reserved-eq (some b) d {m} e h =
      let (_, _, h₁) =
        >>=-eq-ok (of_block (mark push_complete b.machine))
          (λ _. ok (record d { reserved_block = none })) h in
      let same : record d { reserved_block = none } ≡ m = ok-eq h₁ in
      (
        sym (ap (λ (z : Dataflow A). z.state) same),
        sym (ap (λ (z : Dataflow A). z.reserved_block) same),
        sym (ap (λ (z : Dataflow A). z.waited_block) same),
      )

  -- What a push that returns did.
  push_block-eq :
      (d : Dataflow A) {d' : Dataflow A}
      → push_block d ≡ ok d'
      → (push_slot d.state ≡ ok d'.state)
        × (d'.reserved_block ≡ none)
        × (d'.waited_block ≡ d.waited_block)
  unfolding push_block
  push_block-eq d {d'} h =
      let (m, h₁, h₂) = >>=-eq-ok (release_reserved d.reserved_block d) _ h in
      let (s, h₃, h₄) =
        >>=-eq-ok (of_ring (push_slot m.state)) (λ (s : DfbState A). ok (record m { state = s }))
          h₂ in
      let (st, rb, wb) = release_reserved-eq d.reserved_block d refl h₁ in
      let same : record m { state = s } ≡ d' = ok-eq h₄ in
      (
        sym (ap push_slot st)
            ∙ of_ring-eq (push_slot m.state) h₃
            ∙ ap ok (ap (λ (z : Dataflow A). z.state) same),
        sym (ap (λ (z : Dataflow A). z.reserved_block) same) ∙ rb,
        sym (ap (λ (z : Dataflow A). z.waited_block) same) ∙ wb,
      )

  pushed-ring :
      (w : Option A) {s s' : DfbState A} {n : ℕ} {q : List A}
      → Represents s (chan n q w)
      → push_slot s ≡ ok s'
      → (a : A) × (w ≡ some a) × Represents s' (chan n (q ++ (a ∷ [])) none)
  unfolding Channel.push
  pushed-ring none {n} {q} v h =
      absurd (
        subst (λ r. Agree Represents r (Channel.push (chan n q none))) h (push_slot-refines none v))
  pushed-ring (some a) {n} {q} v h = (
    a,
    refl,
    subst (λ r. Agree Represents r (Channel.push (chan n q (some a)))) h
        (push_slot-refines (some a) v),
  )

  -- A push that returns was of something written, and moves it to the queue.
  pub push_block-Tracks :
      (p c : ℕ) (w : Option A) (d : Dataflow A) {d' : Dataflow A} {n : ℕ} {q : List A}
      → Tracks p c d n q w
      → push_block d ≡ ok d'
      → (a : A) × (w ≡ some a) × Tracks p c d' n (q ++ (a ∷ [])) none
  push_block-Tracks p c w d {d'} {n} {q} t h =
      let (st, rb, wb) = push_block-eq d h in
      let (a, ew, v) = pushed-ring w t.ring st in
      (
        a,
        ew,
        record {
          ring = v;
          writing = subst (λ o. Holds p o none) (sym rb) tt;
          reading =
              subst (λ o. Reads c o (q ++ (a ∷ []))) (sym wb)
                (Reads-append c d.waited_block q a t.reading);
        },
      )

  -- What `reserve` does before it may wait: what the producer still holds is pushed.
  pub reserve_begin-Tracks :
      (p c : ℕ) (w : Option A) (d : Dataflow A) {d' : Dataflow A} {n : ℕ} {q : List A}
      → Tracks p c d n q w
      → reserve_begin p d ≡ ok d'
      → Tracks p c d' n (q ++ Channel.to_list w) none
  unfolding reserve_begin auto_push_block
  reserve_begin-Tracks p c none d {d'} {n} {q} t h =
      let nothing = Holds-none p d.reserved_block t.writing in
      let same : d ≡ d' =
        ok-eq (subst (λ o. (if is_own p o then push_block d else ok d) ≡ ok d') nothing h) in
      subst (λ z. Tracks p c z n (q ++ []) none) same
        (subst (λ z. Tracks p c d n z none) (sym (append-nil q)) t)
  reserve_begin-Tracks p c (some a) d {d'} {n} {q} t h =
      let pushed =
        subst (λ b. (if b then push_block d else ok d) ≡ ok d')
          (Holds-own p d.reserved_block a t.writing) h in
      let (a', e, t') = push_block-Tracks p c (some a) d t pushed in
      let same : a ≡ a' = cc e in subst (λ z. Tracks p c d' n (q ++ (z ∷ [])) none) (sym same) t'

  reserved-ring :
      (a : A) {s s' : DfbState A} {i n : ℕ} {q : List A}
      → Represents s (chan n q none)
      → reserve_slot a s ≡ ok (i, s')
      → Represents s' (chan n q (some a))
  unfolding Channel.reserve
  reserved-ring a {n} {q} v h = elim (Bool-cases (ltb (length (q ++ [])) n)) [
    | inl room ↦
        rw (Channel.reserve, room) at
          (subst (λ r. Agree (λ r c. Represents r.1 c) r (Channel.reserve a (chan n q none))) h
            (reserve_slot-refines a v))
    | inr full ↦ absurd (
        rw (Channel.reserve, full) at
          (subst (λ r. Agree (λ r c. Represents r.1 c) r (Channel.reserve a (chan n q none))) h
            (reserve_slot-refines a v)))
  ]

  -- What `reserve` does when it goes on: there was room, and the new tensor is being written.
  pub reserve_end-Tracks :
      (p c : ℕ) (kernel : KernelType) (a : A) (d : Dataflow A) {d' : Dataflow A} {n : ℕ}
      {q : List A}
      → Tracks p c d n q none
      → reserve_end p kernel a d ≡ ok d'
      → Tracks p c d' n q (some a)
  unfolding reserve_end
  reserve_end-Tracks p c kernel a d {d'} {n} {q} t h =
      let ((i, s), h₁, h₂) = >>=-eq-ok (of_ring (reserve_slot a d.state)) _ h in
      let same = ok-eq h₂ in
      subst (λ z. Tracks p c z n q (some a)) same
        (record {
          ring = reserved-ring a t.ring (of_ring-eq (reserve_slot a d.state) h₁);
          writing = (refl, refl);
          reading = t.reading;
        })
