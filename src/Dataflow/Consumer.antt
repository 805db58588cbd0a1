-- ===== src/Dataflow/Consumer.antt =====
-- The consumer's side of a buffer with one producer `p` and one consumer `c`.
use mathlib.Core.Path.{subst}
use ml_tt_lang.Prelude.{
  ℕ, ◌≡◌, refl, sym, ap, ◌∙◌, true, Option, none, some, List, [], ◌∷◌, ◌++◌, inl, inr, Option-cases,
  ◌==◌, ==_iff, if◌then◌else◌, ◌≢◌, ◌↔◌, leb, leb→le, le→leb, arith,
}
use ml_tt_lang.Result.{Result, ok, >>=-eq-ok, Result-cases}
use ml_tt_lang.BlockState.{KernelType, BlockAcquisition}
use ml_tt_lang.BlockMachine.{mark, pop_complete}
use ml_tt_lang.DfbState.{DfbState, DfbError, front, pop_slot}
use ml_tt_lang.DfbState.Channel
use ml_tt_lang.DfbState.Fifo.{Represents, Agree, chan, front-refines, pop_slot-refines}
use ml_tt_lang.Dataflow.{
  Dataflow, Pending, hand_out, can_wait, of_ring, of_block, pop_block, release_waited, is_own,
  auto_pop_block, wait_begin, wait_end,
}
use ml_tt_lang.Dataflow.Tracks.{Tracks, Holds, Reads, ok-eq, of_ring-eq}

-- What the consumer holds.
abbrev pub held : {A : Type 0} → Option (Pending A) → List A
held none = []
held (some b) = b.tensor ∷ []

ok-inj : {A : Type 0} {x y : A} → ◌≡◌ {A = Result DfbError A} (ok x) (ok y) → x ≡ y
ok-inj e = cc e

module _ {A : Type 0} where
  tail-eq : {a b : A} {q r : List A} → ◌≡◌ {A = List A} (a ∷ q) (b ∷ r) → q ≡ r
  tail-eq e = cc e

  release_waited-eq :
      (o : Option (Pending A)) (d : Dataflow A) {m : Dataflow A}
      → d.waited_block ≡ o
      → release_waited o d ≡ ok m
      → (m.state ≡ d.state) × (m.waited_block ≡ none) × (m.reserved_block ≡ d.reserved_block)
  unfolding release_waited
  release_waited-eq none d {m} e h =
      let same : d ≡ m = ok-eq h in
      (
        sym (ap (λ (z : Dataflow A). z.state) same),
        sym (ap (λ (z : Dataflow A). z.waited_block) same) ∙ e,
        sym (ap (λ (z : Dataflow A). z.reserved_block) same),
      )
  release_waited-eq (some b) d {m} e h =
      let (_, _, h₁) =
        >>=-eq-ok (of_block (mark pop_complete b.machine))
          (λ _. ok (record d { waited_block = none })) h in
      let same : record d { waited_block = none } ≡ m = ok-eq h₁ in
      (
        sym (ap (λ (z : Dataflow A). z.state) same),
        sym (ap (λ (z : Dataflow A). z.waited_block) same),
        sym (ap (λ (z : Dataflow A). z.reserved_block) same),
      )

  pop_block-eq :
      (d : Dataflow A) {d' : Dataflow A}
      → pop_block d ≡ ok d'
      → (pop_slot d.state ≡ ok d'.state)
        × (d'.waited_block ≡ none)
        × (d'.reserved_block ≡ d.reserved_block)
  unfolding pop_block
  pop_block-eq d {d'} h =
      let (m, h₁, h₂) = >>=-eq-ok (release_waited d.waited_block d) _ h in
      let (s, h₃, h₄) =
        >>=-eq-ok (of_ring (pop_slot m.state)) (λ (s : DfbState A). ok (record m { state = s }))
          h₂ in
      let (st, wb, rb) = release_waited-eq d.waited_block d refl h₁ in
      let same : record m { state = s } ≡ d' = ok-eq h₄ in
      (
        sym (ap pop_slot st)
            ∙ of_ring-eq (pop_slot m.state) h₃
            ∙ ap ok (ap (λ (z : Dataflow A). z.state) same),
        sym (ap (λ (z : Dataflow A). z.waited_block) same) ∙ wb,
        sym (ap (λ (z : Dataflow A). z.reserved_block) same) ∙ rb,
      )

  popped-ring :
      (q : List A) {s s' : DfbState A} {n : ℕ} {w : Option A}
      → Represents s (chan n q w)
      → pop_slot s ≡ ok s'
      → (a : A) × (q' : List A) × (q ≡ a ∷ q') × Represents s' (chan n q' w)
  unfolding Channel.pop
  popped-ring [] {n} {w} v h =
      absurd (subst (λ r. Agree Represents r (Channel.pop (chan n [] w))) h (pop_slot-refines [] v))
  popped-ring (a ∷ q) {n} {w} v h = (
    a,
    q,
    refl,
    subst (λ r. Agree Represents r (Channel.pop (chan n (a ∷ q) w))) h (pop_slot-refines (a ∷ q) v),
  )

  -- A pop that returns takes the first of the queue.
  pub pop_block-Tracks :
      (p c : ℕ) (q : List A) (d : Dataflow A) {d' : Dataflow A} {n : ℕ} {w : Option A}
      → Tracks p c d n q w
      → pop_block d ≡ ok d'
      → (a : A) × (q' : List A) × (q ≡ a ∷ q') × Tracks p c d' n q' w × (d'.waited_block ≡ none)
  pop_block-Tracks p c q d {d'} {n} {w} t h =
      let (st, wb, rb) = pop_block-eq d h in
      let (a, q', eq, v) = popped-ring q t.ring st in
      (
        a,
        q',
        eq,
        record {
          ring = v;
          writing = subst (λ o. Holds p o w) (sym rb) t.writing;
          reading = subst (λ o. Reads c o q') (sym wb) tt;
        },
        wb,
      )

  Reads-own : (g : ℕ) (b : Pending A) (q : List A) → Reads g (some b) q → (b.greenlet == g) ≡ true
  Reads-own g b [] r = absurd r
  Reads-own g b (a ∷ q) (e, _) = (==_iff b.greenlet g).1 e

  Reads-first :
      (g : ℕ) (b : Pending A) (a : A) (q' : List A) (q : List A)
      → Reads g (some b) q
      → q ≡ a ∷ q'
      → q ≡ b.tensor ∷ q'
  Reads-first g b a q' [] r e = absurd r
  Reads-first g b a q' (x ∷ q) (_, t) e = cc (e, t)

  -- A pop of the block that the consumer holds, which is of the first of the queue.
  pub pop_held-Tracks :
      (p c : ℕ) (q : List A) (d : Dataflow A) (b : Pending A) {d' : Dataflow A} {n : ℕ}
      {w : Option A}
      → Tracks p c d n q w
      → d.waited_block ≡ some b
      → pop_block d ≡ ok d'
      → (q' : List A) × (q ≡ held d.waited_block ++ q')
        × Tracks p c d' n q' w
        × (d'.waited_block ≡ none)
  pop_held-Tracks p c q d b t hb h =
      let reads = subst (λ o. Reads c o q) hb t.reading in
      let (a, q', eq, t', wb) = pop_block-Tracks p c q d t h in
      (q', Reads-first c b a q' q reads eq ∙ ap (λ o. held o ++ q') (sym hb), t', wb)

  -- What `wait` does before it may wait: the tensor that the consumer still holds, which is the first
  -- of the queue, is popped.
  pub wait_begin-Tracks :
      (p c : ℕ) (q : List A) (d : Dataflow A) {d' : Dataflow A} {n : ℕ} {w : Option A}
      → Tracks p c d n q w
      → wait_begin c d ≡ ok d'
      → (q' : List A) × (q ≡ held d.waited_block ++ q')
        × Tracks p c d' n q' w
        × (d'.waited_block ≡ none)
  unfolding wait_begin auto_pop_block
  wait_begin-Tracks p c q d {d'} {n} {w} t h = elim (Option-cases d.waited_block) [
    | inl nothing ↦
        let same : d ≡ d' =
          ok-eq (subst (λ o. (if is_own c o then pop_block d else ok d) ≡ ok d') nothing h) in
        (
          q,
          ap (λ o. held o ++ q) (sym nothing),
          subst (λ z. Tracks p c z n q w) same t,
          sym (ap (λ (z : Dataflow A). z.waited_block) same) ∙ nothing,
        )
    | inr (b, hb) ↦
        let reads = subst (λ o. Reads c o q) hb t.reading in
        let own : is_own c d.waited_block ≡ true = ap (is_own c) hb ∙ Reads-own c b q reads in
        let popped = subst (λ z. (if z then pop_block d else ok d) ≡ ok d') own h in
        pop_held-Tracks p c q d b t hb popped
  ]

  first-ring :
      (q : List A) {s : DfbState A} {a : A} {n : ℕ} {w : Option A}
      → Represents s (chan n q w)
      → front s ≡ ok a
      → (q' : List A) × (q ≡ a ∷ q')
  unfolding Channel.front
  first-ring [] v h = cc (front-refines [] v, h)
  first-ring (x ∷ q) {a} v h =
      let same : x ≡ a = ok-inj (sym (front-refines (x ∷ q) v) ∙ h) in (q, ap (λ y. y ∷ q) same)

  -- What `wait` does when it goes on: it hands out the first of the queue, which stays there.
  pub wait_end-Tracks :
      (p c : ℕ) (kernel : KernelType) (q : List A) (d : Dataflow A) {d' : Dataflow A} {n : ℕ}
      {w : Option A}
      → Tracks p c d n q w
      → wait_end c kernel d ≡ ok d'
      → Tracks p c d' n q w × ((q' : List A) × (q ≡ held d'.waited_block ++ q'))
  unfolding wait_end
  wait_end-Tracks p c kernel q d {d'} {n} {w} t h =
      let (a, h₁, h₂) = >>=-eq-ok (of_ring (front d.state)) _ h in
      let (q', eq) = first-ring q t.ring (of_ring-eq (front d.state) h₁) in
      let same = ok-eq h₂ in
      subst (λ z. Tracks p c z n q w × ((q' : List A) × (q ≡ held z.waited_block ++ q'))) same
        (
          record {
            ring = t.ring;
            writing = t.writing;
            reading =
                subst (Reads c (some (hand_out c BlockAcquisition.wait kernel a))) (sym eq)
                  (refl, refl);
          },
          (q', eq),
        )

  -- A pop when nothing was waited for is not refused while a tensor is in the queue: it takes the
  -- first, which nobody has read.
  pub pop_block-unread :
      (p c : ℕ) (d : Dataflow A) {a : A} {n : ℕ} {q : List A} {w : Option A}
      → Tracks p c d n (a ∷ q) w
      → d.waited_block ≡ none
      → (d' : Dataflow A) × (pop_block d ≡ ok d') × Tracks p c d' n q w
  unfolding pop_block release_waited Channel.pop
  pop_block-unread p c d {a} {n} {q} {w} t nothing = elim (Result-cases (pop_slot d.state)) [
    | inl (s, hs) ↦
        let returns : pop_block d ≡ ok (record d { state = s }) =
          rw (pop_block, nothing, release_waited, hs) refl in
        let (_, q', eq, t', _) =
          pop_block-Tracks p c (a ∷ q) d {d' = record d { state = s }} t returns in
        (
          record d { state = s },
          returns,
          subst (λ z. Tracks p c (record d { state = s }) n z w) (tail-eq (sym eq)) t',
        )
    | inr (e, he) ↦ absurd (
        subst (λ r. Agree Represents r (Channel.pop (chan n (a ∷ q) w))) he
          (pop_slot-refines (a ∷ q) t.ring))
  ]

  -- In a buffer of one producer and one consumer that holds what a channel of theirs holds, a `wait`
  -- that goes on, as `can_wait` allows it to, does not fail: the slot is not empty. And `can_wait`
  -- tells whether the channel's queue has a tensor.
  pub wait_end-ready :
      (p c : ℕ) (kernel : KernelType) (q : List A) (d : Dataflow A) {n : ℕ} {w : Option A}
      → Tracks p c d n q w
      → (can_wait d ≡ true → (d' : Dataflow A) × (wait_end c kernel d ≡ ok d'))
        × ((can_wait d ≡ true) ↔ (q ≢ []))
  unfolding wait_end can_wait Channel.front
  wait_end-ready p c kernel [] d t =
      (λ h. absurd (empty-not_ready h), (λ h. absurd (empty-not_ready h), λ ne. absurd (ne refl)))
    where
      empty-not_ready : leb 1 d.state.visible ≡ true → ⊥
      empty-not_ready h =
          let le = leb→le 1 d.state.visible h in let v = t.ring.visible in omega arith
  wait_end-ready p c kernel (a ∷ q) d t = (
    λ h. (
      record d { waited_block = some (hand_out c BlockAcquisition.wait kernel a) },
      rw (wait_end, front-refines (a ∷ q) t.ring) refl,
    ),
    (λ h e. cc e, λ ne. le→leb 1 d.state.visible (let v = t.ring.visible in omega arith)),
  )
