-- ===== src/DfbState/Fifo.antt =====
-- The ring implements the channel.
use mathlib.Core.List.{map-append, append-nil}
use native.Mathlib.Nat.{add-zero, mod-eq_of_lt}
use ml_tt_lang.Prelude.{
  ℕ, suc, ◌+◌, ◌-◌, ◌%◌, ◌≤◌, ◌<◌, ◌≡◌, refl, ap, ◌∙◌, Option, none, some, List, [], ◌∷◌, ◌++◌, map,
  arith, length, length-append, length-set, length-replicate, set, gt→leb, le→leb, ltb, ltb→lt,
  ltb→ge, inl, inr, Bool-cases,
}
use ml_tt_lang.Result.{Result, ok, err}
use ml_tt_lang.DfbState.{DfbState, slot, init, reserve_slot, push_slot, pop_slot, front}
use ml_tt_lang.DfbState.Window.{window, window-extend_at, window-clear}
use ml_tt_lang.DfbState.Channel
use ml_tt_lang.DfbState.Channel.{Channel, items, to_list}

-- The ring `s` holds what is in the channel `c`.
pub record Represents {ℓ} {A : Type ℓ} (s : DfbState A) (c : Channel A) : Type ℓ where
  pub size : length s.buf ≡ s.cap
  pub inside : s.head < s.cap
  pub capacity : s.cap ≡ c.capacity
  pub visible : s.visible ≡ length c.queue
  pub reserved : s.reserved ≡ length (to_list c.writing)
  pub fits : length (items c) ≤ c.capacity
  pub slots : window s.cap s.buf s.head 0 (length (items c)) ≡ map some (items c)

-- Two results that agree: related values, or the same error.
abbrev pub Agree : {E A B : Type 0} → (A → B → Type 0) → Result E A → Result E B → Type 0
Agree P (ok a) (ok b) = P a b
Agree P (err e) (err f) = e ≡ f
Agree P _ _ = ⊥

abbrev pub chan {ℓ} : {A : Type ℓ} → ℕ → List A → Option A → Channel A
chan n q w = record { capacity = n; queue = q; writing = w }

module _ {A : Type 0} where
  -- A new ring of `n` slots is the empty channel of capacity `n`.
  pub init-Represents : (n : ℕ) → 1 ≤ n → Represents (init A n) (chan n [] none)
  unfolding init
  init-Represents n h = record {
    size = length-replicate n none;
    inside = h;
    capacity = refl;
    visible = refl;
    reserved = refl;
    fits = omega arith;
    slots = refl;
  }

  reserve_written :
      (a : A) {s : DfbState A} {n : ℕ} {q : List A}
      → Represents s (chan n q none)
      → length q < n
      → Represents
          (record s {
            buf = set s.buf ((s.head + s.visible) % s.cap) (some a);
            reserved = s.reserved + 1;
          })
          (chan n q (some a))
  reserve_written a {s} {n} {q} v h = record {
    size = length-set s.buf _ (some a) ∙ v.size;
    inside = v.inside;
    capacity = v.capacity;
    visible = v.visible;
    reserved = omega (arith, v.reserved);
    fits = omega (arith, length-append q (a ∷ []));
    slots =
        rw (long, map-append)
          (window-extend_at s.cap s.buf s.head (length q) ((s.head + s.visible) % s.cap) a
              (ap (λ (t : ℕ). (s.head + t) % s.cap) v.visible) v.size v.inside
              (omega (arith, v.capacity))
            ∙ ap (λ t. t ++ (some a ∷ [])) (rw append-nil at v.slots));
  }
    where
      long : length (q ++ (a ∷ [])) ≡ suc (length q)
      long = omega (arith, length-append q (a ∷ []))

  -- On a ring that holds a channel's queue with nothing being written, reserving a slot is the
  -- channel's reservation: the same refusal when it is full, and otherwise the new ring holds the queue
  -- and the tensor that is being written.
  pub reserve_slot-refines :
      (a : A) {s : DfbState A} {n : ℕ} {q : List A}
      → Represents s (chan n q none)
      → Agree (λ r c. Represents r.1 c) (reserve_slot a s) (Channel.reserve a (chan n q none))
  unfolding reserve_slot Channel.reserve
  reserve_slot-refines a {s} {n} {q} v = elim (Bool-cases (ltb (length q) n)) [
    | inl room ↦
        rw
          (
            append-nil,
            room,
            le→leb 1 (s.cap - s.visible - s.reserved)
                (omega (arith, ltb→lt (length q) n room, v.capacity, v.visible, v.reserved)),
          )
          (reserve_written a v (ltb→lt (length q) n room))
    | inr full ↦
        rw
          (
            append-nil,
            full,
            gt→leb 1 (s.cap - s.visible - s.reserved)
                (omega (arith, ltb→ge (length q) n full, v.capacity, v.visible, v.reserved)),
          )
          refl
  ]

  push_written :
      (a : A) {s : DfbState A} {n : ℕ} {q : List A}
      → Represents s (chan n q (some a))
      → Represents
          (record s { reserved = s.reserved - 1; visible = s.visible + 1 })
          (chan n (q ++ (a ∷ [])) none)
  push_written a {s} {n} {q} v = record {
    size = v.size;
    inside = v.inside;
    capacity = v.capacity;
    visible = omega (arith, v.visible, length-append q (a ∷ []));
    reserved = omega (arith, v.reserved);
    fits = rw append-nil v.fits;
    slots = rw append-nil v.slots;
  }

  -- On a ring that holds a channel, pushing is the channel's push: the same refusal when nothing is
  -- being written, and otherwise the new ring holds the queue with the written tensor at its end.
  pub push_slot-refines :
      (w : Option A) {s : DfbState A} {n : ℕ} {q : List A}
      → Represents s (chan n q w)
      → Agree Represents (push_slot s) (Channel.push (chan n q w))
  unfolding push_slot Channel.push
  push_slot-refines none {s} v = rw (gt→leb 1 s.reserved (omega (arith, v.reserved))) refl
  push_slot-refines (some a) {s} v =
      rw (le→leb 1 s.reserved (omega (arith, v.reserved))) (push_written a v)

  first_slot :
      {a : A} {q : List A} {s : DfbState A} {n : ℕ} {w : Option A}
      → Represents s (chan n (a ∷ q) w)
      → slot s.buf s.head ≡ some a
  first_slot {s} v = cc (v.slots, ap (slot s.buf) start)
    where
      start : (s.head + 0) % s.cap ≡ s.head
      start = rw add-zero (mod-eq_of_lt v.inside)

  -- On a ring that holds a channel, what `wait` reads is the first tensor of the queue, or the refusal
  -- of an empty queue; the slot is never found empty.
  pub front-refines :
      (q : List A) {s : DfbState A} {n : ℕ} {w : Option A}
      → Represents s (chan n q w)
      → front s ≡ Channel.front (chan n q w)
  unfolding front Channel.front
  front-refines [] {s} v = rw (gt→leb 1 s.visible (omega (arith, v.visible)))
  front-refines (a ∷ q) {s} v = rw (le→leb 1 s.visible (omega (arith, v.visible)), first_slot v)

  -- On a ring that holds a channel, popping is the channel's pop: the same refusal of an empty queue,
  -- and otherwise the new ring holds the rest of the queue and what is being written.
  pub pop_slot-refines :
      (q : List A) {s : DfbState A} {n : ℕ} {w : Option A}
      → Represents s (chan n q w)
      → Agree Represents (pop_slot s) (Channel.pop (chan n q w))
  unfolding pop_slot Channel.pop
  pop_slot-refines [] {s} v = rw (gt→leb 1 s.visible (omega (arith, v.visible))) refl
  pop_slot-refines (a ∷ q) {s} {w} v = rw (le→leb 1 s.visible (omega (arith, v.visible))) (record {
    size = length-set s.buf s.head none ∙ v.size;
    inside = omega (arith, v.inside);
    capacity = v.capacity;
    visible = omega (arith, v.visible);
    reserved = v.reserved;
    fits = omega (arith, v.fits);
    slots =
        window-clear s.cap s.buf s.head (length (q ++ to_list w)) v.inside
          (omega (arith, v.fits, v.capacity))
        ∙ cc v.slots;
  })
