-- ===== src/PipeBuffer/Delivery.antt =====
-- Every receiver of a pipe gets every message, once and in the order of sending.
use mathlib.Core.Path.{subst}
use ml_tt_lang.Prelude.{
  ℕ, ◌+◌, ◌-◌, ◌≤◌, ◌≡◌, ◌≢◌, refl, sym, ap, ◌∙◌, Bool, true, false, List, [], ◌∷◌, ◌==◌, ==_iff,
  length, inl, inr, Bool-cases, arith, if◌then◌else◌,
}
use ml_tt_lang.Result.{Result, ok, >>=-eq-ok}
use ml_tt_lang.Block.{member}
use ml_tt_lang.PipeBuffer.{Message, PipeBufferError, has_unreceived, settle, take_first}

abbrev pub Distinct : List ℕ → Type 0
Distinct [] = Unit
Distinct (r ∷ rs) = (member r rs ≡ false) × Distinct rs

-- How many of the receivers are not in the set.
abbrev pub missing : List ℕ → List ℕ → ℕ
missing [] received = 0
missing (r ∷ rs) received = (if member r received then 0 else 1) + missing rs received

pub missing-nil : (rs : List ℕ) → missing rs [] ≡ length rs
missing-nil [] = refl
missing-nil (r ∷ rs) = omega (arith, missing-nil rs)

missing-other :
    (rs : List ℕ) (n : ℕ) (received : List ℕ)
    → member n rs ≡ false
    → missing rs (n ∷ received) ≡ missing rs received
missing-other [] n received h = refl
missing-other (r ∷ rs) n received h = ground (arith, missing-other rs n received)

missing-take :
    (rs : List ℕ) (n : ℕ) (received : List ℕ)
    → Distinct rs
    → member n rs ≡ true
    → member n received ≡ false
    → missing rs (n ∷ received) + 1 ≡ missing rs received
missing-take [] n received d h new = cc h
missing-take (r ∷ rs) n received d h new =
    ground (arith, missing-take rs n received, missing-other rs n received)

missing-zero :
    (rs : List ℕ) (o : ℕ) (received : List ℕ)
    → missing rs received ≡ 0
    → member o rs ≡ true
    → member o received ≡ true
missing-zero [] o received h m = cc m
missing-zero (r ∷ rs) o received h m = ground (arith, missing-zero rs o received)

module _ {A : Type 0} (receivers : List ℕ) where
  -- Of each message the count of receivers left is that of those who lack it, and some do.
  abbrev pub IsCounted : List (Message A) → Type 0
  IsCounted [] = Unit
  IsCounted (m ∷ queue) =
      (m.remaining ≡ missing receivers m.received) × (1 ≤ m.remaining) × IsCounted queue

-- What a node has not received, in order.
abbrev pub pending : {A : Type 0} → ℕ → List (Message A) → List A
pending o [] = []
pending o (m ∷ queue) =
    let rest = pending o queue in if member o m.received then rest else m.message_data ∷ rest

taken-member : (n o : ℕ) (received : List ℕ) → o ≢ n → member o (n ∷ received) ≡ member o received
taken-member n o received ne = ground arith

taken_self : (n : ℕ) (received : List ℕ) → member n (n ∷ received) ≡ true
taken_self n received = ground arith

pair-eq :
    {A : Type 0} {r s : A × List (Message A)}
    → ◌≡◌ {A = Result PipeBufferError (A × List (Message A))} (ok r) (ok s)
    → r ≡ s
pair-eq e = cc e

module _ {A : Type 0} (receivers : List ℕ) (distinct : Distinct receivers) where
  -- The node `n` took the first message that it lacked, and the others lack what they lacked.
  abbrev pub Took : ℕ → List (Message A) → A × List (Message A) → Type 0
  Took n queue r =
      IsCounted receivers r.1
      × (pending n queue ≡ r.0 ∷ pending n r.1)
      × ((o : ℕ) → member o receivers ≡ true → o ≢ n → pending o r.1 ≡ pending o queue)

  Took-skip :
      (n : ℕ) (m : Message A) (queue : List (Message A)) (r : A × List (Message A))
      → IsCounted receivers (m ∷ queue)
      → member n m.received ≡ true
      → Took n queue r
      → Took n (m ∷ queue) (r.0, m ∷ r.1)
  Took-skip n m queue r (left, some_left, _) had (c, mine, others) = (
    (left, some_left, c),
    rw (pending, had) mine,
    λ o ro ne.
        let same = others o ro ne in
        elim (Bool-cases (member o m.received)) [
          | inl has ↦ rw (pending, has) same
          | inr lacks ↦ rw (pending, lacks) (ap (λ q. m.message_data ∷ q) same)
        ],
  )

  Took-here :
      (n : ℕ) (m : Message A) (queue : List (Message A))
      → member n receivers ≡ true
      → IsCounted receivers (m ∷ queue)
      → member n m.received ≡ false
      → Took n (m ∷ queue) (m.message_data, settle n m queue)
  unfolding settle
  Took-here n m queue r (left, some_left, c) new = elim (Bool-cases (m.remaining == 1)) [
    | inl last ↦
        rw (settle, last)
          (
            c,
            rw (pending, new) refl,
            λ o ro ne.
                let none_left : missing receivers (n ∷ m.received) ≡ 0 =
                  let one = (==_iff m.remaining 1).0 last in
                  omega (arith, missing-take receivers n m.received distinct r new) in
                let has : member o m.received ≡ true =
                  sym (taken-member n o m.received ne)
                  ∙ missing-zero receivers o (n ∷ m.received) none_left ro in
                rw (pending, has) refl,
          )
    | inr more ↦
        let taken = n ∷ m.received in
        let kept : settle n m queue
            ≡ record m { remaining = m.remaining - 1; received = taken } ∷ queue =
          rw (settle, more, new) refl in
        let fewer = missing-take receivers n m.received distinct r new in
        let several : m.remaining ≢ 1 = λ e. cc ((==_iff m.remaining 1).1 e, more) in
        subst (λ q. Took n (m ∷ queue) (m.message_data, q)) (sym kept)
          (
            (omega arith, omega arith, c),
            ap (λ b. if b then pending n queue else m.message_data ∷ pending n queue) new
                ∙ ap
                    (λ b.
                      m.message_data
                      ∷ (if b then pending n queue else m.message_data ∷ pending n queue))
                    (sym (taken_self n m.received)),
            λ o ro ne.
                let same = taken-member n o m.received ne in
                ap (λ b. if b then pending o queue else m.message_data ∷ pending o queue) same,
          )
  ]

  pub take_first-Took :
      (fits : A → Bool) (n : ℕ) (queue : List (Message A)) {r : A × List (Message A)}
      → member n receivers ≡ true
      → IsCounted receivers queue
      → take_first fits n queue ≡ ok r
      → Took n queue r
  unfolding take_first
  take_first-Took fits n [] r c h = cc h
  take_first-Took fits n (m ∷ queue) {r} me c h = elim (Bool-cases (member n m.received)) [
    | inl had ↦
        let (s, h₁, h₂) =
          >>=-eq-ok (take_first fits n queue) (λ r. ok (r.0, m ∷ r.1))
            (rw (take_first, had) at h) in
        subst (Took n (m ∷ queue)) (pair-eq h₂)
          (Took-skip n m queue s c had (take_first-Took fits n queue me c.2 h₁))
    | inr new ↦ elim (Bool-cases (fits m.message_data)) [
      | inr wrong ↦ cc (rw (take_first, new, wrong) at h)
      | inl right ↦
          subst (Took n (m ∷ queue)) (pair-eq (rw (take_first, new, right) at h))
            (Took-here n m queue me c new)
    ]
  ]

  -- A node that lacks a message finds one, unless the block's shape is wrong.
  pub take_first-finds :
      (fits : A → Bool) (n : ℕ) (queue : List (Message A))
      → ((a : A) → fits a ≡ true)
      → has_unreceived n queue ≡ true
      → (r : A × List (Message A)) × (take_first fits n queue ≡ ok r)
  unfolding take_first
  take_first-finds fits n [] all h = cc h
  take_first-finds fits n (m ∷ queue) all h = elim (Bool-cases (member n m.received)) [
    | inl had ↦
        let (r, e) = take_first-finds fits n queue all (rw (has_unreceived, had) at h) in
        ((r.0, m ∷ r.1), rw (take_first, had, e) refl)
    | inr new ↦ ((m.message_data, settle n m queue), rw (take_first, new, all m.message_data) refl)
  ]
