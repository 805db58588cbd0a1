-- ===== src/PipeBuffer/Traffic.antt =====
-- The traffic on one pipe: sends, and receptions by the receivers in any order.
use mathlib.Core.Path.{subst}
use mathlib.Core.List.{append_assoc}
use ml_tt_lang.Prelude.{
  ℕ, ◌≤◌, ◌≡◌, ◌≢◌, refl, sym, ap, ◌∙◌, Bool, true, false, not, Option, none, some, List, [], ◌∷◌,
  ◌++◌, ◌==◌, ==_iff, length, inl, inr, Bool-cases, arith, if◌then◌else◌,
}
use ml_tt_lang.Result.{Result, ok, err, ◌>>=◌, ◌>>◌, >>=-eq-ok, guard, guard-ok}
use ml_tt_lang.Block.{member}
use ml_tt_lang.PipeBuffer.{
  Message, PipeEntry, PipeBufferError, get_or_create, send, has_unreceived, can_receive, take_first,
  receive,
}
use ml_tt_lang.PipeBuffer.Delivery.{
  Distinct, missing, missing-nil, IsCounted, pending, Took, take_first-Took, take_first-finds,
}

pub data Event (A : Type 0) : Type 0 where
  sends : A → Event A
  receives : ℕ → Event A

-- The pipe's entry, what was sent, and what the node that is watched received.
pub record Traffic (A : Type 0) : Type 0 where
  pub entry : Option (PipeEntry A)
  pub sent : List A
  pub got : List A

pub data TrafficError : Type 0 where
  not_a_receiver : TrafficError
  raised : PipeBufferError → TrafficError

abbrev pub lift : {B : Type 0} → Result PipeBufferError B → Result TrafficError B
lift (err e) = err (raised e)
lift (ok b) = ok b

abbrev pub is_empty : {B : Type 0} → List B → Bool
is_empty [] = true
is_empty (x ∷ xs) = false

abbrev pub no_traffic : {A : Type 0} → Traffic A
no_traffic = record { entry = none; sent = []; got = [] }

-- Each send counts the receivers; only receivers receive, as `if_dst` sees to.
module _ {A : Type 0} (receivers : List ℕ) (fits : A → Bool) (watched : ℕ) where
  unfoldable pub event : Event A → Traffic A → Result TrafficError (Traffic A)
  event (sends a) t =
      ok (record t { entry = some (send a (length receivers) t.entry); sent = t.sent ++ (a ∷ []) })
  event (receives n) t = do
    guard (member n receivers) not_a_receiver
    r ← lift (receive fits n t.entry)
    ok (record t { entry = some r.1; got = if n == watched then t.got ++ (r.0 ∷ []) else t.got })

  unfoldable pub flow : List (Event A) → Traffic A → Result TrafficError (Traffic A)
  flow [] t = ok t
  flow (e ∷ es) t = event e t >>= flow es

lift-eq : {B : Type 0} (r : Result PipeBufferError B) {y : B} → lift r ≡ ok y → r ≡ ok y
lift-eq (ok x) {y} e = let same : x ≡ y = cc e in ap ok same
lift-eq (err x) e = cc e

traffic-eq :
    {A : Type 0} {s t : Traffic A} → ◌≡◌ {A = Result TrafficError (Traffic A)} (ok s) (ok t) → s ≡ t
traffic-eq e = cc e

received-eq :
    {A : Type 0} {r s : A × PipeEntry A}
    → ◌≡◌ {A = Result PipeBufferError (A × PipeEntry A)} (ok r) (ok s)
    → r ≡ s
received-eq e = cc e

-- The queue of an entry that may not be there yet.
abbrev pub queue_of : {A : Type 0} → Option (PipeEntry A) → List (Message A)
queue_of entry = (get_or_create entry).queue

pub pending-new :
    {A : Type 0} (o : ℕ) (queue : List (Message A)) (m : Message A)
    → m.received ≡ []
    → pending o (queue ++ (m ∷ [])) ≡ pending o queue ++ (m.message_data ∷ [])
pending-new o [] m e = rw e refl
pending-new o (x ∷ queue) m e = elim (Bool-cases (member o x.received)) [
  | inl has ↦ rw (pending, has) (pending-new o queue m e)
  | inr lacks ↦ rw (pending, lacks) (ap (λ q. x.message_data ∷ q) (pending-new o queue m e))
]

IsCounted-new :
    {A : Type 0} (receivers : List ℕ) (queue : List (Message A)) (m : Message A)
    → m.received ≡ []
    → m.remaining ≡ length receivers
    → 1 ≤ length receivers
    → IsCounted receivers queue
    → IsCounted receivers (queue ++ (m ∷ []))
IsCounted-new receivers [] m e n some_receiver c =
    (n ∙ sym (missing-nil receivers) ∙ ap (missing receivers) (sym e), omega arith, tt)
IsCounted-new receivers (x ∷ queue) m e n some_receiver (l, s, c) =
    (l, s, IsCounted-new receivers queue m e n some_receiver c)

module _ {A : Type 0} (receivers : List ℕ) (distinct : Distinct receivers) (fits : A → Bool)
    (watched : ℕ) where
  -- The watched node lacks what was sent and it did not get, in order.
  pub record IsOrderly (t : Traffic A) : Type 0 where
    pub counted : IsCounted receivers (queue_of t.entry)
    pub order : t.sent ≡ t.got ++ pending watched (queue_of t.entry)

  still-IsOrderly :
      (sent got : List A) (n : ℕ) (queue : List (Message A)) (r : A × List (Message A))
      → sent ≡ got ++ pending watched queue
      → member watched receivers ≡ true
      → Took receivers distinct n queue r
      → sent ≡ (if n == watched then got ++ (r.0 ∷ []) else got) ++ pending watched r.1
  still-IsOrderly sent got n queue r order me (_, mine, others) = elim (Bool-cases (n == watched)) [
    | inl same ↦
        let mine' =
          subst (λ o. pending o queue ≡ r.0 ∷ pending o r.1) ((==_iff n watched).0 same) mine in
        rw same (
          order
          ∙ ap (λ z. got ++ z) mine'
          ∙ sym (append_assoc got (r.0 ∷ []) (pending watched r.1)))
    | inr other ↦
        let ne : watched ≢ n = λ e. cc ((==_iff n watched).1 (sym e), other) in
        rw other (order ∙ ap (λ z. got ++ z) (sym (others watched me ne)))
  ]

  receive-Took :
      (n : ℕ) (entry : Option (PipeEntry A)) {r : A × PipeEntry A}
      → member n receivers ≡ true
      → IsCounted receivers (queue_of entry)
      → receive fits n entry ≡ ok r
      → (q : List (Message A)) × (r.1 ≡ record (get_or_create entry) { queue = q })
        × Took receivers distinct n (queue_of entry) (r.0, q)
  unfolding receive
  receive-Took n entry {r} me c h =
      let (s, h₁, h₂) = >>=-eq-ok (take_first fits n (queue_of entry)) _ h in
      let same = received-eq h₂ in
      (
        s.1,
        sym (ap (λ (z : A × PipeEntry A). z.1) same),
        subst (λ a. Took receivers distinct n (queue_of entry) (a, s.1))
            (ap (λ (z : A × PipeEntry A). z.0) same)
            (take_first-Took receivers distinct fits n (queue_of entry) me c h₁),
      )

  event-IsOrderly :
      (e : Event A) (t : Traffic A) {t' : Traffic A}
      → 1 ≤ length receivers
      → member watched receivers ≡ true
      → IsOrderly t
      → event receivers fits watched e t ≡ ok t'
      → IsOrderly t'
  unfolding event send
  event-IsOrderly (sends a) t some_receiver me v h =
      let q = queue_of t.entry in
      subst IsOrderly (traffic-eq h) (record {
        counted = IsCounted-new receivers q _ refl refl some_receiver v.counted;
        order =
            ap (λ z. z ++ (a ∷ [])) v.order
            ∙ append_assoc t.got (pending watched q) (a ∷ [])
            ∙ ap (λ z. t.got ++ z) (sym (pending-new watched q _ refl));
      })
  event-IsOrderly (receives n) t some_receiver me v h =
      let (here, h₁) = guard-ok (member n receivers) not_a_receiver _ h in
      let (r, h₂, h₃) = >>=-eq-ok (lift (receive fits n t.entry)) _ h₁ in
      let (q', e, took) =
        receive-Took n t.entry here v.counted (lift-eq (receive fits n t.entry) h₂) in
      let kept = ap (λ (z : PipeEntry A). z.queue) e in
      subst IsOrderly (traffic-eq h₃) (record {
        counted = rw kept took.0;
        order =
            rw kept (still-IsOrderly t.sent t.got n (queue_of t.entry) (r.0, q') v.order me took);
      })

  flow-IsOrderly :
      (es : List (Event A)) (t : Traffic A) {t' : Traffic A}
      → 1 ≤ length receivers
      → member watched receivers ≡ true
      → IsOrderly t
      → flow receivers fits watched es t ≡ ok t'
      → IsOrderly t'
  unfolding flow
  flow-IsOrderly [] t some_receiver me v h = subst IsOrderly (traffic-eq h) v
  flow-IsOrderly (e ∷ es) t some_receiver me v h =
      let (s, h₁, h₂) = >>=-eq-ok (event receivers fits watched e t) _ h in
      flow-IsOrderly es s some_receiver me (event-IsOrderly e t some_receiver me v h₁) h₂

  has_unreceived_iff :
      (queue : List (Message A))
      → has_unreceived watched queue ≡ not (is_empty (pending watched queue))
  has_unreceived_iff [] = refl
  has_unreceived_iff (m ∷ queue) = elim (Bool-cases (member watched m.received)) [
    | inl has ↦ rw (has_unreceived, pending, has) (has_unreceived_iff queue)
    | inr lacks ↦ rw (has_unreceived, pending, lacks) refl
  ]

  can_receive_iff :
      (entry : Option (PipeEntry A))
      → can_receive watched entry ≡ not (is_empty (pending watched (queue_of entry)))
  unfolding can_receive get_or_create
  can_receive_iff none = refl
  can_receive_iff (some entry) = has_unreceived_iff entry.queue

  -- Whatever the order of the sends and of the receptions by the receivers, which are distinct and not
  -- none, a receiver got a prefix of what was sent, in the order of sending, and it can receive again
  -- exactly when something of what was sent is left to it.
  pub flow-got :
      (es : List (Event A)) {t : Traffic A}
      → 1 ≤ length receivers
      → member watched receivers ≡ true
      → flow receivers fits watched es no_traffic ≡ ok t
      → (rest : List A) × (t.sent ≡ t.got ++ rest)
        × (can_receive watched t.entry ≡ not (is_empty rest))
  unfolding get_or_create
  flow-got es {t} some_receiver me h =
      let start : IsOrderly no_traffic = record { counted = tt; order = refl } in
      let v = flow-IsOrderly es no_traffic some_receiver me start h in
      (pending watched (queue_of t.entry), v.order, can_receive_iff t.entry)

  -- After any such traffic, a receiver that can receive does receive, if every message fits its block.
  pub flow-receive :
      (es : List (Event A)) {t : Traffic A}
      → 1 ≤ length receivers
      → member watched receivers ≡ true
      → ((a : A) → fits a ≡ true)
      → flow receivers fits watched es no_traffic ≡ ok t
      → can_receive watched t.entry ≡ true
      → (a : A) × (t' : Traffic A) × (event receivers fits watched (receives watched) t ≡ ok t')
        × (t'.got ≡ t.got ++ (a ∷ []))
  unfolding event receive
  flow-receive es {t} some_receiver me all h can =
      let lacks = has_unreceived_iff (queue_of t.entry) ∙ sym (can_receive_iff t.entry) ∙ can in
      let (r, e) = take_first-finds receivers distinct fits watched (queue_of t.entry) all lacks in
      let self : watched == watched ≡ true = (==_iff watched watched).1 refl in
      (
        r.0,
        record {
          entry = some (record (get_or_create t.entry) { queue = r.1 });
          sent = t.sent;
          got = t.got ++ (r.0 ∷ []);
        },
        rw (me, e, self) refl,
        refl,
      )
