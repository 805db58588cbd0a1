-- ===== src/Scheduler/Deadlock.antt =====
-- What a round without progress tells, and so how the main loop ends.
use mathlib.Core.Path.{subst}
use ml_tt_lang.Prelude.{
  ℕ, zero, suc, ◌≡◌, ◌≢◌, refl, sym, ap, ◌∙◌, Bool, true, false, Option, none, some, List, [], ◌∷◌,
  inl, inr, Bool-cases, Option-cases, arith,
}
use ml_tt_lang.Result.{Result, ok, >>=-eq-ok, Result-cases}
use ml_tt_lang.BlockState.{KernelType, dm, compute}
use ml_tt_lang.Scheduler.{
  KernelId, Scheduler, SchedulerError, Turn, Ending, kernel_eq, kind_value, lookup, put, keys,
  may_run, run_turn, try_kernel, try_kernels, candidates, is_empty, next_round, loop, deadlock,
  all_completed,
}
use ml_tt_lang.Scheduler.Order.{Each, get_fair_kernel_order-Each}

kind_value-inj : (a b : KernelType) → kind_value a ≡ kind_value b → a ≡ b
kind_value-inj dm dm h = refl
kind_value-inj dm compute h = ground arith
kind_value-inj compute dm h = ground arith
kind_value-inj compute compute h = refl

pub kernel_eq→≡ : (a b : KernelId) → kernel_eq a b ≡ true → a ≡ b
kernel_eq→≡ a b h = ground (arith, kind_value-inj a.kind b.kind)

-- What holds of each key holds of one that is found.
pub Each-lookup :
    {V : Type 0} (P : KernelId → Type 0) (k : KernelId) (d : List (KernelId × V)) {v : V}
    → Each P (keys d)
    → lookup k d ≡ some v
    → P k
unfolding lookup
Each-lookup P k [] h e = cc e
Each-lookup P k ((j, u) ∷ d) (p, h) e = elim (Bool-cases (kernel_eq j k)) [
  | inl same ↦ subst P (kernel_eq→≡ j k same) p
  | inr other ↦ Each-lookup P k d h (rw other at e)
]

module _ {B W : Type 0} (can : B → W → Bool) (turn : KernelId → W → Turn B W) where
  -- The kernel gets no turn: it has ended, or waits for what cannot proceed.
  abbrev pub IsStuck : Scheduler B × W → KernelId → Type 0
  IsStuck r k = (e : Option B) → lookup k r.0.active ≡ some e → may_run can r.1 e ≡ false

  progress_stays :
      (k : KernelId) (r : Scheduler B × W) {p : Bool} {r' : Scheduler B × W}
      → try_kernel can turn k (true, r) ≡ ok (p, r')
      → p ≡ true
  unfolding try_kernel
  progress_stays k (s, w) h = elim (Option-cases (lookup k s.active)) [
    | inl ended ↦ cc (rw (try_kernel, ended) at h)
    | inr (e, he) ↦ elim (Bool-cases (may_run can w e)) [
      | inl runs ↦
          let (q, _, e₁) =
            >>=-eq-ok (run_turn can turn k (turn k w) (record s { active = put k none s.active }))
              (λ r. ok (true, r)) (rw (try_kernel, he, runs) at h) in
          cc e₁
      | inr stuck ↦ cc (rw (try_kernel, he, stuck) at h)
    ]
  ]

  pub all_progress_stays :
      (ks : List KernelId) (r : Scheduler B × W) {p : Bool} {r' : Scheduler B × W}
      → try_kernels can turn ks (true, r) ≡ ok (p, r')
      → p ≡ true
  unfolding try_kernels
  all_progress_stays [] r h = cc h
  all_progress_stays (k ∷ ks) r {p} {r'} h =
      let ((q, m), e₁, e₂) =
        >>=-eq-ok (try_kernel can turn k (true, r)) (try_kernels can turn ks) h in
      all_progress_stays ks m
        (subst (λ z. try_kernels can turn ks (z, m) ≡ ok (p, r')) (progress_stays k r e₁) e₂)

  no_progress :
      (k : KernelId) (r : Scheduler B × W) {r' : Scheduler B × W}
      → try_kernel can turn k (false, r) ≡ ok (false, r')
      → (r ≡ r') × IsStuck r k
  unfolding try_kernel
  no_progress k (s, w) h = elim (Option-cases (lookup k s.active)) [
    | inl ended ↦ (cc (rw (try_kernel, ended) at h), λ e he. cc (ended, he))
    | inr (e, he) ↦ elim (Bool-cases (may_run can w e)) [
      | inl runs ↦
          let (q, _, e₁) =
            >>=-eq-ok (run_turn can turn k (turn k w) (record s { active = put k none s.active }))
              (λ r. ok (true, r)) (rw (try_kernel, he, runs) at h) in
          cc e₁
      | inr stuck ↦ (cc (rw (try_kernel, he, stuck) at h), λ f hf. cc (he, hf, stuck))
    ]
  ]

  -- A round without progress leaves all as it was, and found each candidate stuck.
  pub round-IsStuck :
      (ks : List KernelId) (r : Scheduler B × W) {r' : Scheduler B × W}
      → try_kernels can turn ks (false, r) ≡ ok (false, r')
      → (r ≡ r') × Each (IsStuck r) ks
  unfolding try_kernels
  round-IsStuck [] r h = (cc h, tt)
  round-IsStuck (k ∷ ks) r {r'} h =
      let ((q, m), e₁, e₂) =
        >>=-eq-ok (try_kernel can turn k (false, r)) (try_kernels can turn ks) h in
      elim (Bool-cases q) [
        | inl progress ↦ cc (
            all_progress_stays ks m
              (subst (λ z. try_kernels can turn ks (z, m) ≡ ok (false, r')) progress e₂))
        | inr none_yet ↦
            let (same, stuck) = no_progress k r (e₁ ∙ ap (λ z. ok (z, m)) none_yet) in
            let (same', rest) =
              round-IsStuck ks m
                (subst (λ z. try_kernels can turn ks (z, m) ≡ ok (false, r')) none_yet e₂) in
            (same ∙ same', (stuck, subst (λ z. Each (IsStuck z) ks) (sym same) rest))
      ]

  candidates-Each :
      (fair : Bool) (P : KernelId → Type 0) (s : Scheduler B)
      → Each P (candidates fair s)
      → Each P (keys s.active)
  candidates-Each true P s h = get_fair_kernel_order-Each P s h
  candidates-Each false P s h = h

  -- What a deadlock tells of a state: an active kernel is left, and each waits for what cannot
  -- proceed.
  pub record IsDeadlock (r : Scheduler B × W) : Type 0 where
    pub left : r.0.active ≢ []
    pub waiting :
        (k : KernelId) (e : Option B)
        → lookup k r.0.active ≡ some e
        → (b : B) × (e ≡ some b) × (can b r.1 ≡ false)

  stuck-waiting :
      (w : W) (e : Option B) → may_run can w e ≡ false → (b : B) × (e ≡ some b) × (can b w ≡ false)
  stuck-waiting w none h = cc h
  stuck-waiting w (some b) h = (b, refl, h)

  round-IsDeadlock :
      (fair : Bool) (r : Scheduler B × W) {r' : Scheduler B × W}
      → try_kernels can turn (candidates fair r.0) (false, r) ≡ ok (false, r')
      → is_empty r'.0.active ≡ false
      → IsDeadlock r'
  round-IsDeadlock fair r {r'} h e =
      let (same, each) = round-IsStuck (candidates fair r.0) r h in
      let active = candidates-Each fair (IsStuck r) r.0 each in
      subst IsDeadlock same (record {
        left =
            λ nil. cc (ap (λ (z : Scheduler B × W). is_empty z.0.active) same, ap is_empty nil, e);
        waiting = λ k f found.
            stuck-waiting r.1 f (Each-lookup (IsStuck r) k r.0.active active found f found);
      })

  deadlock-eq :
      {m m' : Scheduler B × W}
      → ◌≡◌ {A = Result SchedulerError (Ending B W)} (ok (deadlock m)) (ok (deadlock m'))
      → IsDeadlock m
      → IsDeadlock m'
  deadlock-eq e d = subst IsDeadlock (cc e) d

  is_empty-nil : {V : Type 0} (d : List V) → is_empty d ≡ true → d ≡ []
  is_empty-nil [] h = refl
  is_empty-nil (x ∷ d) h = cc h

  -- How the main loop ends, whatever order it tries the kernels in: a deadlock is raised only when a
  -- kernel is left and each kernel left waits for what cannot proceed, and the loop returns only when
  -- no kernel is left.
  pub loop-ends :
      (n : ℕ) (fair : Bool) (r : Scheduler B × W) {r' : Scheduler B × W}
      → (loop can turn n fair r ≡ ok (deadlock r') → IsDeadlock r')
        × (loop can turn n fair r ≡ ok (all_completed r') → r'.0.active ≡ [])
  unfolding loop next_round
  loop-ends zero fair r {r'} = elim (Bool-cases (is_empty r.0.active)) [
    | inl e ↦ (λ h. cc (rw (loop, e) at h), λ h. cc (rw (loop, e) at h, is_empty-nil r.0.active e))
    | inr e ↦ (λ h. cc (rw (loop, e) at h), λ h. cc (rw (loop, e) at h))
  ]
  loop-ends (suc n) fair r {r'} = elim (Bool-cases (is_empty r.0.active)) [
    | inl e ↦ (λ h. cc (rw (loop, e) at h), λ h. cc (rw (loop, e) at h, is_empty-nil r.0.active e))
    | inr e ↦ elim (Result-cases (try_kernels can turn (candidates fair r.0) (false, r))) [
      | inr (x, hx) ↦ (λ h. cc (rw (loop, e, hx) at h), λ h. cc (rw (loop, e, hx) at h))
      | inl ((p, m), hm) ↦ elim (Bool-cases p) [
        | inl progress ↦ (
          λ h. (loop-ends n fair m).0 (rw (loop, e, hm, next_round, progress) at h),
          λ h. (loop-ends n fair m).1 (rw (loop, e, hm, next_round, progress) at h),
        )
        | inr stuck ↦ elim (Bool-cases (is_empty m.0.active)) [
          | inl nil ↦ (
            λ h. (loop-ends n fair m).0 (rw (loop, e, hm, next_round, stuck, nil) at h),
            λ h. (loop-ends n fair m).1 (rw (loop, e, hm, next_round, stuck, nil) at h),
          )
          | inr left ↦ (
            λ h.
                deadlock-eq (rw (loop, e, hm, next_round, stuck, left) at h)
                  (round-IsDeadlock fair r (hm ∙ ap (λ z. ok (z, m)) stuck) left),
            λ h. cc (rw (loop, e, hm, next_round, stuck, left) at h),
          )
        ]
      ]
    ]
  ]
