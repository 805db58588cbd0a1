-- ===== src/Scheduler/Termination.antt =====
-- The main loop ends: rounds enough are given by any measure that each turn lowers.
use mathlib.Core.Path.{subst}
use ml_tt_lang.Prelude.{
  ℕ, zero, suc, ◌≤◌, ◌<◌, ◌≡◌, ◌≢◌, refl, ap, ◌∙◌, Bool, true, false, none, List, [], ◌∷◌, inl, inr,
  Bool-cases, Option-cases, arith,
}
use ml_tt_lang.Result.{Result, ok, err, >>=-eq-ok, Result-cases}
use ml_tt_lang.Scheduler.{
  KernelId, Scheduler, SchedulerError, out_of_fuel, Turn, finished, blocked, failed, lookup, put,
  may_run, run_turn, try_kernel, try_kernels, candidates, is_empty, next_round, loop,
}

-- A turn that does not fail leaves less than `n` to do.
abbrev pub LeavesLess : {B W : Type 0} → (W → ℕ) → ℕ → Turn B W → Type 0
LeavesLess size n (finished w) = size w < n
LeavesLess size n (blocked _ _ w) = size w < n
LeavesLess size n failed = Unit

module _ {B W : Type 0} where
  world :
      {s s' : Scheduler B} {w w' : W}
      → ◌≡◌ {A = Result SchedulerError (Scheduler B × W)} (ok (s, w)) (ok (s', w'))
      → w ≡ w'
  world e = cc e

  snd-ok :
      {p q : Bool} {r r' : Scheduler B × W}
      → ◌≡◌ {A = Result SchedulerError (Bool × (Scheduler B × W))} (ok (p, r)) (ok (q, r'))
      → r ≡ r'
  snd-ok e = cc e

  flag-ok :
      {p q : Bool} {r r' : Scheduler B × W}
      → ◌≡◌ {A = Result SchedulerError (Bool × (Scheduler B × W))} (ok (p, r)) (ok (q, r'))
      → p ≡ q
  flag-ok e = cc e

error-eq :
    {A : Type 0} {x y : SchedulerError} → ◌≡◌ {A = Result SchedulerError A} (err x) (err y) → x ≡ y
error-eq e = cc e

module _ {B W : Type 0} (can : B → W → Bool) (turn : KernelId → W → Turn B W) (size : W → ℕ)
    (lowers : (k : KernelId) (w : W) → LeavesLess size (size w) (turn k w)) where
  run_turn-size :
      (k : KernelId) (o : Turn B W) (s : Scheduler B) {n : ℕ} {s' : Scheduler B} {w : W}
      → LeavesLess size n o
      → run_turn can turn k o s ≡ ok (s', w)
      → size w < n
  unfolding run_turn
  run_turn-size k (finished v) s {n} less h = subst (λ z. size z < n) (world h) less
  run_turn-size k (blocked b p v) s {n} less h = subst (λ z. size z < n) (world h) less
  run_turn-size k failed s less h = cc h

  same-size :
      {p q : Bool} {r r' : Scheduler B × W}
      → ◌≡◌ {A = Result SchedulerError (Bool × (Scheduler B × W))} (ok (p, r)) (ok (q, r'))
      → (size r'.1 ≤ size r.1) × (p ≡ false → q ≡ true → size r'.1 < size r.1)
  same-size {p} {q} {r} {r'} e =
      let same : size r.1 ≡ size r'.1 = ap (λ (z : Scheduler B × W). size z.1) (snd-ok e) in
      let flag : p ≡ q = flag-ok e in (omega arith, λ hp hq. cc (flag, hp, hq))

  try_kernel-size :
      (k : KernelId) (p : Bool) (r : Scheduler B × W) {q : Bool} {r' : Scheduler B × W}
      → try_kernel can turn k (p, r) ≡ ok (q, r')
      → (size r'.1 ≤ size r.1) × (p ≡ false → q ≡ true → size r'.1 < size r.1)
  unfolding try_kernel
  try_kernel-size k p (s, w) {r'} h = elim (Option-cases (lookup k s.active)) [
    | inl ended ↦ same-size (rw (try_kernel, ended) at h)
    | inr (e, he) ↦ elim (Bool-cases (may_run can w e)) [
      | inl runs ↦
          let s₁ = record s { active = put k none s.active } in
          let (m, e₁, e₂) =
            >>=-eq-ok (run_turn can turn k (turn k w) s₁) (λ r. ok (true, r))
              (rw (try_kernel, he, runs) at h) in
          let less = run_turn-size k (turn k w) s₁ (lowers k w) e₁ in
          let same : size m.1 ≡ size r'.1 = ap (λ (z : Scheduler B × W). size z.1) (snd-ok e₂) in
          (omega arith, λ _ _. omega arith)
      | inr stuck ↦ same-size (rw (try_kernel, he, stuck) at h)
    ]
  ]

  try_kernels-size :
      (ks : List KernelId) (p : Bool) (r : Scheduler B × W) {q : Bool} {r' : Scheduler B × W}
      → try_kernels can turn ks (p, r) ≡ ok (q, r')
      → (size r'.1 ≤ size r.1) × (p ≡ false → q ≡ true → size r'.1 < size r.1)
  unfolding try_kernels
  try_kernels-size [] p r h = same-size h
  try_kernels-size (k ∷ ks) p r {q} h =
      let ((p', m), e₁, e₂) =
        >>=-eq-ok (try_kernel can turn k (p, r)) (try_kernels can turn ks) h in
      let (le₁, lt₁) = try_kernel-size k p r e₁ in
      let (le₂, lt₂) = try_kernels-size ks p' m e₂ in
      (
        omega arith,
        λ hp hq. elim (Bool-cases p') [
          | inl moved ↦ let l = lt₁ hp moved in omega arith
          | inr idle ↦ let l = lt₂ idle hq in omega arith
        ],
      )

  run_turn-error :
      (k : KernelId) (o : Turn B W) (s : Scheduler B) → run_turn can turn k o s ≢ err out_of_fuel
  unfolding run_turn
  run_turn-error k (finished v) s h = cc h
  run_turn-error k (blocked b p v) s h = cc h
  run_turn-error k failed s h = cc h

  try_kernel-error :
      (k : KernelId) (p : Bool) (r : Scheduler B × W)
      → try_kernel can turn k (p, r) ≢ err out_of_fuel
  unfolding try_kernel
  try_kernel-error k p (s, w) h = elim (Option-cases (lookup k s.active)) [
    | inl ended ↦ cc (rw (try_kernel, ended) at h)
    | inr (e, he) ↦ elim (Bool-cases (may_run can w e)) [
      | inr stuck ↦ cc (rw (try_kernel, he, stuck) at h)
      | inl runs ↦
          let s₁ = record s { active = put k none s.active } in
          elim (Result-cases (run_turn can turn k (turn k w) s₁)) [
            | inl (m, hm) ↦ cc (rw (try_kernel, he, runs, hm) at h)
            | inr (x, hx) ↦
                let same : x ≡ out_of_fuel = error-eq (rw (try_kernel, he, runs, hx) at h) in
                run_turn-error k (turn k w) s₁ (hx ∙ ap err same)
          ]
    ]
  ]

  try_kernels-error :
      (ks : List KernelId) (r : Bool × (Scheduler B × W))
      → try_kernels can turn ks r ≢ err out_of_fuel
  unfolding try_kernels
  try_kernels-error [] r h = cc h
  try_kernels-error (k ∷ ks) (p, r) h = elim (Result-cases (try_kernel can turn k (p, r))) [
    | inl (m, hm) ↦ try_kernels-error ks m (rw (try_kernels, hm) at h)
    | inr (x, hx) ↦
        let same : x ≡ out_of_fuel = error-eq (rw (try_kernels, hx) at h) in
        try_kernel-error k p r (hx ∙ ap err same)
  ]

  loop-empty :
      (n : ℕ) (fair : Bool) (r : Scheduler B × W)
      → is_empty r.0.active ≡ true
      → loop can turn n fair r ≢ err out_of_fuel
  unfolding loop
  loop-empty zero fair r e h = cc (rw (loop, e) at h)
  loop-empty (suc n) fair r e h = cc (rw (loop, e) at h)

  -- Where each turn lowers a measure of the world, more rounds than the measure are enough, in either
  -- order: the loop returns, finds a deadlock or ends with a kernel's exception.
  pub loop-terminates :
      (n : ℕ) (fair : Bool) (r : Scheduler B × W)
      → size r.1 < n
      → loop can turn n fair r ≢ err out_of_fuel
  unfolding loop next_round
  loop-terminates zero fair r less h = omega arith
  loop-terminates (suc n) fair r less h = elim (Bool-cases (is_empty r.0.active)) [
    | inl e ↦ cc (rw (loop, e) at h)
    | inr e ↦ elim (Result-cases (try_kernels can turn (candidates fair r.0) (false, r))) [
      | inr (x, hx) ↦
          let same : x ≡ out_of_fuel = error-eq (rw (loop, e, hx) at h) in
          try_kernels-error (candidates fair r.0) (false, r) (hx ∙ ap err same)
      | inl ((p, m), hm) ↦
          let shrinks = (try_kernels-size (candidates fair r.0) false r hm).1 refl in
          elim (Bool-cases p) [
            | inl progress ↦
                let l = shrinks progress in
                loop-terminates n fair m (omega arith) (rw (loop, e, hm, next_round, progress) at h)
            | inr stuck ↦ elim (Bool-cases (is_empty m.0.active)) [
              | inr left ↦ cc (rw (loop, e, hm, next_round, stuck, left) at h)
              | inl nil ↦ loop-empty n fair m nil (rw (loop, e, hm, next_round, stuck, nil) at h)
            ]
          ]
    ]
  ]
