-- ===== src/Scheduler/Bookkeeping.antt =====
-- `_completed` and `_active` in the main loop.
use mathlib.Core.Path.{subst}
use mathlib.Core.List.Perm
use mathlib.Core.List.{Perm, append_assoc}
use ml_tt_lang.Prelude.{
  ℕ, zero, suc, ◌≡◌, refl, sym, ap, ◌∙◌, Bool, true, false, not, ◌&&◌, Option, none, some, List, [],
  ◌∷◌, ◌++◌, inl, inr, Bool-cases, Option-cases,
}
use ml_tt_lang.Result.{Result, ok, >>=-eq-ok}
use ml_tt_lang.Scheduler.{
  KernelId, Scheduler, SchedulerError, Turn, finished, blocked, failed, Ending, kernel_eq, lookup,
  put, remove, keys, may_run, mark_completed, block_kernel, stamp, run_turn, try_kernel,
  try_kernels, candidates, is_empty, next_round, loop, deadlock, all_completed,
}
use ml_tt_lang.Scheduler.Deadlock.{kernel_eq→≡}

module _ {V : Type 0} where
  pub keys-put :
      (k : KernelId) (u : V) (d : List (KernelId × V)) {v : V}
      → lookup k d ≡ some v
      → keys (put k u d) ≡ keys d
  unfolding lookup put
  keys-put k u [] h = cc h
  keys-put k u ((j, x) ∷ d) h = elim (Bool-cases (kernel_eq j k)) [
    | inl same ↦ rw same refl
    | inr other ↦ rw other (ap (λ js. j ∷ js) (keys-put k u d (rw other at h)))
  ]

  pub remove-Perm :
      (k : KernelId) (d : List (KernelId × V)) {v : V}
      → lookup k d ≡ some v
      → Perm (k ∷ keys (remove k d)) (keys d)
  unfolding lookup remove
  remove-Perm k [] h = cc h
  remove-Perm k ((j, x) ∷ d) h = elim (Bool-cases (kernel_eq j k)) [
    | inl same ↦ rw same (
        subst (λ z. Perm (z ∷ keys d) (j ∷ keys d)) (kernel_eq→≡ j k same) (Perm.refl (j ∷ keys d)))
    | inr other ↦ rw other (
        Perm.trans (Perm.swap j k (keys (remove k d)))
          (Perm.cons j (remove-Perm k d (rw other at h))))
  ]

  lookup-put :
      (k : KernelId) (u : V) (d : List (KernelId × V)) {v : V}
      → lookup k d ≡ some v
      → lookup k (put k u d) ≡ some u
  unfolding lookup put
  lookup-put k u [] h = cc h
  lookup-put k u ((j, x) ∷ d) h = elim (Bool-cases (kernel_eq j k)) [
    | inl same ↦ rw (same, same) refl
    | inr other ↦ rw (other, other) (lookup-put k u d (rw other at h))
  ]

-- The kernels that a scheduler has: those that have ended, and those that are active.
abbrev pub accounted : {B : Type 0} → Scheduler B → List KernelId
accounted s = s.completed ++ keys s.active

module _ {B W : Type 0} (can : B → W → Bool) (turn : KernelId → W → Turn B W) where
  fst-eq :
      {A : Type 0} (f : Scheduler B → A) {s s' : Scheduler B} {w w' : W}
      → ◌≡◌ {A = Result SchedulerError (Scheduler B × W)} (ok (s, w)) (ok (s', w'))
      → f s ≡ f s'
  fst-eq f e = ap f (cc e)

  snd-eq :
      {p q : Bool} {r r' : Scheduler B × W}
      → ◌≡◌ {A = Result SchedulerError (Bool × (Scheduler B × W))} (ok (p, r)) (ok (q, r'))
      → r ≡ r'
  snd-eq e = cc e

  same-state :
      {p q : Bool} {r r' : Scheduler B × W}
      → ◌≡◌ {A = Result SchedulerError (Bool × (Scheduler B × W))} (ok (p, r)) (ok (q, r'))
      → Perm (accounted r'.0) (accounted r.0)
  same-state {r} e =
      subst (λ (z : Scheduler B × W). Perm (accounted z.0) (accounted r.0)) (snd-eq e)
        (Perm.refl (accounted r.0))

  run_turn-accounted :
      (k : KernelId) (o : Turn B W) (s : Scheduler B) {e : Option B} {s' : Scheduler B} {w : W}
      → lookup k s.active ≡ some e
      → run_turn can turn k o s ≡ ok (s', w)
      → Perm (accounted s') (accounted s)
  unfolding run_turn stamp mark_completed block_kernel
  run_turn-accounted k (finished v) s {s'} he h =
      let moved : Perm (s.completed ++ (k ∷ keys (remove k s.active))) (accounted s) =
        Perm.append_left s.completed (remove-Perm k s.active he) in
      let assoc = append_assoc s.completed (k ∷ []) (keys (remove k s.active)) in
      subst (λ z. Perm z (accounted s)) (sym assoc ∙ fst-eq accounted h) moved
  run_turn-accounted k (blocked b progress v) s he h =
      let kept = ap (λ ks. s.completed ++ ks) (keys-put k (some b) s.active he) in
      subst (λ z. Perm z (accounted s)) (sym kept ∙ fst-eq accounted h) (Perm.refl (accounted s))
  run_turn-accounted k failed s he h = cc h

  try_kernel-accounted :
      (k : KernelId) (p : Bool) (r : Scheduler B × W) {q : Bool} {r' : Scheduler B × W}
      → try_kernel can turn k (p, r) ≡ ok (q, r')
      → Perm (accounted r'.0) (accounted r.0)
  unfolding try_kernel
  try_kernel-accounted k p (s, w) {r'} h = elim (Option-cases (lookup k s.active)) [
    | inl ended ↦ same-state (rw (try_kernel, ended) at h)
    | inr (e, he) ↦ elim (Bool-cases (may_run can w e)) [
      | inl runs ↦
          let s₁ = record s { active = put k none s.active } in
          let ((s₂, w₂), e₁, e₂) =
            >>=-eq-ok (run_turn can turn k (turn k w) s₁) (λ r. ok (true, r))
              (rw (try_kernel, he, runs) at h) in
          let step = run_turn-accounted k (turn k w) s₁ (lookup-put k none s.active he) e₁ in
          let before : accounted s₁ ≡ accounted s =
            ap (λ ks. s.completed ++ ks) (keys-put k none s.active he) in
          subst (λ (z : Scheduler B × W). Perm (accounted z.0) (accounted s)) (snd-eq e₂)
            (subst (Perm (accounted s₂)) before step)
      | inr stuck ↦ same-state (rw (try_kernel, he, stuck) at h)
    ]
  ]

  try_kernels-accounted :
      (ks : List KernelId) (p : Bool) (r : Scheduler B × W) {q : Bool} {r' : Scheduler B × W}
      → try_kernels can turn ks (p, r) ≡ ok (q, r')
      → Perm (accounted r'.0) (accounted r.0)
  unfolding try_kernels
  try_kernels-accounted [] p r h = same-state h
  try_kernels-accounted (k ∷ ks) p r h =
      let ((q, m), e₁, e₂) = >>=-eq-ok (try_kernel can turn k (p, r)) (try_kernels can turn ks) h in
      Perm.trans (try_kernels-accounted ks q m e₂) (try_kernel-accounted k p r e₁)

  -- The state that a run ended with.
  abbrev pub ending_state : Ending B W → Scheduler B × W
  ending_state (all_completed r) = r
  ending_state (deadlock r) = r

  end-state :
      (x : Ending B W) {y : Ending B W}
      → ◌≡◌ {A = Result SchedulerError (Ending B W)} (ok x) (ok y)
      → Perm (accounted (ending_state y).0) (accounted (ending_state x).0)
  end-state x {y} e =
      let same : x ≡ y = cc e in
      subst (λ z. Perm (accounted (ending_state z).0) (accounted (ending_state x).0)) same
        (Perm.refl (accounted (ending_state x).0))

  -- Over the main loop, if it ends without a kernel's exception, by completion or by a deadlock,
  -- the kernels that have ended and those still active are together the same, each as often: no
  -- kernel is lost, and none ends twice.
  pub loop-accounted :
      (n : ℕ) (fair : Bool) (r : Scheduler B × W) {x : Ending B W}
      → loop can turn n fair r ≡ ok x
      → Perm (accounted (ending_state x).0) (accounted r.0)
  unfolding loop next_round
  loop-accounted zero fair r {x} h = elim (Bool-cases (is_empty r.0.active)) [
    | inl e ↦ end-state (all_completed r) (rw (loop, e) at h)
    | inr e ↦ cc (rw (loop, e) at h)
  ]
  loop-accounted (suc n) fair r {x} h = elim (Bool-cases (is_empty r.0.active)) [
    | inl e ↦ end-state (all_completed r) (rw (loop, e) at h)
    | inr e ↦
        let ((p, m), e₁, e₂) =
          >>=-eq-ok (try_kernels can turn (candidates fair r.0) (false, r))
            (next_round can turn (loop can turn n fair)) (rw (loop, e) at h) in
        let round = try_kernels-accounted (candidates fair r.0) false r e₁ in
        elim (Bool-cases (not p && not (is_empty m.0.active))) [
          | inl stop ↦ Perm.trans (end-state (deadlock m) (rw (next_round, stop) at e₂)) round
          | inr on ↦ Perm.trans (loop-accounted n fair m (rw (next_round, on) at e₂)) round
        ]
  ]
