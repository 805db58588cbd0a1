-- ===== src/BlockMachine/CanClose.antt =====
-- Every block in use can be brought to its end, and nothing follows the end.
use ml_tt_lang.Prelude.{ℕ, zero, suc, ◌-◌, ◌≡◌, ◌≢◌, refl, List, [], ◌∷◌, ◌⊎◌, inl, inr, arith}
use ml_tt_lang.Result.{ok, err, Result-cases}
use ml_tt_lang.BlockState.{
  AccessState, BlockError, mw, mr, ror, naw, os, KernelType, dm, compute, BlockAcquisition, reserve,
  wait, block_finished,
}
use ml_tt_lang.BlockMachine.{
  BlockStateMachine, init, initialize, Mark, copy_as_source, copy_as_dest, tx_wait_complete,
  store_read_complete, store_complete, push_complete, pop_complete, mark, run,
}
use ml_tt_lang.BlockMachine.Protocol.{IsValid, initialize-IsValid, mark-IsValid, run-IsValid}

-- Some marks end the block's life.
abbrev pub Closes : BlockStateMachine → Type 0
Closes s = (ms : List Mark) × (t : BlockStateMachine) × (run ms s ≡ ok t) × (t.access_state ≡ os)

-- A mark that is not refused leads on to the end, if its result does.
Closes-mark :
    (m : Mark) (s : BlockStateMachine)
    → ((e : BlockError) → mark m s ≢ err e)
    → ((u : BlockStateMachine) → mark m s ≡ ok u → Closes u)
    → Closes s
unfolding run
Closes-mark m s accepted next = elim (Result-cases (mark m s)) [
  | inl (u, h) ↦ let (ms, t, r, e) = next u h in (m ∷ ms, t, rw h r, e)
  | inr (e, h) ↦ absurd (accepted e h)
]

Closes-os : (s : BlockStateMachine) → s.access_state ≡ os → Closes s
unfolding run
Closes-os s e = ([], s, refl, e)

acquired : (a : BlockAcquisition) → (a ≡ reserve) ⊎ (a ≡ wait)
acquired reserve = inl refl
acquired wait = inr refl

kernel_role : (k : KernelType) → (k ≡ dm) ⊎ (k ≡ compute)
kernel_role dm = inl refl
kernel_role compute = inr refl

Closes-push :
    (s : BlockStateMachine)
    → IsValid s
    → s.acquisition ≡ reserve
    → (s.access_state ≡ mr) ⊎ (s.access_state ≡ AccessState.rw)
    → Closes s
unfolding mark
Closes-push s v a e =
    Closes-mark push_complete s (λ x h. ground arith) (λ u h. Closes-os u (ground arith))

Closes-rw : (s : BlockStateMachine) → IsValid s → s.access_state ≡ AccessState.rw → Closes s
unfolding mark
Closes-rw s v e = elim (acquired s.acquisition) [
  | inl a ↦ Closes-push s v a (inr e)
  | inr a ↦ Closes-mark pop_complete s (λ x h. ground arith) (λ u h. Closes-os u (ground arith))
]

-- With `n + 1` copies in flight, as many waits come first.
Closes-ror :
    (n : ℕ) (s : BlockStateMachine)
    → IsValid s
    → s.access_state ≡ ror
    → s.ror_count ≡ suc n
    → Closes s
unfolding mark
Closes-ror zero s v e c =
    Closes-mark tx_wait_complete s (λ x h. ground arith)
      (λ u h. Closes-rw u (mark-IsValid tx_wait_complete v h) (ground arith))
Closes-ror (suc n) s v e c =
    Closes-mark tx_wait_complete s (λ x h. ground arith)
      (λ u h. Closes-ror n u (mark-IsValid tx_wait_complete v h) (ground arith) (ground arith))

Closes-mr : (s : BlockStateMachine) → IsValid s → s.access_state ≡ mr → Closes s
unfolding mark
Closes-mr s v e = elim (acquired s.acquisition) [
  | inl a ↦ Closes-push s v a (inl e)
  | inr a ↦ elim (kernel_role s.kernel_type) [
    | inl k ↦
        Closes-mark copy_as_source s (λ x h. ground arith)
          (λ u h. Closes-ror 0 u (mark-IsValid copy_as_source v h) (ground arith) (ground arith))
    | inr k ↦
        Closes-mark store_read_complete s (λ x h. ground arith)
          (λ u h. Closes-rw u (mark-IsValid store_read_complete v h) (ground arith))
  ]
]

Closes-naw : (s : BlockStateMachine) → IsValid s → s.access_state ≡ naw → Closes s
unfolding mark
Closes-naw s v e =
    Closes-mark tx_wait_complete s (λ x h. ground arith)
      (λ u h. Closes-mr u (mark-IsValid tx_wait_complete v h) (ground arith))

Closes-mw : (s : BlockStateMachine) → IsValid s → s.access_state ≡ mw → Closes s
unfolding mark
Closes-mw s v e = elim (kernel_role s.kernel_type) [
  | inl k ↦
      Closes-mark copy_as_dest s (λ x h. ground arith)
        (λ u h. Closes-naw u (mark-IsValid copy_as_dest v h) (ground arith))
  | inr k ↦
      Closes-mark store_complete s (λ x h. ground arith)
        (λ u h. Closes-mr u (mark-IsValid store_complete v h) (ground arith))
]

IsValid-Closes :
    (x : AccessState) (s : BlockStateMachine) → IsValid s → s.access_state ≡ x → Closes s
IsValid-Closes mw s v e = Closes-mw s v e
IsValid-Closes mr s v e = Closes-mr s v e
IsValid-Closes AccessState.rw s v e = Closes-rw s v e
IsValid-Closes ror s v e = Closes-ror (s.ror_count - 1) s v e (let p = v.counted e in omega arith)
IsValid-Closes naw s v e = Closes-naw s v e
IsValid-Closes os s v e = Closes-os s e

-- However a block was used since its initialization, some further marks take it out of scope: the
-- protocol never leaves a block that can neither be pushed nor popped any more.
pub can_close :
    (a : BlockAcquisition) (k : KernelType) (ms : List Mark) {s : BlockStateMachine}
    → run ms (initialize (init a k)) ≡ ok s
    → Closes s
can_close a k ms {s} h =
    IsValid-Closes s.access_state s (run-IsValid ms (initialize-IsValid a k) h) refl

finished_mark :
    (m : Mark) (s : BlockStateMachine)
    → IsValid s
    → s.access_state ≡ os
    → m ≢ store_read_complete
    → mark m s ≡ err block_finished
unfolding mark
finished_mark copy_as_source s v e n = ground arith
finished_mark _ s v e n = ground arith

-- Out of scope, the block refuses every further mark as finished, but the mark that its data
-- reached a store, which leaves it as it is.
pub closed_refuses :
    (a : BlockAcquisition) (k : KernelType) (ms : List Mark) {s : BlockStateMachine} (m : Mark)
    → run ms (initialize (init a k)) ≡ ok s
    → s.access_state ≡ os
    → (m ≢ store_read_complete → mark m s ≡ err block_finished)
      × (mark store_read_complete s ≡ ok s)
unfolding mark
closed_refuses a k ms {s} m h e =
    (finished_mark m s (run-IsValid ms (initialize-IsValid a k) h) e, ground arith)
