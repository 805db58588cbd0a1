-- ===== src/BlockMachine/Protocol.antt =====
-- The protocol that the transition table encodes: in each access state the next operations are
-- determined, and the machine never meets its own internal errors.
use ml_tt_lang.Prelude.{◌≤◌, ◌≡◌, ◌∙◌, refl, Option, none, some, List, [], ◌∷◌, ◌⊎◌, arith}
use ml_tt_lang.Result.{ok, err, >>=-eq-ok}
use ml_tt_lang.BlockState.{
  AccessState, mw, mr, rw, ror, naw, os, KernelType, dm, compute, BlockAcquisition, reserve, wait,
  ExpectedOp, push, pop, store, BlockError, block_finished, not_expected,
}
use ml_tt_lang.BlockMachine.{
  BlockStateMachine, init, initialize, Mark, copy_as_source, assign_src_complete, mark, run,
}

-- The operations allowed next, as a function of the role and the access state; `none` where the
-- role never comes to that access state.
abbrev pub allowed : BlockAcquisition → KernelType → AccessState → Option (List ExpectedOp)
allowed _ _ os = some []
allowed reserve dm mw = some (ExpectedOp.copy_dst ∷ [])
allowed reserve dm mr = some (push ∷ ExpectedOp.copy_src ∷ [])
allowed reserve dm rw = some (ExpectedOp.copy_dst ∷ ExpectedOp.copy_src ∷ push ∷ [])
allowed wait dm mr = some (ExpectedOp.copy_src ∷ [])
allowed wait dm rw = some (ExpectedOp.copy_dst ∷ ExpectedOp.copy_src ∷ pop ∷ [])
allowed _ dm ror = some (ExpectedOp.tx_wait ∷ ExpectedOp.copy_src ∷ [])
allowed _ dm naw = some (ExpectedOp.tx_wait ∷ [])
allowed reserve compute mw = some (store ∷ [])
allowed reserve compute mr = some (ExpectedOp.store_src ∷ push ∷ [])
allowed reserve compute rw = some (ExpectedOp.store_src ∷ store ∷ push ∷ [])
allowed wait compute mr = some (ExpectedOp.store_src ∷ [])
allowed wait compute rw = some (ExpectedOp.store_src ∷ store ∷ pop ∷ [])
allowed _ _ _ = none

pub record IsValid (s : BlockStateMachine) : Type 0 where
  pub protocol : allowed s.acquisition s.kernel_type s.access_state ≡ some s.expected_ops
  pub counted : s.access_state ≡ ror → 1 ≤ s.ror_count

pub initialize-IsValid : (a : BlockAcquisition) (k : KernelType) → IsValid (initialize (init a k))
unfolding initialize init
initialize-IsValid a k = ground arith

-- Every successful mark keeps the protocol.
pub mark-IsValid : (m : Mark) {s t : BlockStateMachine} → IsValid s → mark m s ≡ ok t → IsValid t
unfolding mark
mark-IsValid copy_as_source v h = ground arith
mark-IsValid _ v h = ground arith

pub run-IsValid :
    (ms : List Mark) {s t : BlockStateMachine} → IsValid s → run ms s ≡ ok t → IsValid t
unfolding run
run-IsValid [] {s} v h = ground arith
run-IsValid (m ∷ ms) {s} v h =
    let (u, hu, ht) = >>=-eq-ok (mark m s) (run ms) h in run-IsValid ms (mark-IsValid m v hu) ht

-- A mark changes neither how the block was acquired nor the kernel's role.
pub mark-role :
    (m : Mark) (s : BlockStateMachine) {t : BlockStateMachine}
    → mark m s ≡ ok t
    → (t.acquisition ≡ s.acquisition) × (t.kernel_type ≡ s.kernel_type)
unfolding mark
mark-role copy_as_source s h = ground arith
mark-role _ s h = ground arith

pub run-role :
    (ms : List Mark) (s : BlockStateMachine) {t : BlockStateMachine}
    → run ms s ≡ ok t
    → (t.acquisition ≡ s.acquisition) × (t.kernel_type ≡ s.kernel_type)
unfolding run
run-role [] s h = ground arith
run-role (m ∷ ms) s h =
    let (u, hu, ht) = >>=-eq-ok (mark m s) (run ms) h in
    ground (arith, mark-role m s hu, run-role ms u ht)

mark_refusal :
    (m : Mark) {s : BlockStateMachine} {e : BlockError}
    → IsValid s
    → (m ≡ assign_src_complete → s.acquisition ≡ wait)
    → mark m s ≡ err e
    → (e ≡ block_finished) ⊎ (e ≡ not_expected)
unfolding mark
mark_refusal copy_as_source v w h = ground arith
mark_refusal assign_src_complete v w h = ground (arith, w refl)
mark_refusal _ v w h = ground arith

-- After any successful marks of an initialized block, the operations that the machine expects are
-- those of the protocol table `allowed` at its role and access state, and inside ROR at least one
-- copy is counted.
pub expected_ops-allowed :
    (a : BlockAcquisition) (k : KernelType) (ms : List Mark) {t : BlockStateMachine}
    → run ms (initialize (init a k)) ≡ ok t
    → (allowed a k t.access_state ≡ some t.expected_ops) × (t.access_state ≡ ror → 1 ≤ t.ror_count)
unfolding initialize init
expected_ops-allowed a k ms {t} h =
    let v = run-IsValid ms (initialize-IsValid a k) h in
    ground (arith, run-role ms _ h, v.protocol, v.counted)

-- A mark on a block that got here by successful marks from its initialization is refused, if at
-- all, as a user's mistake (the block is finished, or the operation is not expected): the missing
-- table, the missing row and the misuse of push() and pop() are never reported. `assign_src` is
-- made on wait() blocks only, as its callers do.
pub mark_user_errors :
    (a : BlockAcquisition) (k : KernelType) (ms : List Mark) (m : Mark) {t : BlockStateMachine}
    {e : BlockError}
    → run ms (initialize (init a k)) ≡ ok t
    → (m ≡ assign_src_complete → a ≡ wait)
    → mark m t ≡ err e
    → (e ≡ block_finished) ⊎ (e ≡ not_expected)
unfolding initialize init
mark_user_errors a k ms m h w =
    mark_refusal m (run-IsValid ms (initialize-IsValid a k) h) (λ p. (run-role ms _ h).0 ∙ w p)
