-- ===== src/BlockState.antt =====
-- python/sim/blockstate.py: the access-state machine of a dataflow block.
use ml_tt_lang.Prelude.{ℕ, Bool, true, false, ◌||◌, Option, none, some, List, [], ◌∷◌, ◌==◌}

-- `AccessState`
pub data AccessState : Type 0 where
  mw mr rw ror naw os : AccessState

-- `KernelType`
pub data KernelType : Type 0 where
  dm compute : KernelType

-- `BlockAcquisition`
pub data BlockAcquisition : Type 0 where
  reserve wait : BlockAcquisition

-- `ExpectedOp`
pub data ExpectedOp : Type 0 where
  copy_src copy_dst tx_wait push pop store store_src done : ExpectedOp

-- The string keys of the transition table.
pub data OperationKey : Type 0 where
  copy_src copy_dst tx_wait assign_src store_src store_dst : OperationKey

-- The number that `auto()` gives each member; members are compared by it.
abbrev pub op_value : ExpectedOp → ℕ
op_value ExpectedOp.copy_src = 1
op_value ExpectedOp.copy_dst = 2
op_value ExpectedOp.tx_wait = 3
op_value push = 4
op_value pop = 5
op_value store = 6
op_value ExpectedOp.store_src = 7
op_value done = 8

abbrev pub access_value : AccessState → ℕ
access_value mw = 1
access_value mr = 2
access_value rw = 3
access_value ror = 4
access_value naw = 5
access_value os = 6

abbrev pub access_eq : AccessState → AccessState → Bool
access_eq a b = access_value a == access_value b

-- `op in ops`; a Python set of operations is a list, read only by membership and emptiness.
abbrev pub contains : ExpectedOp → List ExpectedOp → Bool
contains op [] = false
contains op (x ∷ xs) = op_value x == op_value op || contains op xs

abbrev pub is_empty : List ExpectedOp → Bool
is_empty [] = true
is_empty (_ ∷ _) = false

abbrev pub is_reserve : BlockAcquisition → Bool
is_reserve reserve = true
is_reserve wait = false

-- What `RuntimeError` says, one constructor for each `raise`.
pub data BlockError : Type 0 where
  block_finished : BlockError
  not_expected : BlockError
  no_table : BlockError
  invalid_transition : BlockError
  push_of_wait : BlockError
  pop_of_reserve : BlockError
  pop_access : BlockError

abbrev pub Transition : Type 0
Transition = AccessState × List ExpectedOp

abbrev pub ror_expected : List ExpectedOp
ror_expected = ExpectedOp.tx_wait ∷ ExpectedOp.copy_src ∷ []

-- The four parts of `STATE_TRANSITIONS`.
wait_dm : OperationKey → AccessState → Option Transition
wait_dm copy_src mr = some (ror, ExpectedOp.tx_wait ∷ ExpectedOp.copy_src ∷ [])
wait_dm copy_src rw = some (ror, ExpectedOp.tx_wait ∷ ExpectedOp.copy_src ∷ [])
wait_dm copy_dst rw = some (naw, ExpectedOp.tx_wait ∷ [])
wait_dm tx_wait ror = some (rw, ExpectedOp.copy_dst ∷ ExpectedOp.copy_src ∷ pop ∷ [])
wait_dm tx_wait naw = some (mr, ExpectedOp.copy_src ∷ [])
wait_dm _ _ = none

reserve_dm : OperationKey → AccessState → Option Transition
reserve_dm copy_src mr = some (ror, ExpectedOp.tx_wait ∷ ExpectedOp.copy_src ∷ [])
reserve_dm copy_src rw = some (ror, ExpectedOp.tx_wait ∷ ExpectedOp.copy_src ∷ [])
reserve_dm copy_dst mw = some (naw, ExpectedOp.tx_wait ∷ [])
reserve_dm copy_dst rw = some (naw, ExpectedOp.tx_wait ∷ [])
reserve_dm tx_wait naw = some (mr, push ∷ ExpectedOp.copy_src ∷ [])
reserve_dm tx_wait ror = some (rw, ExpectedOp.copy_dst ∷ ExpectedOp.copy_src ∷ push ∷ [])
reserve_dm _ _ = none

wait_compute : OperationKey → AccessState → Option Transition
wait_compute assign_src mr = some (rw, ExpectedOp.store_src ∷ store ∷ pop ∷ [])
wait_compute assign_src rw = some (rw, ExpectedOp.store_src ∷ store ∷ pop ∷ [])
wait_compute store_src mr = some (rw, ExpectedOp.store_src ∷ store ∷ pop ∷ [])
wait_compute store_src rw = some (rw, ExpectedOp.store_src ∷ store ∷ pop ∷ [])
wait_compute store_dst rw = some (mr, ExpectedOp.store_src ∷ [])
wait_compute _ _ = none

reserve_compute : OperationKey → AccessState → Option Transition
reserve_compute store_src mr = some (rw, ExpectedOp.store_src ∷ store ∷ push ∷ [])
reserve_compute store_src rw = some (rw, ExpectedOp.store_src ∷ store ∷ push ∷ [])
reserve_compute store_dst mw = some (mr, ExpectedOp.store_src ∷ push ∷ [])
reserve_compute store_dst rw = some (mr, ExpectedOp.store_src ∷ push ∷ [])
reserve_compute _ _ = none

-- `STATE_TRANSITIONS.get(context_key)`
unfoldable pub state_transitions :
    BlockAcquisition → KernelType → Option (OperationKey → AccessState → Option Transition)
unfolding wait_dm reserve_dm wait_compute reserve_compute
state_transitions wait dm = some wait_dm
state_transitions reserve dm = some reserve_dm
state_transitions wait compute = some wait_compute
state_transitions reserve compute = some reserve_compute
