-- ===== src/BlockMachine.antt =====
-- python/sim/blockstate.py, class `BlockStateMachine`, and the `mark_*` methods of class `Block`
-- (python/sim/dfb.py) that drive it. A method that raises leaves the machine as it was.
pub mod Protocol
pub mod InFlight
pub mod Closing
pub mod CanClose
mod Tests
use ml_tt_lang.Prelude.{
  ℕ, ◌+◌, ◌-◌, Bool, true, false, not, Option, none, some, List, [], ◌∷◌, ltb, if◌then◌else◌,
}
use ml_tt_lang.Result.{Result, ok, err, ◌>>=◌, ◌>>◌, guard}
use ml_tt_lang.BlockState.{
  AccessState, mw, mr, rw, ror, naw, os, KernelType, dm, compute, BlockAcquisition, reserve, wait,
  ExpectedOp, push, pop, store, OperationKey, BlockError, Transition, ror_expected, contains,
  is_empty, is_reserve, access_eq, state_transitions, block_finished, not_expected, no_table,
  invalid_transition, push_of_wait, pop_of_reserve, pop_access,
}

pub record BlockStateMachine : Type 0 where
  pub acquisition : BlockAcquisition
  pub kernel_type : KernelType
  pub access_state : AccessState
  pub expected_ops : List ExpectedOp
  pub ror_count : ℕ

-- `__init__`
unfoldable pub init : BlockAcquisition → KernelType → BlockStateMachine
init acquisition kernel_type = record {
  acquisition = acquisition;
  kernel_type = kernel_type;
  access_state = os;
  expected_ops = [];
  ror_count = 0;
}

-- The access state and the operations that `initialize` sets.
first_state : BlockAcquisition → KernelType → Transition
first_state reserve dm = (mw, ExpectedOp.copy_dst ∷ [])
first_state reserve compute = (mw, store ∷ [])
first_state wait dm = (mr, ExpectedOp.copy_src ∷ [])
first_state wait compute = (mr, ExpectedOp.store_src ∷ [])

unfoldable pub initialize : BlockStateMachine → BlockStateMachine
unfolding first_state
initialize s =
    let (access, ops) = first_state s.acquisition s.kernel_type in
    record s { access_state = access; expected_ops = ops }

unfoldable pub set_unrestricted : BlockStateMachine → BlockStateMachine
set_unrestricted s = record s { access_state = rw; expected_ops = [] }

unfoldable pub validate : BlockStateMachine → ExpectedOp → Result BlockError (Unit {0})
validate s op = do
  guard (not (is_empty s.expected_ops)) block_finished
  guard (contains op s.expected_ops) not_expected

-- The end of `transition`: the found row of the table is applied.
apply_row : BlockStateMachine → Option Transition → Result BlockError BlockStateMachine
apply_row s none = err invalid_transition
apply_row s (some (access, ops)) = ok (record s {
  access_state = access;
  ror_count = if access_eq access ror then 1 else s.ror_count;
  expected_ops = ops;
})

-- `transition` once it has validated and is not handled by the count of copies.
table_transition :
    BlockStateMachine
    → Option (OperationKey → AccessState → Option Transition)
    → OperationKey
    → Result BlockError BlockStateMachine
unfolding apply_row
table_transition s none key = err no_table
table_transition s (some context) key = apply_row s (context key s.access_state)

-- The transitions inside ROR; any other key goes to `rest`, the table.
ror_transition :
    BlockStateMachine
    → OperationKey
    → Result BlockError BlockStateMachine
    → Result BlockError BlockStateMachine
ror_transition s OperationKey.copy_src rest =
    ok (record s { ror_count = s.ror_count + 1; expected_ops = ror_expected })
ror_transition s OperationKey.tx_wait rest =
    if ltb 1 s.ror_count
    then ok (record s { ror_count = s.ror_count - 1; expected_ops = ror_expected })
    else rest
ror_transition s _ rest = rest

unfoldable pub transition :
    BlockStateMachine → OperationKey → ExpectedOp → Result BlockError BlockStateMachine
unfolding validate table_transition ror_transition state_transitions
transition s key op = do
  validate s op
  let rest = table_transition s (state_transitions s.acquisition s.kernel_type) key
  if access_eq s.access_state ror then ror_transition s key rest else rest

unfoldable pub transition_push : BlockStateMachine → Result BlockError BlockStateMachine
unfolding validate
transition_push s = do
  validate s push
  guard (is_reserve s.acquisition) push_of_wait
  ok (record s { access_state = os; expected_ops = [] })

unfoldable pub transition_assign_src : BlockStateMachine → Result BlockError BlockStateMachine
unfolding transition
transition_assign_src s = transition s OperationKey.assign_src ExpectedOp.store_src

abbrev is_poppable : AccessState → Bool
is_poppable mr = true
is_poppable rw = true
is_poppable _ = false

unfoldable pub transition_pop : BlockStateMachine → Result BlockError BlockStateMachine
unfolding validate
transition_pop s = do
  validate s pop
  guard (not (is_reserve s.acquisition)) pop_of_reserve
  guard (is_poppable s.access_state) pop_access
  ok (record s { access_state = os; expected_ops = [] })

-- One constructor for each `mark_*` method of `Block`.
pub data Mark : Type 0 where
  copy_as_source copy_as_dest tx_wait_complete assign_src_complete : Mark
  store_read_complete store_complete push_complete pop_complete : Mark

-- What the method does to the block's machine.
unfoldable pub mark : Mark → BlockStateMachine → Result BlockError BlockStateMachine
unfolding transition transition_push transition_assign_src transition_pop
mark copy_as_source s = transition s OperationKey.copy_src ExpectedOp.copy_src
mark copy_as_dest s = transition s OperationKey.copy_dst ExpectedOp.copy_dst
mark tx_wait_complete s = transition s OperationKey.tx_wait ExpectedOp.tx_wait
mark assign_src_complete s = transition_assign_src s
mark store_read_complete s =
    if access_eq s.access_state os
    then ok s
    else transition s OperationKey.store_src ExpectedOp.store_src
mark store_complete s = transition s OperationKey.store_dst store
mark push_complete s = transition_push s
mark pop_complete s = transition_pop s

-- The marks of a block in the order in which they are made.
unfoldable pub run : List Mark → BlockStateMachine → Result BlockError BlockStateMachine
run [] s = ok s
run (m ∷ ms) s = mark m s >>= run ms
