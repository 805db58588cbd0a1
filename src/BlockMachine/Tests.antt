-- ===== src/BlockMachine/Tests.antt =====
-- Lives of blocks, and the theorems at them.
use ml_tt_lang.Prelude.{◌+◌, ◌≤◌, ◌≡◌, ◌≢◌, ◌⊎◌, refl, some, List, [], ◌∷◌, arith}
use ml_tt_lang.Result.{ok, err}
use ml_tt_lang.BlockState.{
  AccessState, ror, os, dm, compute, reserve, wait, ExpectedOp, BlockError, block_finished,
  not_expected, ror_expected,
}
use ml_tt_lang.BlockMachine.{
  BlockStateMachine, init, initialize, mark, run, copy_as_source, copy_as_dest, tx_wait_complete,
  store_read_complete, push_complete, pop_complete, Mark,
}
use ml_tt_lang.BlockMachine.Protocol.{IsValid, allowed, expected_ops-allowed, mark_user_errors}
use ml_tt_lang.BlockMachine.InFlight.{
  in_flight, starts, completes, total, copies_balance, ror_count_stale,
}
use ml_tt_lang.BlockMachine.Closing.{ClosedLife, closed_life}
use ml_tt_lang.BlockMachine.CanClose.{Closes, can_close, closed_refuses}

-- A producer of data movement copies into its block, waits, and pushes it.
abbrev fill_and_push : List Mark
fill_and_push = copy_as_dest ∷ tx_wait_complete ∷ push_complete ∷ []

-- A consumer of data movement copies its block out to two places, and waits for one of them.
abbrev two_copies : List Mark
two_copies = copy_as_source ∷ copy_as_source ∷ tx_wait_complete ∷ []

abbrev sent : BlockStateMachine
sent = record {
  acquisition = wait;
  kernel_type = dm;
  access_state = ror;
  expected_ops = ror_expected;
  ror_count = 1;
}

abbrev pushed : BlockStateMachine
pushed = record {
  acquisition = reserve;
  kernel_type = dm;
  access_state = os;
  expected_ops = [];
  ror_count = 0;
}

abbrev popped : BlockStateMachine
popped = record {
  acquisition = wait;
  kernel_type = compute;
  access_state = os;
  expected_ops = [];
  ror_count = 0;
}

fill_and_push_runs : run fill_and_push (initialize (init reserve dm)) ≡ ok pushed
unfolding run mark initialize init
fill_and_push_runs = refl

two_copies_runs : run two_copies (initialize (init wait dm)) ≡ ok sent
unfolding run mark initialize init
two_copies_runs = refl

read_and_pop_runs :
    run (store_read_complete ∷ pop_complete ∷ []) (initialize (init wait compute)) ≡ ok popped
unfolding run mark initialize init
read_and_pop_runs = refl

-- A block cannot be pushed before it is written.
push_unwritten : run (push_complete ∷ []) (initialize (init reserve compute)) ≡ err not_expected
unfolding run mark initialize init
push_unwritten = refl

expected_ops-allowed_example :
    (allowed wait dm ror ≡ some ror_expected) × (◌≡◌ {A = AccessState} ror ror → 1 ≤ 1)
expected_ops-allowed_example = expected_ops-allowed wait dm two_copies two_copies_runs

mark_user_errors_example :
    (not_expected ≡ block_finished) ⊎ (◌≡◌ {A = BlockError} not_expected not_expected)
unfolding mark
mark_user_errors_example =
    mark_user_errors wait dm two_copies pop_complete two_copies_runs (λ e. cc) refl

copies_balance_example :
    (in_flight ror 1 + total completes two_copies ≡ total starts two_copies)
    × (◌≡◌ {A = AccessState} ror os → total completes two_copies ≡ total starts two_copies)
copies_balance_example = copies_balance wait dm two_copies two_copies_runs

closed_life_example : ClosedLife reserve fill_and_push
closed_life_example = closed_life reserve dm fill_and_push fill_and_push_runs refl

waited_life : ClosedLife wait (store_read_complete ∷ pop_complete ∷ [])
waited_life =
    closed_life wait compute (store_read_complete ∷ pop_complete ∷ []) read_and_pop_runs refl

can_close_example : Closes sent
can_close_example = can_close wait dm two_copies two_copies_runs

closed_refuses_example :
    (push_complete ≢ store_read_complete → mark push_complete pushed ≡ err block_finished)
    × (mark store_read_complete pushed ≡ ok pushed)
closed_refuses_example =
    closed_refuses reserve dm fill_and_push push_complete fill_and_push_runs refl

sent-IsValid : IsValid sent
sent-IsValid = record { protocol = refl; counted = λ e. omega arith }

received : BlockStateMachine
received = record {
  acquisition = wait;
  kernel_type = dm;
  access_state = AccessState.rw;
  expected_ops = ExpectedOp.copy_dst ∷ ExpectedOp.copy_src ∷ ExpectedOp.pop ∷ [];
  ror_count = 1;
}

ror_count_kept : received.ror_count ≡ 1
unfolding mark received
ror_count_kept = ror_count_stale {s = sent} {t = received} sent-IsValid refl refl (λ e. cc)
