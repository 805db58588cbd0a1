-- ===== src/BlockMachine/InFlight.antt =====
-- The count of copies in flight on a block.
use ml_tt_lang.Prelude.{ℕ, ◌+◌, ◌≡◌, ◌≢◌, List, [], ◌∷◌, arith}
use ml_tt_lang.Result.{ok, >>=-eq-ok}
use ml_tt_lang.BlockState.{AccessState, ror, naw, os, KernelType, BlockAcquisition}
use ml_tt_lang.BlockMachine.{
  BlockStateMachine, init, initialize, Mark, copy_as_source, copy_as_dest, tx_wait_complete, mark,
  run,
}
use ml_tt_lang.BlockMachine.Protocol.{IsValid, initialize-IsValid, mark-IsValid}

-- How many copies the machine takes to be in flight.
abbrev pub in_flight : AccessState → ℕ → ℕ
in_flight ror n = n
in_flight naw _ = 1
in_flight _ _ = 0

-- The copies that a mark starts, and the copies that it completes.
abbrev pub starts : Mark → ℕ
starts copy_as_source = 1
starts copy_as_dest = 1
starts _ = 0

abbrev pub completes : Mark → ℕ
completes tx_wait_complete = 1
completes _ = 0

abbrev pub total : (Mark → ℕ) → List Mark → ℕ
total f [] = 0
total f (m ∷ ms) = f m + total f ms

pub mark-in_flight :
    (m : Mark) {s t : BlockStateMachine}
    → IsValid s
    → mark m s ≡ ok t
    → in_flight t.access_state t.ror_count + completes m
      ≡ in_flight s.access_state s.ror_count + starts m
unfolding mark
mark-in_flight copy_as_source v h = ground arith
mark-in_flight _ v h = ground arith

run-in_flight :
    (ms : List Mark) {s t : BlockStateMachine}
    → IsValid s
    → run ms s ≡ ok t
    → in_flight t.access_state t.ror_count + total completes ms
      ≡ in_flight s.access_state s.ror_count + total starts ms
unfolding run
run-in_flight [] v h = ground arith
run-in_flight (m ∷ ms) {s} v h =
    let (u, hu, ht) = >>=-eq-ok (mark m s) (run ms) h in
    omega (arith, mark-in_flight m v hu, run-in_flight ms (mark-IsValid m v hu) ht)

-- After any successful marks of an initialized block, the copies started are the copies waited for
-- and those that the machine holds in flight: `ror_count` in ROR, one in NAW, none elsewhere. So a
-- block that was pushed or popped has no copy left that was not waited for.
pub copies_balance :
    (a : BlockAcquisition) (k : KernelType) (ms : List Mark) {t : BlockStateMachine}
    → run ms (initialize (init a k)) ≡ ok t
    → (in_flight t.access_state t.ror_count + total completes ms ≡ total starts ms)
      × (t.access_state ≡ os → total completes ms ≡ total starts ms)
unfolding initialize init
copies_balance a k ms h = ground (arith, run-in_flight ms (initialize-IsValid a k) h)

-- The count is not reset when the last copy completes: on leaving ROR it is 1.
pub ror_count_stale :
    {s t : BlockStateMachine}
    → IsValid s
    → s.access_state ≡ ror
    → mark tx_wait_complete s ≡ ok t
    → t.access_state ≢ ror
    → t.ror_count ≡ 1
unfolding mark
ror_count_stale v r h l = ground arith
