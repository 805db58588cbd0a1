-- ===== src/Scheduler/Tests.antt =====
-- A program of two kernels: a consumer, which waits for a token, and a producer, which makes one.
use mathlib.Core.List.{Perm}
use ml_tt_lang.Prelude.{
  ℕ, zero, suc, ◌≡◌, ◌≢◌, refl, Bool, true, false, none, some, [], ◌∷◌, map, leb, arith,
}
use ml_tt_lang.Result.{Result, ok, err}
use ml_tt_lang.BlockState.{dm, compute}
use ml_tt_lang.Scheduler.{
  initialization_phase, KernelId, Scheduler, SchedulerError, Turn, finished, blocked, failed,
  out_of_fuel, deadlock, all_completed, loop, try_kernels, try_kernel, lookup, put, remove,
  next_round, stamp, mark_completed, block_kernel, get_fair_kernel_order, keys,
}
use ml_tt_lang.Scheduler.Order.{Ascending, last_run_of, get_fair_kernel_order-fair}
use ml_tt_lang.Scheduler.Deadlock.{IsDeadlock, loop-ends}
use ml_tt_lang.Scheduler.Bookkeeping.{accounted, loop-accounted}
use ml_tt_lang.Scheduler.Initialization.{KeysOnce, Initialized, initialization_phase-Initialized}
use ml_tt_lang.Scheduler.Termination.{LeavesLess, loop-terminates}

abbrev consumer : KernelId
consumer = record { linear_node = 0; kind = compute; func_name = 1 }

abbrev producer : KernelId
producer = record { linear_node = 0; kind = dm; func_name = 0 }

-- A world: the tokens, and the turns that are left.
abbrev consume : ℕ → ℕ → Turn ℕ (ℕ × ℕ)
consume zero n = blocked 1 true (0, n)
consume (suc t) n = finished (t, n)

abbrev take_turn : KernelId → ℕ × ℕ → Turn ℕ (ℕ × ℕ)
take_turn k (t, zero) = failed
take_turn k (t, suc n) = elim k.func_name [ zero ↦ finished (suc t, n) | suc _ ↦ consume t n ]

abbrev can_take : ℕ → ℕ × ℕ → Bool
can_take b w = leb b w.0

abbrev left : ℕ × ℕ → ℕ
left w = w.1

consume-lowers : (t n : ℕ) → LeavesLess left (suc n) (consume t n)
consume-lowers zero n = omega arith
consume-lowers (suc t) n = omega arith

choice-lowers :
    (f t n : ℕ)
    → LeavesLess left (suc n) (elim f [ zero ↦ finished (suc t, n) | suc _ ↦ consume t n ])
choice-lowers zero t n = omega arith
choice-lowers (suc f) t n = consume-lowers t n

take_turn-lowers : (k : KernelId) (w : ℕ × ℕ) → LeavesLess left (left w) (take_turn k w)
take_turn-lowers k (t, zero) = tt
take_turn-lowers k (t, suc n) = choice-lowers k.func_name t n

abbrev both : Scheduler ℕ
both = record {
  active = (consumer, none) ∷ (producer, none) ∷ [];
  completed = [];
  last_run = (consumer, 2) ∷ (producer, 1) ∷ [];
  timestamp = 2;
  has_made_progress = [];
}

abbrev alone : Scheduler ℕ
alone = record both { active = (consumer, none) ∷ [] }

abbrev dead : Scheduler ℕ × (ℕ × ℕ)
dead = (
  record both {
    active = (consumer, some 1) ∷ [];
    last_run = (consumer, 3) ∷ (producer, 1) ∷ [];
    timestamp = 3;
    has_made_progress = (consumer, true) ∷ [];
  },
  (0, 4),
)

loop-ends_example :
    (loop can_take take_turn 2 false (alone, (0, 5)) ≡ ok (deadlock dead)
      → IsDeadlock can_take take_turn dead)
    × (loop can_take take_turn 2 false (alone, (0, 5)) ≡ ok (all_completed dead)
        → dead.0.active ≡ [])
loop-ends_example = loop-ends can_take take_turn 2 false (alone, (0, 5))

-- The hypothesis of the first part is met.
loop-alone : loop can_take take_turn 2 false (alone, (0, 5)) ≡ ok (deadlock dead)
unfolding loop try_kernels try_kernel lookup put stamp block_kernel next_round
loop-alone = refl

abbrev done : Scheduler ℕ × (ℕ × ℕ)
done = (
  record both {
    active = [];
    completed = producer ∷ consumer ∷ [];
    last_run = (producer, 4) ∷ (consumer, 5) ∷ [];
    timestamp = 5;
    has_made_progress = (consumer, true) ∷ [];
  },
  (0, 2),
)

loop-both : loop can_take take_turn 3 false (both, (0, 5)) ≡ ok (all_completed done)
unfolding loop try_kernels try_kernel lookup put stamp block_kernel mark_completed remove next_round
loop-both = refl

loop-accounted_example : Perm (accounted done.0) (accounted both)
loop-accounted_example =
    loop-accounted can_take take_turn 3 false (both, (0, 5)) {x = all_completed done} loop-both

loop-terminates_example : loop can_take take_turn 6 true (both, (0, 5)) ≢ err out_of_fuel
loop-terminates_example =
    loop-terminates can_take take_turn left take_turn-lowers 6 true (both, (0, 5)) (omega arith)

get_fair_kernel_order-fair_example :
    Perm (get_fair_kernel_order both) (keys both.active)
    × Ascending (map (last_run_of both) (get_fair_kernel_order both))
get_fair_kernel_order-fair_example = get_fair_kernel_order-fair both

abbrev state_of : Result SchedulerError (Scheduler ℕ × (ℕ × ℕ)) → Scheduler ℕ × (ℕ × ℕ)
state_of (ok r) = r
state_of (err e) = (both, (0, 5))

-- The producer ends in its first turn, and the consumer waits.
abbrev initialized : Scheduler ℕ × (ℕ × ℕ)
initialized = state_of (initialization_phase can_take take_turn (producer ∷ []) (both, (0, 5)))

initialization_phase-both :
    initialization_phase can_take take_turn (producer ∷ []) (both, (0, 5)) ≡ ok initialized
unfolding initialization_phase lookup mark_completed
initialization_phase-both = refl

both-KeysOnce : KeysOnce both.active
unfolding lookup
both-KeysOnce = (refl, (refl, tt))

initialization_phase-Initialized_example : Initialized both initialized.0
initialization_phase-Initialized_example =
    initialization_phase-Initialized can_take take_turn (producer ∷ []) (both, (0, 5)) both-KeysOnce
      initialization_phase-both
