-- ===== src/BlockMachine/Closing.antt =====
-- A block's life: how it begins, how it can always be ended, and what its end tells.
use ml_tt_lang.Prelude.{ℕ, ◌+◌, ◌*◌, ◌≤◌, ◌≡◌, List, [], ◌∷◌, arith}
use ml_tt_lang.Result.{ok, >>=-eq-ok}
use ml_tt_lang.BlockState.{
  AccessState, mw, mr, naw, os, KernelType, BlockAcquisition, reserve, wait,
}
use ml_tt_lang.BlockMachine.{
  BlockStateMachine, init, initialize, Mark, copy_as_source, copy_as_dest, assign_src_complete,
  store_read_complete, store_complete, push_complete, pop_complete, mark, run,
}
use ml_tt_lang.BlockMachine.Protocol.{IsValid, initialize-IsValid, mark-IsValid, mark-role}
use ml_tt_lang.BlockMachine.InFlight.{total}

abbrev pub writes : Mark → ℕ
writes copy_as_dest = 1
writes store_complete = 1
writes _ = 0

abbrev pub reads : Mark → ℕ
reads copy_as_source = 1
reads assign_src_complete = 1
reads store_read_complete = 1
reads _ = 0

abbrev pub pushes : Mark → ℕ
pushes push_complete = 1
pushes _ = 0

abbrev pub pops : Mark → ℕ
pops pop_complete = 1
pops _ = 0

-- 1 while the block is in use.
abbrev pub live : AccessState → ℕ
live os = 0
live _ = 1

abbrev pushable : BlockAcquisition → ℕ
pushable reserve = 1
pushable wait = 0

-- A reserved block that is not written, a waited block that is not read since it was filled.
abbrev untouched : BlockAcquisition → AccessState → ℕ
untouched reserve mw = 1
untouched wait mr = 1
untouched wait naw = 1
untouched _ _ = 0

abbrev touches : BlockAcquisition → Mark → ℕ
touches reserve m = writes m
touches wait m = reads m

mark-live :
    (m : Mark) {s t : BlockStateMachine}
    → IsValid s
    → mark m s ≡ ok t
    → (live t.access_state + pushes m + pops m ≡ live s.access_state)
      × (pushes m ≤ pushable s.acquisition)
      × (pops m + pushable s.acquisition ≤ 1)
      × (untouched s.acquisition s.access_state
          ≤ untouched s.acquisition t.access_state + touches s.acquisition m)
unfolding mark
mark-live copy_as_source v h = ground arith
mark-live _ v h = ground arith

run-live :
    (ms : List Mark) (s : BlockStateMachine) {t : BlockStateMachine}
    → IsValid s
    → run ms s ≡ ok t
    → (live t.access_state + total pushes ms + total pops ms ≡ live s.access_state)
      × (total pushes ms ≤ pushable s.acquisition * total pushes ms)
      × (total pops ms * pushable s.acquisition ≡ 0)
      × (untouched s.acquisition s.access_state
          ≤ untouched s.acquisition t.access_state + total (touches s.acquisition) ms)
unfolding run
run-live [] s v h = ground arith
run-live (m ∷ ms) s v h =
    let (u, hu, ht) = >>=-eq-ok (mark m s) (run ms) h in
    ground (arith, mark-live m v hu, (mark-role m s hu).0, run-live ms u (mark-IsValid m v hu) ht)

-- A reserved block.
closed_reserve :
    (k : KernelType) (ms : List Mark) {t : BlockStateMachine}
    → run ms (initialize (init reserve k)) ≡ ok t
    → t.access_state ≡ os
    → (1 ≤ total writes ms) × (total pushes ms ≡ 1) × (total pops ms ≡ 0)
unfolding initialize init
closed_reserve k ms h e =
    ground (arith, run-live ms (initialize (init reserve k)) (initialize-IsValid reserve k) h)

-- A waited block.
closed_wait :
    (k : KernelType) (ms : List Mark) {t : BlockStateMachine}
    → run ms (initialize (init wait k)) ≡ ok t
    → t.access_state ≡ os
    → (1 ≤ total reads ms) × (total pops ms ≡ 1) × (total pushes ms ≡ 0)
unfolding initialize init
closed_wait k ms h e =
    ground (arith, run-live ms (initialize (init wait k)) (initialize-IsValid wait k) h)

-- What a block's marks make up when it has left its life.
abbrev pub ClosedLife : BlockAcquisition → List Mark → Type 0
ClosedLife reserve ms = (1 ≤ total writes ms) × (total pushes ms ≡ 1) × (total pops ms ≡ 0)
ClosedLife wait ms = (1 ≤ total reads ms) × (total pops ms ≡ 1) × (total pushes ms ≡ 0)

-- A reserved block that has left its life was written, pushed exactly once, and never popped; a waited
-- block that has left its life was read, popped exactly once, and never pushed.
pub closed_life :
    (a : BlockAcquisition) (k : KernelType) (ms : List Mark) {t : BlockStateMachine}
    → run ms (initialize (init a k)) ≡ ok t
    → t.access_state ≡ os
    → ClosedLife a ms
closed_life reserve k ms h e = closed_reserve k ms h e
closed_life wait k ms h e = closed_wait k ms h e
