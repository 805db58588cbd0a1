-- ===== src/Scheduler.antt =====
-- python/sim/greenlet_scheduler.py, class `GreenletScheduler`: the kernels of all nodes take turns.
-- A kernel's own code runs in a greenlet, and is a parameter: from a world of type `W`, in which the
-- buffers and the program's data stand, it runs to its next blocking operation or its end. `B` is the
-- type of what a kernel waits for: an object and its operation. The texts of the reports are left out,
-- and with them the places of the code where kernels block.
pub mod Order
pub mod Deadlock
pub mod Bookkeeping
pub mod Initialization
pub mod Termination
mod Tests
use ml_tt_lang.Prelude.{
  ℕ, zero, suc, ◌+◌, Bool, true, false, not, ◌&&◌, ◌||◌, Option, none, some, List, [], ◌∷◌, ◌++◌,
  ◌==◌, ltb, if◌then◌else◌, map,
}
use ml_tt_lang.Result.{Result, ok, err, ◌>>=◌, ◌>>◌, guard}
use ml_tt_lang.BlockState.{KernelType, dm, compute}

-- `KernelType.value`
abbrev pub kind_value : KernelType → ℕ
kind_value dm = 1
kind_value compute = 2

-- A function's name is a number here, in the order of the names.
pub record KernelId : Type 0 where
  pub linear_node : ℕ
  pub kind : KernelType
  pub func_name : ℕ

abbrev pub kernel_eq : KernelId → KernelId → Bool
kernel_eq a b =
    a.linear_node == b.linear_node
    && (kind_value a.kind == kind_value b.kind && a.func_name == b.func_name)

-- What ends a run with an exception; `not_scheduled` is the lookup of an entry that is missing.
pub data SchedulerError : Type 0 where
  duplicate_kernel already_blocked kernel_failed not_scheduled out_of_fuel : SchedulerError

-- How a kernel's turn ends. The flag tells whether it called `mark_kernel_progress`.
pub data Turn (B W : Type 0) : Type 0 where
  finished : W → Turn B W
  blocked : B → Bool → W → Turn B W
  failed : Turn B W

-- The dictionaries, in the order in which the keys were entered.
module _ {V : Type 0} where
  unfoldable pub lookup : KernelId → List (KernelId × V) → Option V
  lookup k [] = none
  lookup k ((j, v) ∷ d) = if kernel_eq j k then some v else lookup k d

  unfoldable pub put : KernelId → V → List (KernelId × V) → List (KernelId × V)
  put k v [] = (k, v) ∷ []
  put k v ((j, u) ∷ d) = if kernel_eq j k then (j, v) ∷ d else (j, u) ∷ put k v d

  unfoldable pub remove : KernelId → List (KernelId × V) → List (KernelId × V)
  remove k [] = []
  remove k ((j, u) ∷ d) = if kernel_eq j k then d else (j, u) ∷ remove k d

  abbrev pub keys : List (KernelId × V) → List KernelId
  keys d = map (λ e. e.0) d

abbrev pub or_else : {V : Type 0} → V → Option V → V
or_else v none = v
or_else v (some u) = u

-- An entry of `_active` is what the kernel waits for, if it does.
pub record Scheduler (B : Type 0) : Type 0 where
  pub active : List (KernelId × Option B)
  pub completed : List KernelId
  pub last_run : List (KernelId × ℕ)
  pub timestamp : ℕ
  pub has_made_progress : List (KernelId × Bool)

-- How `run` ends without a kernel's exception: `deadlock` is its own exception.
pub data Ending (B W : Type 0) : Type 0 where
  all_completed deadlock : Scheduler B × W → Ending B W

abbrev pub is_some : {V : Type 0} → Option V → Bool
is_some none = false
is_some (some _) = true

unfoldable pub add_kernel :
    {B : Type 0} → KernelId → Scheduler B → Result SchedulerError (Scheduler B)
add_kernel k s = do
  guard (not (is_some (lookup k s.active))) duplicate_kernel
  ok (record s {
    active = put k none s.active;
    last_run = put k 0 s.last_run;
    has_made_progress = put k false s.has_made_progress;
  })

unfoldable pub mark_completed : {B : Type 0} → KernelId → Scheduler B → Scheduler B
mark_completed k s = record s {
  active = remove k s.active;
  completed = s.completed ++ (k ∷ []);
  last_run = remove k s.last_run;
}

-- `block_current_kernel`, after the calls of `mark_kernel_progress` in the same turn.
unfoldable pub block_kernel : {B : Type 0} → KernelId → B → Bool → Scheduler B → Scheduler B
block_kernel k b progress s = record s {
  active = put k (some b) s.active;
  has_made_progress = if progress then put k true s.has_made_progress else s.has_made_progress;
}

-- A new time stamp, given to a kernel.
unfoldable pub stamp : {B : Type 0} → KernelId → Scheduler B → Scheduler B
stamp k s = record s { timestamp = s.timestamp + 1; last_run = put k (s.timestamp + 1) s.last_run }

-- The key of a kernel in `_get_fair_kernel_order`, compared from left to right.
abbrev pub key_before : ℕ × KernelId → ℕ × KernelId → Bool
key_before (t, a) (u, b) =
    ltb t u
    || (t == u
        && (ltb a.linear_node b.linear_node
            || (a.linear_node == b.linear_node
                && (ltb (kind_value a.kind) (kind_value b.kind)
                    || (kind_value a.kind == kind_value b.kind && ltb a.func_name b.func_name)))))

-- `list.sort`: stable, by insertion from the right end.
pub insert : ℕ × KernelId → List (ℕ × KernelId) → List (ℕ × KernelId)
insert x [] = x ∷ []
insert x (y ∷ ys) = let rest = insert x ys in if key_before y x then y ∷ rest else x ∷ y ∷ ys

pub sort : List (ℕ × KernelId) → List (ℕ × KernelId)
sort [] = []
sort (x ∷ xs) = insert x (sort xs)

unfoldable pub kernel_times : {B : Type 0} → Scheduler B → List (ℕ × KernelId)
kernel_times s = map (λ k. (or_else 0 (lookup k s.last_run), k)) (keys s.active)

unfoldable pub get_fair_kernel_order : {B : Type 0} → Scheduler B → List KernelId
get_fair_kernel_order s = map (λ e. e.1) (sort (kernel_times s))

-- Whether a kernel with this entry gets a turn.
abbrev pub may_run : {B W : Type 0} → (B → W → Bool) → W → Option B → Bool
may_run can w none = true
may_run can w (some b) = can b w

abbrev pub candidates : {B : Type 0} → Bool → Scheduler B → List KernelId
candidates fair s = if fair then get_fair_kernel_order s else keys s.active

abbrev pub is_empty : {V : Type 0} → List V → Bool
is_empty [] = true
is_empty (_ ∷ _) = false

module _ {B W : Type 0} (can : B → W → Bool) (turn : KernelId → W → Turn B W) where
  -- The end of a kernel's wrapped function, and the check of `g.dead` after the switch in the
  -- initialization phase.
  init_turn : KernelId → Turn B W → Scheduler B → Result SchedulerError (Scheduler B × W)
  init_turn k (finished w) s = ok (mark_completed k (mark_completed k s), w)
  init_turn k (blocked b progress w) s = do
    let s' = block_kernel k b progress s
    let made = or_else false (lookup k s'.has_made_progress)
    ok (if made then stamp k s' else s', w)
  init_turn k failed s = err kernel_failed

  -- `_initialization_phase` over the kernels of `ks`.
  unfoldable pub initialization_phase :
      List KernelId → Scheduler B × W → Result SchedulerError (Scheduler B × W)
  unfolding init_turn
  initialization_phase [] (s, w) = ok (s, w)
  initialization_phase (k ∷ ks) (s, w) = do
    entry ← elim (lookup k s.active) [ none ↦ err not_scheduled | some e ↦ ok e ]
    guard (not (is_some entry)) already_blocked
    r ← init_turn k (turn k w) s
    initialization_phase ks r

  -- A turn in the main loop: the switch, the time stamp, and the check of a kernel that ended.
  run_turn : KernelId → Turn B W → Scheduler B → Result SchedulerError (Scheduler B × W)
  run_turn k (finished w) s = ok (stamp k (mark_completed k s), w)
  run_turn k (blocked b progress w) s = ok (stamp k (block_kernel k b progress s), w)
  run_turn k failed s = err kernel_failed

  -- The body of the loop over the candidates: whether there was progress, and the state.
  unfoldable pub try_kernel :
      KernelId → Bool × (Scheduler B × W) → Result SchedulerError (Bool × (Scheduler B × W))
  unfolding run_turn
  try_kernel k (p, (s, w)) = elim (lookup k s.active) [
    | none ↦ ok (p, (s, w))
    | some entry ↦
        if may_run can w entry
        then run_turn k (turn k w) (record s { active = put k none s.active })
          >>= (λ r. ok (true, r))
        else ok (p, (s, w))
  ]

  unfoldable pub try_kernels :
      List KernelId → Bool × (Scheduler B × W) → Result SchedulerError (Bool × (Scheduler B × W))
  try_kernels [] r = ok r
  try_kernels (k ∷ ks) r = try_kernel k r >>= try_kernels ks

  -- The end of a round: `p` tells whether there was progress. A deadlock is raised with the state
  -- that the report reads.
  next_round :
      (Scheduler B × W → Result SchedulerError (Ending B W))
      → Bool × (Scheduler B × W)
      → Result SchedulerError (Ending B W)
  next_round continue (p, r) =
      if not p && not (is_empty r.0.active) then ok (deadlock r) else continue r

  -- The main loop: `n` bounds its rounds.
  unfoldable pub loop : ℕ → Bool → Scheduler B × W → Result SchedulerError (Ending B W)
  unfolding next_round
  loop zero fair r = if is_empty r.0.active then ok (all_completed r) else err out_of_fuel
  loop (suc n) fair r =
      if is_empty r.0.active
      then ok (all_completed r)
      else (try_kernels (candidates fair r.0) (false, r) >>= next_round (loop n fair))

  unfoldable pub run : ℕ → Bool → Scheduler B × W → Result SchedulerError (Ending B W)
  run n fair r = (if fair then initialization_phase (keys r.0.active) r else ok r) >>= loop n fair
