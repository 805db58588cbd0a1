-- ===== src/Dataflow/Fifo.antt =====
-- A session keeps the order: a buffer of one producer and one consumer is a first-in first-out queue.
use ml_tt_lang.Prelude.{ℕ, ◌≡◌, true, Option, none, List, ◌++◌}
use ml_tt_lang.Result.{Result}
use ml_tt_lang.BlockState.{KernelType}
use ml_tt_lang.DfbState.Channel.{to_list}
use ml_tt_lang.Dataflow.{Dataflow}
use ml_tt_lang.Dataflow.Tracks.{Tracks}
use ml_tt_lang.Dataflow.Session.{Session}

module _ {A : Type 0} (p c : ℕ) (producer_kernel consumer_kernel : KernelType) where
  -- Nothing is lost, doubled or reordered: what was sent is what was received, then what the buffer
  -- holds, which is no more than its capacity.
  pub record InOrder (n : ℕ) (s : Session A) : Type 0 where
    pub queue : List A
    pub write : Option A
    pub tracks : Tracks p c s.buffer n queue write
    pub order : s.sent ≡ s.received ++ (queue ++ to_list write)
    pub idle : s.reserving ≡ true → write ≡ none
