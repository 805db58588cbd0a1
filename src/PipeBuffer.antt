-- ===== src/PipeBuffer.antt =====
-- python/sim/copyhandlers.py: the messages of a pipe, on their way from one sender to its receivers.
-- A message's data is of any type `A`; the shape that a receiving block must have is checked by the
-- given test. Each receiver takes each message once.
pub mod Delivery
pub mod Traffic
mod Tests
use ml_tt_lang.Prelude.{
  ℕ, ◌+◌, ◌-◌, Bool, true, false, not, ◌||◌, Option, none, some, List, [], ◌∷◌, ◌++◌, ◌==◌,
  if◌then◌else◌,
}
use ml_tt_lang.Result.{Result, ok, err, ◌>>=◌}
use ml_tt_lang.Block.{member, add}

-- An entry of the queue: the data, the receivers that are left, `msg_id`, and the nodes that have it.
pub record Message (A : Type 0) : Type 0 where
  pub message_data : A
  pub remaining : ℕ
  pub msg_id : ℕ
  pub received : List ℕ

-- `PipeEntry`
pub record PipeEntry (A : Type 0) : Type 0 where
  pub queue : List (Message A)
  pub next_msg_id : ℕ

pub data PipeBufferError : Type 0 where
  wrong_shape nothing_to_receive : PipeBufferError

module _ {A : Type 0} where
  -- `_get_or_create_pipe_entry`
  unfoldable pub get_or_create : Option (PipeEntry A) → PipeEntry A
  get_or_create none = record { queue = []; next_msg_id = 0 }
  get_or_create (some entry) = entry

  -- `BlockToPipeHandler.transfer`
  unfoldable pub send : A → ℕ → Option (PipeEntry A) → PipeEntry A
  unfolding get_or_create
  send a num_receivers found =
      let entry = get_or_create found in
      record {
        queue =
            entry.queue
            ++ (record {
              message_data = a;
              remaining = num_receivers;
              msg_id = entry.next_msg_id;
              received = [];
            }
                ∷ []);
        next_msg_id = entry.next_msg_id + 1;
      }

  abbrev pub has_unreceived : ℕ → List (Message A) → Bool
  has_unreceived node [] = false
  has_unreceived node (m ∷ queue) = not (member node m.received) || has_unreceived node queue

  -- `PipeToBlockHandler.can_wait` in a kernel of the node.
  unfoldable pub can_receive : ℕ → Option (PipeEntry A) → Bool
  can_receive node none = false
  can_receive node (some entry) = has_unreceived node entry.queue

  -- A message that the node has taken: it goes when the count of those left was 1, and otherwise
  -- stays with one fewer.
  unfoldable pub settle : ℕ → Message A → List (Message A) → List (Message A)
  settle node m queue =
      if m.remaining == 1
      then queue
      else record m { remaining = m.remaining - 1; received = add node m.received } ∷ queue

  -- The loop of `PipeToBlockHandler.transfer`: the data for the block, and the queue.
  unfoldable pub take_first :
      (A → Bool) → ℕ → List (Message A) → Result PipeBufferError (A × List (Message A))
  take_first fits node [] = err nothing_to_receive
  take_first fits node (m ∷ queue) =
      let rest = take_first fits node queue >>= (λ r. ok (r.0, m ∷ r.1)) in
      if member node m.received
      then rest
      else if fits m.message_data
      then ok (m.message_data, settle node m queue)
      else err wrong_shape

  -- `PipeToBlockHandler.transfer` in a kernel of the node.
  unfoldable pub receive :
      (A → Bool) → ℕ → Option (PipeEntry A) → Result PipeBufferError (A × PipeEntry A)
  unfolding get_or_create
  receive fits node found = do
    let entry = get_or_create found
    r ← take_first fits node entry.queue
    ok (r.0, record entry { queue = r.1 })
