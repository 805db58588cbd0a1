-- ===== src/Dataflow/Session.antt =====
-- A producer and a consumer at one buffer, their calls interleaved in any order.
use ml_tt_lang.Prelude.{ℕ, Bool, true, false, not, Option, none, some, List, [], ◌∷◌, ◌++◌}
use ml_tt_lang.Result.{Result, ok, err, ◌>>=◌, ◌>>◌, guard}
use ml_tt_lang.BlockState.{KernelType}
use ml_tt_lang.BlockMachine.{Mark}
use ml_tt_lang.Dataflow.{
  Dataflow, Pending, DataflowError, reserve_begin, reserve_end, wait_begin, wait_end, mark_pending,
  push_block, pop_block, is_pending,
}
use ml_tt_lang.Dataflow.Consumer.{held}

-- What the two greenlets do next: each call of `reserve` and of `wait` is in two parts, between which
-- the other greenlet may run, and in between and afterwards they use their blocks, and push and pop
-- them.
pub data Event (A : Type 0) : Type 0 where
  reserve_called push_called wait_called wait_returned pop_called : Event A
  reserve_returned : A → Event A
  producer_marks consumer_marks : Mark → Event A

-- The buffer, whether each greenlet is inside its call, and what was handed out to be written and
-- given back by the consumer so far.
pub record Session (A : Type 0) : Type 0 where
  pub buffer : Dataflow A
  pub reserving : Bool
  pub waiting : Bool
  pub sent : List A
  pub received : List A

pub data SessionError : Type 0 where
  out_of_order : SessionError
  raised : DataflowError → SessionError

abbrev pub lift {ℓ} : {B : Type ℓ} → Result DataflowError B → Result SessionError B
lift (err e) = err (raised e)
lift (ok b) = ok b

abbrev pub mark_held :
    {A : Type 0} → Mark → Option (Pending A) → Result DataflowError (Option (Pending A))
mark_held m none = ok none
mark_held m (some b) = mark_pending m b >>= (λ b'. ok (some b'))

abbrev pub open_session : {A : Type 0} → Dataflow A → Session A
open_session d = record { buffer = d; reserving = false; waiting = false; sent = []; received = [] }

module _ {A : Type 0} (p c : ℕ) (producer_kernel consumer_kernel : KernelType) where
  -- A call that the greenlet cannot make, being inside another, is out of order, and so is a pop
  -- without a block that was waited for.
  unfoldable pub step : Event A → Session A → Result SessionError (Session A)
  step reserve_called s = do
    guard (not s.reserving) out_of_order
    d ← lift (reserve_begin p s.buffer)
    ok (record s { buffer = d; reserving = true })
  step (reserve_returned a) s = do
    guard s.reserving out_of_order
    d ← lift (reserve_end p producer_kernel a s.buffer)
    ok (record s { buffer = d; reserving = false; sent = s.sent ++ (a ∷ []) })
  step wait_called s = do
    guard (not s.waiting) out_of_order
    d ← lift (wait_begin c s.buffer)
    ok (record s {
      buffer = d;
      waiting = true;
      received = s.received ++ held s.buffer.waited_block;
    })
  step wait_returned s = do
    guard s.waiting out_of_order
    d ← lift (wait_end c consumer_kernel s.buffer)
    ok (record s { buffer = d; waiting = false })
  step push_called s = do
    guard (not s.reserving) out_of_order
    d ← lift (push_block s.buffer)
    ok (record s { buffer = d })
  step pop_called s = do
    guard (not s.waiting) out_of_order
    guard (is_pending s.buffer.waited_block) out_of_order
    d ← lift (pop_block s.buffer)
    ok (record s { buffer = d; received = s.received ++ held s.buffer.waited_block })
  step (producer_marks m) s = do
    b ← lift (mark_held m s.buffer.reserved_block)
    ok (record s { buffer = record s.buffer { reserved_block = b } })
  step (consumer_marks m) s = do
    b ← lift (mark_held m s.buffer.waited_block)
    ok (record s { buffer = record s.buffer { waited_block = b } })

  unfoldable pub play : List (Event A) → Session A → Result SessionError (Session A)
  play [] s = ok s
  play (e ∷ es) s = step e s >>= play es
