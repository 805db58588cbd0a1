-- ===== src/DfbState.antt =====
-- python/sim/dfbstate.py: the ring of a dataflow buffer, with the ring updates that the methods of
-- `DataflowBuffer` (python/sim/dfb.py) make. A slot holds a reference to a tensor of type `A`.
pub mod Window
pub mod Channel
pub mod Fifo
mod Tests
use ml_tt_lang.Prelude.{
  ℕ, zero, suc, ◌+◌, ◌-◌, ◌%◌, Option, none, some, List, [], ◌∷◌, leb, set, replicate,
}
use ml_tt_lang.Result.{Result, ok, err, ◌>>=◌, ◌>>◌, guard}

-- The assertions and the `DFBContractError`s of the ring operations.
pub data DfbError : Type 0 where
  not_visible slot_empty no_free_slot push_without_reserve pop_without_visible : DfbError

-- `buf[i]`; an index out of range, which Python refuses, reads as an empty slot.
abbrev pub slot {ℓ} : {A : Type ℓ} → List (Option A) → ℕ → Option A
slot [] i = none
slot (x ∷ xs) zero = x
slot (x ∷ xs) (suc i) = slot xs i

pub record DfbState {ℓ} (A : Type ℓ) : Type ℓ where
  pub cap : ℕ
  pub buf : List (Option A)
  pub head : ℕ
  pub visible : ℕ
  pub reserved : ℕ

module _ {ℓ} {A : Type ℓ} where
  -- Never negative where it is compared: `leb 1` of the truncated difference is the same test.
  unfoldable pub free : DfbState A → ℕ
  free s = s.cap - s.visible - s.reserved

  unfoldable pub back_slot : DfbState A → ℕ
  back_slot s = (s.head + s.visible) % s.cap

  unfoldable pub reset : DfbState A → DfbState A
  reset s = record s { buf = replicate s.cap none; head = 0; visible = 0; reserved = 0 }

  -- What `DataflowBuffer.reserve` does to the ring: the slot's index, and the ring.
  unfoldable pub reserve_slot : A → DfbState A → Result DfbError (ℕ × DfbState A)
  unfolding free back_slot
  reserve_slot tensor s = do
    guard (leb 1 (free s)) no_free_slot
    ok (
      back_slot s,
      record s { buf = set s.buf (back_slot s) (some tensor); reserved = s.reserved + 1 },
    )

  -- What `push_block` does to the ring.
  unfoldable pub push_slot : DfbState A → Result DfbError (DfbState A)
  push_slot s = do
    guard (leb 1 s.reserved) push_without_reserve
    ok (record s { reserved = s.reserved - 1; visible = s.visible + 1 })

  -- What `wait` reads.
  unfoldable pub front : DfbState A → Result DfbError A
  front s = do
    guard (leb 1 s.visible) not_visible
    elim (slot s.buf s.head) [ none ↦ err slot_empty | some tensor ↦ ok tensor ]

  -- What `pop_block` does to the ring.
  unfoldable pub pop_slot : DfbState A → Result DfbError (DfbState A)
  pop_slot s = do
    guard (leb 1 s.visible) pop_without_visible
    ok (record s {
      buf = set s.buf s.head none;
      head = (s.head + 1) % s.cap;
      visible = s.visible - 1;
    })

-- The ring that `DataflowBuffer.__init__` makes of a block count.
unfoldable pub init {ℓ} : (A : Type ℓ) → ℕ → DfbState A
unfolding reset
init A block_count =
    reset (record { cap = block_count; buf = []; head = 0; visible = 0; reserved = 0 })
