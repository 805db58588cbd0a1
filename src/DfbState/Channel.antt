-- ===== src/DfbState/Channel.antt =====
-- What a dataflow buffer promises: a bounded first-in first-out channel with at most one item being
-- written.
use ml_tt_lang.Prelude.{ℕ, Option, none, some, List, [], ◌∷◌, ◌++◌, length, ltb, if◌then◌else◌}
use ml_tt_lang.Result.{Result, ok, err}
use ml_tt_lang.DfbState.{
  DfbError, not_visible, no_free_slot, push_without_reserve, pop_without_visible,
}

pub record Channel {ℓ} (A : Type ℓ) : Type ℓ where
  pub capacity : ℕ
  pub queue : List A
  pub writing : Option A

abbrev pub to_list {ℓ} : {A : Type ℓ} → Option A → List A
to_list none = []
to_list (some a) = a ∷ []

module _ {ℓ} {A : Type ℓ} where
  abbrev pub items : Channel A → List A
  items c = c.queue ++ to_list c.writing

  unfoldable pub reserve : A → Channel A → Result DfbError (Channel A)
  reserve a c =
      if ltb (length (items c)) c.capacity
      then ok (record c { writing = some a })
      else err no_free_slot

  finish_write : Channel A → Option A → Result DfbError (Channel A)
  finish_write c none = err push_without_reserve
  finish_write c (some a) = ok (record c { queue = c.queue ++ (a ∷ []); writing = none })

  unfoldable pub push : Channel A → Result DfbError (Channel A)
  unfolding finish_write
  push c = finish_write c c.writing

  first : List A → Result DfbError A
  first [] = err not_visible
  first (a ∷ q) = ok a

  unfoldable pub front : Channel A → Result DfbError A
  unfolding first
  front c = first c.queue

  rest : Channel A → List A → Result DfbError (Channel A)
  rest c [] = err pop_without_visible
  rest c (a ∷ q) = ok (record c { queue = q })

  unfoldable pub pop : Channel A → Result DfbError (Channel A)
  unfolding rest
  pop c = rest c c.queue
