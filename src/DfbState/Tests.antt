-- ===== src/DfbState/Tests.antt =====
-- Runs of the ring, and the refinement at concrete rings.
use ml_tt_lang.Prelude.{ℕ, ◌≡◌, refl, none, some, [], ◌∷◌, arith}
use ml_tt_lang.Result.{ok}
use ml_tt_lang.DfbState.{DfbState, reserve_slot, push_slot, pop_slot, front}
use ml_tt_lang.DfbState.Channel
use ml_tt_lang.DfbState.Fifo.{
  Represents, Agree, chan, reserve_slot-refines, push_slot-refines, front-refines, pop_slot-refines,
}

-- Tensor 8, then tensor 9, round the end of a ring of three slots.
abbrev wrapped : DfbState ℕ
wrapped = record { cap = 3; buf = some 9 ∷ none ∷ some 8 ∷ []; head = 2; visible = 2; reserved = 0 }

abbrev filling : DfbState ℕ
filling = record wrapped { buf = some 9 ∷ some 7 ∷ some 8 ∷ []; reserved = 1 }

wrapped-Represents : Represents wrapped (chan 3 (8 ∷ 9 ∷ []) none)
wrapped-Represents = record {
  size = refl;
  inside = omega arith;
  capacity = refl;
  visible = refl;
  reserved = refl;
  fits = omega arith;
  slots = refl;
}

filling-Represents : Represents filling (chan 3 (8 ∷ 9 ∷ []) (some 7))
filling-Represents = record {
  size = refl;
  inside = omega arith;
  capacity = refl;
  visible = refl;
  reserved = refl;
  fits = omega arith;
  slots = refl;
}

reserve_runs : reserve_slot 7 wrapped ≡ ok (1, filling)
unfolding reserve_slot
reserve_runs = refl

reserve_slot-refines_example :
    Agree
      (λ r c. Represents r.1 c)
      (reserve_slot 7 wrapped)
      (Channel.reserve 7 (chan 3 (8 ∷ 9 ∷ []) none))
reserve_slot-refines_example = reserve_slot-refines 7 wrapped-Represents

push_slot-refines_example :
    Agree Represents (push_slot filling) (Channel.push (chan 3 (8 ∷ 9 ∷ []) (some 7)))
push_slot-refines_example = push_slot-refines (some 7) filling-Represents

oldest_read : front filling ≡ Channel.front (chan 3 (8 ∷ 9 ∷ []) (some 7))
oldest_read = front-refines (8 ∷ 9 ∷ []) filling-Represents

pop_slot-refines_example :
    Agree Represents (pop_slot filling) (Channel.pop (chan 3 (8 ∷ 9 ∷ []) (some 7)))
pop_slot-refines_example = pop_slot-refines (8 ∷ 9 ∷ []) filling-Represents
