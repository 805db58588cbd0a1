-- ===== src/PipeBuffer/Tests.antt =====
-- One pipe with the receivers 1 and 2, at concrete traffic.
use ml_tt_lang.Prelude.{ℕ, ◌≡◌, refl, Bool, true, not, some, List, [], ◌∷◌, ◌++◌, arith}
use ml_tt_lang.Result.{ok}
use ml_tt_lang.PipeBuffer.{can_receive, settle, take_first, receive, send, get_or_create}
use ml_tt_lang.PipeBuffer.Traffic.{
  Event, sends, receives, Traffic, no_traffic, is_empty, event, flow, flow-got, flow-receive,
}

abbrev both : List ℕ
both = 1 ∷ 2 ∷ []

abbrev any_block : ℕ → Bool
any_block a = true

-- Node 2 takes both messages, node 1 only the first.
abbrev three_events : List (Event ℕ)
three_events = sends 40 ∷ receives 2 ∷ sends 50 ∷ receives 1 ∷ receives 2 ∷ []

abbrev after_events : Traffic ℕ
after_events = record {
  entry = some (record {
    queue = record { message_data = 50; remaining = 1; msg_id = 1; received = 2 ∷ [] } ∷ [];
    next_msg_id = 2;
  });
  sent = 40 ∷ 50 ∷ [];
  got = 40 ∷ [];
}

flow-events : flow both any_block 1 three_events no_traffic ≡ ok after_events
unfolding flow event receive take_first settle send get_or_create
flow-events = refl

flow-got_example :
    (rest : List ℕ) × (after_events.sent ≡ after_events.got ++ rest)
    × (can_receive 1 after_events.entry ≡ not (is_empty rest))
flow-got_example =
    flow-got both (refl, (refl, tt)) any_block 1 three_events (omega arith) refl flow-events

can_receive-after : can_receive 1 after_events.entry ≡ true
unfolding can_receive
can_receive-after = refl

flow-receive_example :
    (a : ℕ) × (t' : Traffic ℕ) × (event both any_block 1 (receives 1) after_events ≡ ok t')
    × (t'.got ≡ after_events.got ++ (a ∷ []))
flow-receive_example =
    flow-receive both (refl, (refl, tt)) any_block 1 three_events (omega arith) refl (λ a. refl)
      flow-events can_receive-after
