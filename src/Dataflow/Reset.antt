-- ===== src/Dataflow/Reset.antt =====
-- `reset`, and the check at the end of a kernel.
use ml_tt_lang.Prelude.{
  ℕ, ◌≤◌, ◌≡◌, ◌↔◌, refl, arith, not, ◌&&◌, Option, none, some, List, [], ◌∷◌, length-replicate,
}
use ml_tt_lang.Result.{ok, guard}
use ml_tt_lang.DfbState.{reset}
use ml_tt_lang.DfbState.Fifo.{Represents, chan}
use ml_tt_lang.Dataflow.{
  Dataflow, Pending, incomplete, reset_buffer, validate_no_pending_blocks, is_pending, no_ids,
}

module _ {A : Type 0} where
  -- After `reset` the ring is an empty channel, but the blocks that were handed out are still
  -- pending: the check at the end says the same as before.
  pub reset_buffer-pending :
      (d : Dataflow A)
      → 1 ≤ d.state.cap
      → Represents (reset_buffer d).state (chan d.state.cap [] none)
        × (validate_no_pending_blocks (reset_buffer d) ≡ validate_no_pending_blocks d)
  unfolding reset_buffer reset validate_no_pending_blocks
  reset_buffer-pending d h = (
    record {
      size = length-replicate d.state.cap none;
      inside = h;
      capacity = refl;
      visible = refl;
      reserved = refl;
      fits = omega arith;
      slots = refl;
    },
    refl,
  )

  checks :
      (r w : Option (Pending A)) (ids : List ℕ)
      → (guard
            (not (is_pending r) && (not (is_pending w) && no_ids ids))
            (incomplete (is_pending r) (is_pending w) ids)
          ≡ ok tt)
        ↔ ((r ≡ none) × (w ≡ none) × (ids ≡ []))
  checks none none [] = (λ _. (refl, refl, refl), λ _. refl)
  checks none none (i ∷ ids) = (λ e. cc e, λ (_, _, e). cc e)
  checks none (some b) ids = (λ e. cc e, λ (_, e, _). cc e)
  checks (some b) w ids = (λ e. cc e, λ (e, _, _). cc e)

  -- The check at the end of a kernel passes exactly when no block is reserved or waited for, and no
  -- block waits for a store to confirm it.
  pub validate_no_pending_blocks_iff :
      (d : Dataflow A)
      → (validate_no_pending_blocks d ≡ ok tt)
        ↔ ((d.reserved_block ≡ none) × (d.waited_block ≡ none) × (d.pending_confirmations ≡ []))
  unfolding validate_no_pending_blocks
  validate_no_pending_blocks_iff d = checks d.reserved_block d.waited_block d.pending_confirmations
