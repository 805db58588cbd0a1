-- ===== src/Dataflow/Sharing.antt =====
-- A buffer with two producers: the second does not get a slot of its own.
use ml_tt_lang.Prelude.{ℕ, ◌+◌, ◌≡◌, ◌≢◌, refl, sym, ap, ◌∙◌, false, some, ne→==, set, leb}
use ml_tt_lang.Result.{ok, >>=-eq-ok, guard-ok}
use ml_tt_lang.BlockState.{KernelType, BlockAcquisition}
use ml_tt_lang.DfbState.{DfbState, no_free_slot, free, back_slot, reserve_slot}
use ml_tt_lang.Dataflow.{
  Dataflow, of_ring, hand_out, reserve_begin, reserve_end, auto_push_block, is_own,
}
use ml_tt_lang.Dataflow.Tracks.{ok-eq, of_ring-eq}

module _ {A : Type 0} where
  -- What a reservation that returns did to the ring.
  reserve_slot-eq :
      (a : A) (s : DfbState A) {i : ℕ} {s' : DfbState A}
      → reserve_slot a s ≡ ok (i, s')
      → s' ≡ record s { buf = set s.buf (back_slot s) (some a); reserved = s.reserved + 1 }
  unfolding reserve_slot
  reserve_slot-eq a s h = let (_, e) = guard-ok (leb 1 (free s)) no_free_slot _ h in cc e

  reserve_end-eq :
      (g : ℕ) (kernel : KernelType) (a : A) (d : Dataflow A) {d' : Dataflow A}
      → reserve_end g kernel a d ≡ ok d'
      → (d'.state ≡ record d.state {
        buf = set d.state.buf (back_slot d.state) (some a);
        reserved = d.state.reserved + 1;
      })
        × (d'.reserved_block ≡ some (hand_out g BlockAcquisition.reserve kernel a))
  unfolding reserve_end
  reserve_end-eq g kernel a d h =
      let ((i, s), h₁, h₂) = >>=-eq-ok (of_ring (reserve_slot a d.state)) _ h in
      let same = ok-eq h₂ in
      (
        sym (ap (λ (z : Dataflow A). z.state) same)
            ∙ reserve_slot-eq a d.state (of_ring-eq (reserve_slot a d.state) h₁),
        sym (ap (λ (z : Dataflow A). z.reserved_block) same),
      )

  -- While a producer has not pushed its block, another one's `reserve` leaves the block pending,
  -- and then writes its own tensor in the slot of that block, so the first tensor is lost.
  pub reserve-shared :
      (p g : ℕ) (kernel kernel' : KernelType) (a b : A) (d d₁ d₂ : Dataflow A)
      → p ≢ g
      → reserve_end p kernel a d ≡ ok d₁
      → reserve_end g kernel' b d₁ ≡ ok d₂
      → (reserve_begin g d₁ ≡ ok d₁)
        × (d₁.state.buf ≡ set d.state.buf (back_slot d.state) (some a))
        × (d₂.state.buf ≡ set d₁.state.buf (back_slot d.state) (some b))
  unfolding reserve_begin auto_push_block back_slot
  reserve-shared p g kernel kernel' a b d d₁ d₂ apart h₁ h₂ =
      let (s₁, r₁) = reserve_end-eq p kernel a d h₁ in
      let (s₂, _) = reserve_end-eq g kernel' b d₁ h₂ in
      let other : is_own g d₁.reserved_block ≡ false = ap (is_own g) r₁ ∙ ne→== p g apart in
      (
        rw other refl,
        ap (λ (z : DfbState A). z.buf) s₁,
        ap (λ (z : DfbState A). z.buf) s₂
            ∙ ap (λ (z : DfbState A). set d₁.state.buf (back_slot z) (some b)) s₁,
      )
