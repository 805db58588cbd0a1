-- ===== src/DfbState/Window.antt =====
-- The slots of the ring in the order in which they are consumed.
use native.Mathlib.Nat.{mod-add-mod, mod-eq_of_lt, mod-eq-sub-mod, add-zero}
use native.Mathlib.Decide.{dec_lt}
use mathlib.Core.Path.{subst}
use ml_tt_lang.Prelude.{
  ℕ, zero, suc, ◌+◌, ◌-◌, ◌%◌, ◌≤◌, ◌<◌, ◌≡◌, ◌≢◌, refl, sym, ap, ◌∙◌, Option, none, some, List, [],
  ◌∷◌, ◌++◌, arith, length, set,
}
use ml_tt_lang.DfbState.{slot}

-- Two offsets less than a round apart name different slots.
mod-ne : (cap h i j : ℕ) → h < cap → i < j → j < i + cap → j ≤ cap → (h + i) % cap ≢ (h + j) % cap
mod-ne cap h i j hh lt round top = elim (dec_lt (h + i) cap) [
  | yes p ↦ elim (dec_lt (h + j) cap) [
    | yes q ↦ omega (arith, mod-eq_of_lt p, mod-eq_of_lt q)
    | no q ↦ omega (
      arith,
      mod-eq_of_lt p,
      mod-eq-sub-mod {n = h + j} {m = cap} (omega arith),
      mod-eq_of_lt {n = h + j - cap} {m = cap} (omega arith),
    )
  ]
  | no p ↦ omega (
    arith,
    mod-eq-sub-mod {n = h + i} {m = cap} (omega arith),
    mod-eq_of_lt {n = h + i - cap} {m = cap} (omega arith),
    mod-eq-sub-mod {n = h + j} {m = cap} (omega arith),
    mod-eq_of_lt {n = h + j - cap} {m = cap} (omega arith),
  )
]

module _ {ℓ} {A : Type ℓ} where
  slot-set_self :
      (xs : List (Option A)) (i : ℕ) (o : Option A) → i < length xs → slot (set xs i o) i ≡ o
  slot-set_self [] i o h = elim h [ ]
  slot-set_self (x ∷ xs) zero o h = refl
  slot-set_self (x ∷ xs) (suc i) o h = slot-set_self xs i o (omega arith)

  slot-set_ne :
      (xs : List (Option A)) (i j : ℕ) (o : Option A) → i ≢ j → slot (set xs i o) j ≡ slot xs j
  slot-set_ne [] i j o h = refl
  slot-set_ne (x ∷ xs) zero zero o h = absurd (h refl)
  slot-set_ne (x ∷ xs) zero (suc j) o h = refl
  slot-set_ne (x ∷ xs) (suc i) zero o h = refl
  slot-set_ne (x ∷ xs) (suc i) (suc j) o h = slot-set_ne xs i j o (λ e. h (ap suc e))

module _ {ℓ} {A : Type ℓ} (cap : ℕ) where
  -- The `n` slots that stand `k`, `k + 1`, … steps behind `h`, going round at `cap`.
  abbrev pub window : List (Option A) → ℕ → ℕ → ℕ → List (Option A)
  window buf h k zero = []
  window buf h k (suc n) = slot buf ((h + k) % cap) ∷ window buf h (suc k) n

  window-snoc :
      (buf : List (Option A)) (h k n : ℕ)
      → window buf h k (suc n) ≡ window buf h k n ++ (slot buf ((h + (k + n)) % cap) ∷ [])
  window-snoc buf h k zero = ap (λ (t : ℕ). slot buf ((h + t) % cap) ∷ []) (omega arith)
  window-snoc buf h k (suc n) =
      ap (λ xs. slot buf ((h + k) % cap) ∷ xs)
        (window-snoc buf h (suc k) n
          ∙ ap (λ (t : ℕ). window buf h (suc k) n ++ (slot buf ((h + t) % cap) ∷ [])) (omega arith))

  -- A write outside the window leaves it.
  window-set :
      (buf : List (Option A)) (h k n i : ℕ) (o : Option A)
      → ((j : ℕ) → k ≤ j → j < k + n → i ≢ (h + j) % cap)
      → window (set buf i o) h k n ≡ window buf h k n
  window-set buf h k zero i o far = refl
  window-set buf h k (suc n) i o far = cc (
    slot-set_ne buf i ((h + k) % cap) o (far k (omega arith) (omega arith)),
    window-set buf h (suc k) n i o (λ j p q. far j (omega arith) (omega arith)),
  )

  -- The head moves on by one step.
  window-next :
      (buf : List (Option A)) (h k n : ℕ) → window buf ((h + 1) % cap) k n ≡ window buf h (suc k) n
  window-next buf h k zero = refl
  window-next buf h k (suc n) = cc (ap (slot buf) (shift k), window-next buf h (suc k) n)
    where
      shift : (j : ℕ) → ((h + 1) % cap + j) % cap ≡ (h + suc j) % cap
      shift j = mod-add-mod (h + 1) cap j ∙ ap (λ (t : ℕ). t % cap) (omega arith)

  -- Filling the slot behind a window that leaves room extends it.
  window-extend :
      (buf : List (Option A)) (h n : ℕ) (a : A)
      → length buf ≡ cap
      → h < cap
      → n < cap
      → window (set buf ((h + n) % cap) (some a)) h 0 (suc n) ≡ window buf h 0 n ++ (some a ∷ [])
  window-extend buf h n a size hh hn =
      window-snoc (set buf ((h + n) % cap) (some a)) h 0 n
      ∙ cc (
        window-set buf h 0 n ((h + n) % cap) (some a)
            (λ j p q e. mod-ne cap h j n hh (omega arith) (omega arith) (omega arith) (sym e)),
        ap (λ (t : ℕ). slot (set buf ((h + n) % cap) (some a)) ((h + t) % cap)) zero_plus,
        slot-set_self buf ((h + n) % cap) (some a) (rw size (omega arith)),
      )
    where
      zero_plus : 0 + n ≡ n
      zero_plus = omega arith

  pub window-extend_at :
      (buf : List (Option A)) (h n i : ℕ) (a : A)
      → i ≡ (h + n) % cap
      → length buf ≡ cap
      → h < cap
      → n < cap
      → window (set buf i (some a)) h 0 (suc n) ≡ window buf h 0 n ++ (some a ∷ [])
  window-extend_at buf h n i a e size hh hn =
      subst (λ j. window (set buf j (some a)) h 0 (suc n) ≡ window buf h 0 n ++ (some a ∷ []))
        (sym e) (window-extend buf h n a size hh hn)

  -- Clearing the head leaves the window behind it.
  pub window-clear :
      (buf : List (Option A)) (h n : ℕ)
      → h < cap
      → n < cap
      → window (set buf h none) ((h + 1) % cap) 0 n ≡ window buf h 1 n
  window-clear buf h n hh hn =
      window-next (set buf h none) h 0 n
      ∙ window-set buf h 1 n h none
          (λ j p q e. mod-ne cap h 0 j hh (omega arith) (omega arith) (omega arith) (start ∙ e))
    where
      start : (h + 0) % cap ≡ h
      start = rw add-zero (mod-eq_of_lt hh)
