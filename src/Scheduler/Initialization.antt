-- ===== src/Scheduler/Initialization.antt =====
-- `_initialization_phase`: what becomes of the kernels in their first turns.
use mathlib.Core.Path.{subst}
use mathlib.Core.List.Perm
use mathlib.Core.List.{Perm, append_assoc, append-nil}
use ml_tt_lang.Prelude.{
  ◌≡◌, refl, sym, ap, ◌∙◌, Bool, false, Option, none, some, List, [], ◌∷◌, ◌++◌, inl, inr,
  Bool-cases, Option-cases, not, if◌then◌else◌,
}
use ml_tt_lang.Result.{ok, >>=-eq-ok, guard-ok}
use ml_tt_lang.Scheduler.{
  KernelId, Scheduler, Turn, finished, blocked, failed, kernel_eq, lookup, put, remove, keys,
  mark_completed, block_kernel, stamp, init_turn, or_else, is_some, already_blocked,
  initialization_phase,
}
use ml_tt_lang.Scheduler.Deadlock.{kernel_eq→≡}
use ml_tt_lang.Scheduler.Bookkeeping.{keys-put, remove-Perm}

module _ {V : Type 0} where
  -- No key is entered twice, as in a dictionary.
  abbrev pub KeysOnce : List (KernelId × V) → Type 0
  KeysOnce [] = Unit
  KeysOnce ((j, x) ∷ d) = (lookup j d ≡ none) × KeysOnce d

  remove-absent : (k : KernelId) (d : List (KernelId × V)) → lookup k d ≡ none → remove k d ≡ d
  unfolding lookup remove
  remove-absent k [] h = refl
  remove-absent k ((j, x) ∷ d) h = elim (Bool-cases (kernel_eq j k)) [
    | inl same ↦ cc (rw same at h)
    | inr other ↦ rw other (ap (λ z. (j, x) ∷ z) (remove-absent k d (rw other at h)))
  ]

  lookup-remove_absent :
      (j k : KernelId) (d : List (KernelId × V)) → lookup j d ≡ none → lookup j (remove k d) ≡ none
  unfolding lookup remove
  lookup-remove_absent j k [] h = refl
  lookup-remove_absent j k ((i, x) ∷ d) h = elim (Bool-cases (kernel_eq i j)) [
    | inl same ↦ cc (rw same at h)
    | inr other ↦ elim (Bool-cases (kernel_eq i k)) [
      | inl gone ↦ rw gone (rw other at h)
      | inr kept ↦ rw (kept, other) (lookup-remove_absent j k d (rw other at h))
    ]
  ]

  lookup-removed :
      (k : KernelId) (d : List (KernelId × V)) → KeysOnce d → lookup k (remove k d) ≡ none
  unfolding lookup remove
  lookup-removed k [] v = refl
  lookup-removed k ((j, x) ∷ d) (fresh, v) = elim (Bool-cases (kernel_eq j k)) [
    | inl same ↦ rw same (subst (λ z. lookup z d ≡ none) (kernel_eq→≡ j k same) fresh)
    | inr other ↦ rw (other, other) (lookup-removed k d v)
  ]

  remove-KeysOnce : (k : KernelId) (d : List (KernelId × V)) → KeysOnce d → KeysOnce (remove k d)
  unfolding remove
  remove-KeysOnce k [] v = tt
  remove-KeysOnce k ((j, x) ∷ d) (fresh, v) = elim (Bool-cases (kernel_eq j k)) [
    | inl same ↦ rw same v
    | inr other ↦ rw other (lookup-remove_absent j k d fresh, remove-KeysOnce k d v)
  ]

  lookup-put_absent :
      (j k : KernelId) (u : V) (d : List (KernelId × V)) {x : V}
      → lookup k d ≡ some x
      → lookup j d ≡ none
      → lookup j (put k u d) ≡ none
  unfolding lookup put
  lookup-put_absent j k u [] found h = cc found
  lookup-put_absent j k u ((i, x) ∷ d) found h = elim (Bool-cases (kernel_eq i j)) [
    | inl same ↦ cc (rw same at h)
    | inr other ↦ elim (Bool-cases (kernel_eq i k)) [
      | inl here ↦ rw (here, other) (rw other at h)
      | inr later ↦
          rw (later, other) (lookup-put_absent j k u d (rw later at found) (rw other at h))
    ]
  ]

  put-KeysOnce :
      (k : KernelId) (u : V) (d : List (KernelId × V)) {x : V}
      → lookup k d ≡ some x
      → KeysOnce d
      → KeysOnce (put k u d)
  unfolding lookup put
  put-KeysOnce k u [] found v = cc found
  put-KeysOnce k u ((j, x) ∷ d) found (fresh, v) = elim (Bool-cases (kernel_eq j k)) [
    | inl same ↦ rw same (fresh, v)
    | inr other ↦
        let there = rw other at found in
        rw other (lookup-put_absent j k u d there fresh, put-KeysOnce k u d there v)
  ]

abbrev pub doubled : List KernelId → List KernelId
doubled [] = []
doubled (k ∷ ks) = k ∷ k ∷ doubled ks

doubled-append : (ks js : List KernelId) → doubled (ks ++ js) ≡ doubled ks ++ doubled js
doubled-append [] js = refl
doubled-append (k ∷ ks) js = ap (λ z. k ∷ k ∷ z) (doubled-append ks js)

module _ {B : Type 0} where
  -- Between the two states the kernels `ended` have ended: each is entered twice in `_completed`, and
  -- the others are the active ones.
  pub record Initialized (s s' : Scheduler B) : Type 0 where
    pub ended : List KernelId
    pub twice : s'.completed ≡ s.completed ++ doubled ended
    pub left : Perm (ended ++ keys s'.active) (keys s.active)
    pub once : KeysOnce s'.active

  Initialized-trans : {s m s' : Scheduler B} → Initialized s m → Initialized m s' → Initialized s s'
  Initialized-trans {s} {m} {s'} a b = record {
    ended = a.ended ++ b.ended;
    twice =
        b.twice
        ∙ ap (λ z. z ++ doubled b.ended) a.twice
        ∙ append_assoc s.completed (doubled a.ended) (doubled b.ended)
        ∙ ap (λ z. s.completed ++ z) (sym (doubled-append a.ended b.ended));
    left =
        subst (λ z. Perm z (keys s.active)) (sym (append_assoc a.ended b.ended (keys s'.active)))
          (Perm.trans (Perm.append_left a.ended b.left) a.left);
    once = b.once;
  }

  -- A turn that changes the entry of a kernel only.
  blocked-Initialized :
      (s s' : Scheduler B)
      → s'.completed ≡ s.completed
      → keys s'.active ≡ keys s.active
      → KeysOnce s'.active
      → Initialized s s'
  blocked-Initialized s s' same kept once = record {
    ended = [];
    twice = same ∙ sym (append-nil s.completed);
    left = subst (Perm (keys s'.active)) kept (Perm.refl (keys s'.active));
    once = once;
  }

module _ {B W : Type 0} (can : B → W → Bool) (turn : KernelId → W → Turn B W) where
  init_turn-Initialized :
      (k : KernelId) (o : Turn B W) (s : Scheduler B) {e : Option B} {r : Scheduler B × W}
      → lookup k s.active ≡ some e
      → KeysOnce s.active
      → init_turn can turn k o s ≡ ok r
      → Initialized s r.0
  unfolding init_turn mark_completed block_kernel stamp
  init_turn-Initialized k (finished v) s {r = r} found once h =
      let done = mark_completed k (mark_completed k s) in
      let same : (done, v) ≡ r = cc h in
      let gone : remove k (remove k s.active) ≡ remove k s.active =
        remove-absent k (remove k s.active) (lookup-removed k s.active once) in
      subst (λ (z : Scheduler B × W). Initialized s z.0) same
        (record {
          ended = k ∷ [];
          twice = append_assoc s.completed (k ∷ []) (k ∷ []);
          left =
              subst (λ z. Perm (k ∷ keys z) (keys s.active)) (sym gone)
                (remove-Perm k s.active found);
          once = subst KeysOnce (sym gone) (remove-KeysOnce k s.active once);
        })
  init_turn-Initialized k (blocked b progress v) s {r = r} found once h =
      let s₁ = block_kernel k b progress s in
      let made = or_else false (lookup k s₁.has_made_progress) in
      let s₂ = if made then stamp k s₁ else s₁ in
      let same : (s₂, v) ≡ r = cc h in
      let active : s₂.active ≡ put k (some b) s.active = elim (Bool-cases made) [
        | inl stamped ↦ rw stamped refl
        | inr plain ↦ rw plain refl
      ] in
      let completed : s₂.completed ≡ s.completed = elim (Bool-cases made) [
        | inl stamped ↦ rw stamped refl
        | inr plain ↦ rw plain refl
      ] in
      subst (λ (z : Scheduler B × W). Initialized s z.0) same
        (blocked-Initialized s s₂ completed (ap keys active ∙ keys-put k (some b) s.active found)
          (subst KeysOnce (sym active) (put-KeysOnce k (some b) s.active found once)))
  init_turn-Initialized k failed s found once h = cc h

  -- Over the initialization phase, in which each kernel has its first turn, no kernel is lost: some have
  -- ended and the others are still active, each once. But every kernel that has ended is entered in
  -- the list of completed kernels twice.
  pub initialization_phase-Initialized :
      (ks : List KernelId) (r : Scheduler B × W) {r' : Scheduler B × W}
      → KeysOnce r.0.active
      → initialization_phase can turn ks r ≡ ok r'
      → Initialized r.0 r'.0
  unfolding initialization_phase
  initialization_phase-Initialized [] (s, w) {r'} once h =
      let same : (s, w) ≡ r' = cc h in
      subst (λ (z : Scheduler B × W). Initialized s z.0) same
        (blocked-Initialized s s refl refl once)
  initialization_phase-Initialized (k ∷ ks) (s, w) {r'} once h =
      elim (Option-cases (lookup k s.active)) [
        | inl missing ↦ cc (rw (initialization_phase, missing) at h)
        | inr (e, found) ↦
            let (_, h₁) =
              guard-ok (not (is_some e)) already_blocked _
                (rw (initialization_phase, found) at h) in
            let (m, h₂, h₃) =
              >>=-eq-ok (init_turn can turn k (turn k w) s) (initialization_phase can turn ks) h₁ in
            let first = init_turn-Initialized k (turn k w) s found once h₂ in
            Initialized-trans first (initialization_phase-Initialized ks m first.once h₃)
      ]
