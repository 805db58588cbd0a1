-- ===== src/PipeNets/Validation.antt =====
-- What `OperationPipeNets.validate` accepts.
use ml_tt_lang.Prelude.{
  ℕ, ◌≤◌, ◌≡◌, refl, Bool, true, false, not, ◌&&◌, List, [], ◌∷◌, length, All, inl, inr, ◌⊎◌, ◌↔◌,
  Bool-cases, leb, leb→le, ==_iff, arith,
}
use ml_tt_lang.Result.{Result, ok, ◌>>◌, >>=-eq-ok, guard, guard-ok}
use ml_tt_lang.Block.{member, add}
use ml_tt_lang.PipeNets.{
  PipeUse, PipeNetUse, no_pipes, mixed_kinds, mixed_ranks, is_range, has_collective,
  has_point_to_point, dst_rank, pipe_ranks, net_ranks, is_nonempty, validate_nets, validate,
}

-- Both ends of a pipe have the rank.
abbrev pub HasRank : ℕ → PipeUse → Type 0
HasRank k p = (length p.src ≡ k) × (dst_rank p.dst ≡ k)

-- The set of ranks holds no more than one.
abbrev IsAtMost : ℕ → List ℕ → Type 0
IsAtMost k s = (s ≡ []) ⊎ (s ≡ k ∷ [])

add-IsAtMost : (k n : ℕ) (s : List ℕ) → n ≡ k → IsAtMost k s → IsAtMost k (add n s)
add-IsAtMost k n s e (inl none_yet) = inr (rw (none_yet, e) refl)
add-IsAtMost k n s e (inr one) = inr (rw (one, e, (==_iff k k).1 refl) refl)

pipe_ranks-IsAtMost :
    (k : ℕ) (pipes : List PipeUse) (s : List ℕ)
    → All (HasRank k) pipes
    → IsAtMost k s
    → IsAtMost k (pipe_ranks pipes s)
pipe_ranks-IsAtMost k [] s w h = h
pipe_ranks-IsAtMost k (p ∷ pipes) s ((a, b), w) h =
    pipe_ranks-IsAtMost k pipes _ w
      (add-IsAtMost k (dst_rank p.dst) _ b (add-IsAtMost k (length p.src) s a h))

net_ranks-IsAtMost :
    (k : ℕ) (nets : List PipeNetUse) (s : List ℕ)
    → All (λ (net : PipeNetUse). All (HasRank k) net.pipes) nets
    → IsAtMost k s
    → IsAtMost k (net_ranks nets s)
net_ranks-IsAtMost k [] s w h = h
net_ranks-IsAtMost k (net ∷ nets) s (a, w) h =
    net_ranks-IsAtMost k nets _ w (pipe_ranks-IsAtMost k net.pipes s a h)

IsAtMost-length : (k : ℕ) (s : List ℕ) → IsAtMost k s → leb (length s) 1 ≡ true
IsAtMost-length k s (inl e) = rw e refl
IsAtMost-length k s (inr e) = rw e refl

-- A rank that is added stays.
add-keeps : (n r : ℕ) (s : List ℕ) → member r s ≡ true → member r (add n s) ≡ true
add-keeps n r s h = elim (Bool-cases (member n s)) [
  | inl old ↦ rw (add, old) h
  | inr new ↦ rw (add, new) (ground (arith, h))
]

add-has : (n : ℕ) (s : List ℕ) → member n (add n s) ≡ true
add-has n s = elim (Bool-cases (member n s)) [
  | inl old ↦ rw (add, old) old
  | inr new ↦ rw (add, new, (==_iff n n).1 refl) refl
]

pipe_ranks-keeps :
    (pipes : List PipeUse) (r : ℕ) (s : List ℕ)
    → member r s ≡ true
    → member r (pipe_ranks pipes s) ≡ true
pipe_ranks-keeps [] r s h = h
pipe_ranks-keeps (p ∷ pipes) r s h =
    pipe_ranks-keeps pipes r _ (add-keeps (dst_rank p.dst) r _ (add-keeps (length p.src) r s h))

net_ranks-keeps :
    (nets : List PipeNetUse) (r : ℕ) (s : List ℕ)
    → member r s ≡ true
    → member r (net_ranks nets s) ≡ true
net_ranks-keeps [] r s h = h
net_ranks-keeps (net ∷ nets) r s h = net_ranks-keeps nets r _ (pipe_ranks-keeps net.pipes r s h)

-- Both ends' ranks are in the set.
abbrev Ranked : List ℕ → PipeUse → Type 0
Ranked s p = (member (length p.src) s ≡ true) × (member (dst_rank p.dst) s ≡ true)

-- The rank that a set of at most one has, when it has any.
only-rank : (s : List ℕ) → length s ≤ 1 → (k : ℕ) × ((r : ℕ) → member r s ≡ true → r ≡ k)
only-rank [] h = (0, λ r e. cc e)
only-rank (k ∷ []) h = (k, λ r e. ground arith)
only-rank (k ∷ m ∷ s) h = absurd (omega arith)

module _ (k : ℕ) (all : List ℕ) (one : (r : ℕ) → member r all ≡ true → r ≡ k) where
  pipe_ranks-HasRank :
      (pipes : List PipeUse) (s : List ℕ)
      → ((r : ℕ) → member r (pipe_ranks pipes s) ≡ true → member r all ≡ true)
      → All (HasRank k) pipes
  pipe_ranks-HasRank [] s h = tt
  pipe_ranks-HasRank (p ∷ pipes) s h =
      let s₁ = add (length p.src) s in
      let s₂ = add (dst_rank p.dst) s₁ in
      let src =
        pipe_ranks-keeps pipes (length p.src) s₂
          (add-keeps (dst_rank p.dst) (length p.src) s₁ (add-has (length p.src) s)) in
      let dst = pipe_ranks-keeps pipes (dst_rank p.dst) s₂ (add-has (dst_rank p.dst) s₁) in
      (
        (one (length p.src) (h _ src), one (dst_rank p.dst) (h _ dst)),
        pipe_ranks-HasRank pipes s₂ h,
      )

  net_ranks-HasRank :
      (nets : List PipeNetUse) (s : List ℕ)
      → ((r : ℕ) → member r (net_ranks nets s) ≡ true → member r all ≡ true)
      → All (λ (net : PipeNetUse). All (HasRank k) net.pipes) nets
  net_ranks-HasRank [] s h = tt
  net_ranks-HasRank (net ∷ nets) s h = (
    pipe_ranks-HasRank net.pipes s (λ r e. h r (net_ranks-keeps nets r (pipe_ranks net.pipes s) e)),
    net_ranks-HasRank nets (pipe_ranks net.pipes s) h,
  )

-- A net with pipes that are all point-to-point, or all collective.
abbrev pub OfOneKind : PipeNetUse → Type 0
OfOneKind net =
    (1 ≤ length net.pipes)
    × (All (λ (p : PipeUse). is_range p.dst ≡ false) net.pipes
        ⊎ All (λ (p : PipeUse). is_range p.dst ≡ true) net.pipes)

no_collective :
    (pipes : List PipeUse)
    → (has_collective pipes ≡ false) ↔ All (λ (p : PipeUse). is_range p.dst ≡ false) pipes
no_collective [] = (λ e. tt, λ w. refl)
no_collective (p ∷ pipes) = (
  λ e. (ground arith, (no_collective pipes).0 (ground arith)),
  λ w. ground (arith, (no_collective pipes).1 w.1, w.0),
)

no_point_to_point :
    (pipes : List PipeUse)
    → (has_point_to_point pipes ≡ false) ↔ All (λ (p : PipeUse). is_range p.dst ≡ true) pipes
no_point_to_point [] = (λ e. tt, λ w. refl)
no_point_to_point (p ∷ pipes) = (
  λ e. (ground arith, (no_point_to_point pipes).0 (ground arith)),
  λ w. ground (arith, (no_point_to_point pipes).1 w.1, w.0),
)

guard-then :
    {E : Type 0} (b : Bool) (e : E)
    → ◌≡◌ {A = Result E (Unit {0})} (guard b e) (ok tt)
    → ◌≡◌ {A = Result E (Unit {0})} (guard b e >> ok tt) (ok tt)
guard-then true e h = refl
guard-then false e h = cc h

is_nonempty_iff : (pipes : List PipeUse) → (is_nonempty pipes ≡ true) ↔ (1 ≤ length pipes)
is_nonempty_iff [] = (λ e. cc e, λ h. absurd (omega arith))
is_nonempty_iff (p ∷ pipes) = (λ e. omega arith, λ h. refl)

one_kind-guard :
    (net : PipeNetUse)
    → OfOneKind net
    → not (has_point_to_point net.pipes && has_collective net.pipes) ≡ true
one_kind-guard net (some_pipe, inl points) = ground (arith, (no_collective net.pipes).1 points)
one_kind-guard net (some_pipe, inr ranges) = ground (arith, (no_point_to_point net.pipes).1 ranges)

kind-cases :
    (net : PipeNetUse)
    → not (has_point_to_point net.pipes && has_collective net.pipes) ≡ true
    → All (λ (p : PipeUse). is_range p.dst ≡ false) net.pipes
      ⊎ All (λ (p : PipeUse). is_range p.dst ≡ true) net.pipes
kind-cases net h = elim (Bool-cases (has_collective net.pipes)) [
  | inr none_ranges ↦ inl ((no_collective net.pipes).0 none_ranges)
  | inl ranges ↦ inr ((no_point_to_point net.pipes).0 (ground arith))
]

validate_nets_iff : (nets : List PipeNetUse) → (validate_nets nets ≡ ok tt) ↔ All OfOneKind nets
validate_nets_iff [] = (λ e. tt, λ w. refl)
validate_nets_iff (net ∷ nets) = (
  λ e.
      let (some_pipe, h₁) = guard-ok (is_nonempty net.pipes) no_pipes _ e in
      let (kind, h₂) =
        guard-ok (not (has_point_to_point net.pipes && has_collective net.pipes)) mixed_kinds _
          h₁ in
      (
        ((is_nonempty_iff net.pipes).0 some_pipe, kind-cases net kind),
        (validate_nets_iff nets).0 h₂,
      ),
  λ w.
      rw ((is_nonempty_iff net.pipes).1 w.0.0, one_kind-guard net w.0)
        ((validate_nets_iff nets).1 w.1),
)

-- The graphs that the validation is to accept: each net has a pipe and is of one kind, and all ends of
-- all pipes have the same rank.
abbrev pub IsValid : List PipeNetUse → Type 0
IsValid nets =
    All OfOneKind nets × ((k : ℕ) × All (λ (net : PipeNetUse). All (HasRank k) net.pipes) nets)

-- `validate` returns exactly for the graphs in which each net has a pipe and is all point-to-point or
-- all collective, and all sources and destinations of all nets have the same rank.
pub validate_iff : (nets : List PipeNetUse) → (validate nets ≡ ok tt) ↔ IsValid nets
unfolding validate
validate_iff nets = (
  λ e.
      let (_, h₁, h₂) = >>=-eq-ok (validate_nets nets) _ e in
      let ranks = net_ranks nets [] in
      let (few, _) =
        guard-ok (leb (length ranks) 1) mixed_ranks (ok tt)
          (guard-then (leb (length ranks) 1) mixed_ranks h₂) in
      let (k, one) = only-rank ranks (leb→le (length ranks) 1 few) in
      ((validate_nets_iff nets).0 h₁, (k, net_ranks-HasRank k ranks one nets [] (λ r m. m))),
  λ w.
      let few = IsAtMost-length w.1.0 _ (net_ranks-IsAtMost w.1.0 nets [] w.1.1 (inl refl)) in
      rw ((validate_nets_iff nets).1 w.0, few) refl,
)
