-- ===== src/PipeNets/Semaphores.antt =====
-- The semaphores that a graph needs.
use mathlib.Core.Path.{subst}
use ml_tt_lang.Prelude.{
  ℕ, ◌+◌, ◌≤◌, ◌≡◌, refl, true, false, List, [], ◌∷◌, length, inl, inr, Bool-cases, leb, ltb,
  leb→le, leb→gt, arith, ◌<◌, ge→ltb, lt→ltb, if◌then◌else◌,
}
use ml_tt_lang.Block.{shape_eq}
use ml_tt_lang.PipeNets.{
  PipeUse, PipeNetUse, count_source, count_pipes, count_nets, max_value, max_pipes_per_source,
  uses_global_ready_counters, max_hardware_semaphore_ids, num_pipe_sync_semaphores,
  num_pipe_global_semaphores, num_pipes,
}
use ml_tt_lang.PipeNets.Coords.{shape_eq_iff, shape_eq_self}

-- How many pipes have the source.
abbrev pub pipes_from : List ℕ → List PipeUse → ℕ
pipes_from s [] = 0
pipes_from s (p ∷ pipes) = (if shape_eq p.src s then 1 else 0) + pipes_from s pipes

abbrev pub nets_from : List ℕ → List PipeNetUse → ℕ
nets_from s [] = 0
nets_from s (net ∷ nets) = pipes_from s net.pipes + nets_from s nets

-- The count that is kept for a source.
abbrev count_of : List ℕ → List (List ℕ × ℕ) → ℕ
count_of s [] = 0
count_of s ((t, n) ∷ counts) = if shape_eq t s then n else count_of s counts

-- No source has two counts.
abbrev HasOnce : List (List ℕ × ℕ) → Type 0
HasOnce [] = Unit
HasOnce ((t, n) ∷ counts) = (count_of t counts ≡ 0) × HasOnce counts

count_source-count_of :
    (s src : List ℕ) (counts : List (List ℕ × ℕ))
    → count_of s (count_source src counts) ≡ (if shape_eq src s then 1 else 0) + count_of s counts
count_source-count_of s src [] = ground arith
count_source-count_of s src ((t, n) ∷ counts) = elim (Bool-cases (shape_eq src t)) [
  | inl e ↦ rw (count_source, e) (rw (shape_eq_iff src t e) (ground arith))
  | inr ne ↦
      rw (count_source, ne)
        (elim (Bool-cases (shape_eq t s)) [
          | inl e ↦
              let apart : shape_eq src s ≡ false =
                subst (λ z. shape_eq src z ≡ false) (shape_eq_iff t s e) ne in
              rw (e, apart) (omega arith)
          | inr other ↦ rw other (count_source-count_of s src counts)
        ])
]

count_source-HasOnce :
    (src : List ℕ) (counts : List (List ℕ × ℕ)) → HasOnce counts → HasOnce (count_source src counts)
count_source-HasOnce src [] h = (refl, tt)
count_source-HasOnce src ((t, n) ∷ counts) (h, hs) = elim (Bool-cases (shape_eq src t)) [
  | inl e ↦ rw (count_source, e) (h, hs)
  | inr ne ↦
      rw (count_source, ne)
        (rw (count_source-count_of t src counts, ne, h) refl, count_source-HasOnce src counts hs)
]

count_pipes-count_of :
    (s : List ℕ) (pipes : List PipeUse) (counts : List (List ℕ × ℕ))
    → count_of s (count_pipes pipes counts) ≡ pipes_from s pipes + count_of s counts
count_pipes-count_of s [] counts = omega arith
count_pipes-count_of s (p ∷ pipes) counts = omega (
  arith,
  count_pipes-count_of s pipes (count_source p.src counts),
  count_source-count_of s p.src counts,
)

count_pipes-HasOnce :
    (pipes : List PipeUse) (counts : List (List ℕ × ℕ))
    → HasOnce counts
    → HasOnce (count_pipes pipes counts)
count_pipes-HasOnce [] counts h = h
count_pipes-HasOnce (p ∷ pipes) counts h =
    count_pipes-HasOnce pipes (count_source p.src counts) (count_source-HasOnce p.src counts h)

count_nets-count_of :
    (s : List ℕ) (nets : List PipeNetUse) (counts : List (List ℕ × ℕ))
    → count_of s (count_nets nets counts) ≡ nets_from s nets + count_of s counts
count_nets-count_of s [] counts = omega arith
count_nets-count_of s (net ∷ nets) counts = omega (
  arith,
  count_nets-count_of s nets (count_pipes net.pipes counts),
  count_pipes-count_of s net.pipes counts,
)

count_nets-HasOnce :
    (nets : List PipeNetUse) (counts : List (List ℕ × ℕ))
    → HasOnce counts
    → HasOnce (count_nets nets counts)
count_nets-HasOnce [] counts h = h
count_nets-HasOnce (net ∷ nets) counts h =
    count_nets-HasOnce nets (count_pipes net.pipes counts) (count_pipes-HasOnce net.pipes counts h)

count_of-le : (s : List ℕ) (counts : List (List ℕ × ℕ)) → count_of s counts ≤ max_value counts
count_of-le s [] = omega arith
count_of-le s ((t, n) ∷ counts) = elim (Bool-cases (shape_eq t s)) [
  | inl e ↦ rw e (omega arith)
  | inr ne ↦ rw ne (omega (arith, count_of-le s counts))
]

max_value-found :
    (counts : List (List ℕ × ℕ))
    → HasOnce counts
    → (s : List ℕ) × (count_of s counts ≡ max_value counts)
max_value-found [] h = ([], refl)
max_value-found ((t, n) ∷ counts) (h, hs) =
    let (s, e) = max_value-found counts hs in
    elim (Bool-cases (leb (max_value counts) n)) [
      | inl le ↦ (t, rw (shape_eq_self t) (omega (arith, leb→le (max_value counts) n le)))
      | inr gt ↦ elim (Bool-cases (shape_eq t s)) [
        | inr ne ↦ (s, rw ne (omega (arith, leb→gt (max_value counts) n gt)))
        | inl same ↦
            let none_kept : count_of s counts ≡ 0 =
              subst (λ z. count_of z counts ≡ 0) (shape_eq_iff t s same) h in
            absurd (omega (arith, leb→gt (max_value counts) n gt))
      ]
    ]

-- `_max_pipes_per_source` is the most pipes of the graph that one source has: no source has more, and
-- some source has as many.
pub max_pipes_per_source-most :
    (nets : List PipeNetUse)
    → ((s : List ℕ) → nets_from s nets ≤ max_pipes_per_source nets)
      × ((s : List ℕ) × (nets_from s nets ≡ max_pipes_per_source nets))
unfolding max_pipes_per_source
max_pipes_per_source-most nets =
    let (s, e) = max_value-found (count_nets nets []) (count_nets-HasOnce nets [] tt) in
    (
      λ s'. omega (arith, count_of-le s' (count_nets nets []), count_nets-count_of s' nets []),
      (s, omega (arith, e, count_nets-count_of s nets [])),
    )

-- The hardware and global semaphores of a graph, by the most pipes that a source of it has: one hardware
-- semaphore for each net and each pipe of such a source, as long as these are no more than 16; or else
-- one for each net, and a global semaphore for each pipe.
pub num_pipe_sync_semaphores-count :
    (nets : List PipeNetUse)
    → (s : List ℕ) × ((s' : List ℕ) → nets_from s' nets ≤ nets_from s nets)
      × (length nets + nets_from s nets ≤ max_hardware_semaphore_ids
          → (num_pipe_sync_semaphores nets ≡ length nets + nets_from s nets)
            × (num_pipe_global_semaphores nets ≡ 0))
      × (max_hardware_semaphore_ids < length nets + nets_from s nets
          → (num_pipe_sync_semaphores nets ≡ length nets)
            × (num_pipe_global_semaphores nets ≡ num_pipes nets))
unfolding num_pipe_sync_semaphores num_pipe_global_semaphores uses_global_ready_counters
num_pipe_sync_semaphores-count [] =
    ([], λ s'. omega arith, λ h. (refl, refl), λ h. absurd (omega arith))
num_pipe_sync_semaphores-count (net ∷ nets) =
    let most = max_pipes_per_source (net ∷ nets) in
    let n = length (net ∷ nets) in
    let (bound, (s, e)) = max_pipes_per_source-most (net ∷ nets) in
    (
      s,
      λ s'. omega (arith, bound s', e),
      λ few.
          let fits : ltb 16 (n + most) ≡ false = ge→ltb 16 (n + most) (omega (arith, e)) in
          (rw fits (omega (arith, e)), rw fits refl),
      λ many.
          let over : ltb 16 (n + most) ≡ true = lt→ltb 16 (n + most) (omega (arith, e)) in
          (rw over refl, rw over refl),
    )
