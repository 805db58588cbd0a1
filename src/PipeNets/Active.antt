-- ===== src/PipeNets/Active.antt =====
-- The nodes that take part in an operation, by its graph and by the simulator's pipe nets.
use mathlib.Core.Path.{subst}
use ml_tt_lang.Prelude.{
  ℕ, ◌+◌, ◌≤◌, ◌<◌, ◌≡◌, refl, sym, ap, ◌∙◌, Bool, true, false, ◌||◌, some, List, [], ◌∷◌, ◌++◌,
  ◌==◌, ==_iff, length, length-append, inl, inr, All, Bool-cases, arith,
}
use ml_tt_lang.Result.{Result, ok, >>=-eq-ok}
use ml_tt_lang.Block.{shape_eq, prod, member, add}
use ml_tt_lang.NodeContext.{flatten_node_index}
use ml_tt_lang.NodeContext.RoundTrip.{Within}
use ml_tt_lang.Pipe.{Pipe, is_source, is_src, is_dst, is_active, node_in_dst_range}
use ml_tt_lang.Pipe.Range.{has_coords}
use ml_tt_lang.PipeNets.{
  PipeUse, PipeNetUse, NetError, add_coords, add_pipes, add_nets, expand_dst, active_node_set,
  add_pipe_net, pipe_uses, build_from, build_pipenets,
}
use ml_tt_lang.PipeNets.Coords.{coords, linearize-Within, node-one, shape_eq_self}
use ml_tt_lang.PipeNets.Rect.{DstWithin, pipe-Covers}

-- A pipe whose ends lie within the grid.
abbrev pub PipeWithin : List ℕ → Pipe → Type 0
PipeWithin grid p = Within p.src grid × DstWithin p.dst grid

-- Whether the node is active in one of the nets.
abbrev pub any_active : List ℕ → ℕ → List (List Pipe) → Bool
any_active grid nid [] = false
any_active grid nid (net ∷ nets) = is_active grid nid net || any_active grid nid nets

member-add : (k n : ℕ) (s : List ℕ) → member k (add n s) ≡ ((n == k) || member k s)
member-add k n s = elim (Bool-cases (member n s)) [
  | inr new ↦ rw (add, new) refl
  | inl old ↦ elim (Bool-cases (n == k)) [
    | inl e ↦ rw (add, old, e) (subst (λ z. member z s ≡ true) ((==_iff n k).0 e) old)
    | inr ne ↦ rw (add, old, ne) refl
  ]
]

or-swap : (a b c : Bool) → (b || (a || c)) ≡ ((a || b) || c)
or-swap a true c = ground arith
or-swap a false c = ground arith

or-gather : (s ss d ds b : Bool) → ((ss || ds) || (d || (s || b))) ≡ (((s || ss) || (d || ds)) || b)
or-gather true ss d ds b = ground arith
or-gather false true d ds b = ground arith
or-gather false false d ds b = ground arith

or-false : (b : Bool) → (b || false) ≡ b
or-false true = refl
or-false false = refl

module _ (g : ℕ) (grid : List ℕ) where
  -- The set after a step, which adds the nodes that pass a test.
  pub record Adds (test : ℕ → Bool) (active : List ℕ) (r : Result NetError (List ℕ)) : Type 0 where
    pub set : List ℕ
    pub done : r ≡ ok set
    pub members :
        (nid : ℕ) → nid < prod (g ∷ grid) → member nid set ≡ (test nid || member nid active)

  add_coords-Adds :
      (xs : List (List ℕ)) (active : List ℕ)
      → ((cs : List ℕ) → has_coords cs xs ≡ true → Within cs (g ∷ grid))
      → Adds (λ nid. has_coords (coords g grid nid) xs) active (add_coords (g ∷ grid) xs active)
  add_coords-Adds [] active w = record { set = active; done = refl; members = λ nid lt. refl }
  add_coords-Adds (x ∷ xs) active w =
      let (n, l, _, at) = linearize-Within g grid x (w x (ground (arith, shape_eq_self x))) in
      let rest = add_coords-Adds xs (add n active) (λ cs h. w cs (ground arith)) in
      record {
        set = rest.set;
        done = rw l rest.done;
        members = λ nid lt.
            let m = rest.members nid lt in
            let e = member-add nid n active ∙ ap (λ b. b || member nid active) (sym (at nid lt)) in
            let here = shape_eq (coords g grid nid) x in
            let later = has_coords (coords g grid nid) xs in
            m ∙ ap (λ b. later || b) e ∙ or-swap here later (member nid active);
      }

  is_source-eq :
      (p : Pipe) (n nid : ℕ)
      → flatten_node_index (g ∷ grid) p.src ≡ some n
      → nid < prod (g ∷ grid)
      → is_source (g ∷ grid) nid p ≡ (n == nid)
  unfolding is_source
  is_source-eq p n nid h lt = rw (is_source, h, node-one g grid nid lt) (ground arith)

  add_pipes-Adds :
      (pipes : List Pipe) (active : List ℕ)
      → All (PipeWithin (g ∷ grid)) pipes
      → (uses : List PipeUse) × (pipe_uses pipes ≡ ok uses)
        × Adds (λ nid. is_active (g ∷ grid) nid pipes) active (add_pipes (g ∷ grid) uses active)
  unfolding is_active is_src is_dst
  add_pipes-Adds [] active w =
      ([], refl, record { set = active; done = refl; members = λ nid lt. refl })
  add_pipes-Adds (p ∷ pipes) active ((ws, wd), w) =
      let (u, c) = pipe-Covers g grid p wd in
      let (n, l, f, _) = linearize-Within g grid p.src ws in
      let dst = add_coords-Adds (expand_dst u.dst) (add n active) c.within in
      let (uses, made, rest) = add_pipes-Adds pipes dst.set w in
      (
        u ∷ uses,
        rw (c.made, made) refl,
        record {
          set = rest.set;
          done = rw (c.src, l, dst.done) rest.done;
          members = λ nid lt.
              let s = is_source-eq p n nid f lt in
              let d = dst.members nid lt in
              let r = rest.members nid lt in
              let a = member-add nid n active ∙ ap (λ b. b || member nid active) (sym s) in
              let same = c.same nid in
              r
              ∙ ap (λ b. is_active (g ∷ grid) nid pipes || b)
                  (d
                    ∙ ap (λ b. b || member nid (add n active)) same
                    ∙ ap (λ b. node_in_dst_range (g ∷ grid) nid p.dst || b) a)
              ∙ or-gather (is_source (g ∷ grid) nid p) (is_src (g ∷ grid) nid pipes)
                  (node_in_dst_range (g ∷ grid) nid p.dst) (is_dst (g ∷ grid) nid pipes)
                  (member nid active);
        },
      )

  net-members :
      (net : List Pipe) (nets : List (List Pipe)) (nid : ℕ) (base : List ℕ) (set₁ set₂ : List ℕ)
      → member nid set₁ ≡ (is_active (g ∷ grid) nid net || member nid base)
      → member nid set₂ ≡ (any_active (g ∷ grid) nid nets || member nid set₁)
      → member nid set₂ ≡ (any_active (g ∷ grid) nid (net ∷ nets) || member nid base)
  net-members net nets nid base set₁ set₂ h k =
      k
      ∙ ap (λ b. any_active (g ∷ grid) nid nets || b) h
      ∙ or-swap (is_active (g ∷ grid) nid net) (any_active (g ∷ grid) nid nets) (member nid base)

  add_nets-append :
      (graph more : List PipeNetUse) (base : List ℕ) {active : List ℕ}
      → add_nets (g ∷ grid) graph base ≡ ok active
      → add_nets (g ∷ grid) (graph ++ more) base ≡ add_nets (g ∷ grid) more active
  add_nets-append [] more base {active} h =
      let same : base ≡ active = cc h in ap (add_nets (g ∷ grid) more) same
  add_nets-append (net ∷ graph) more base h =
      let (a, h₁, h₂) = >>=-eq-ok (add_pipes (g ∷ grid) net.pipes base) _ h in
      rw h₁ (add_nets-append graph more a h₂)

  build_from-Adds :
      (nets : List (List Pipe)) (graph : List PipeNetUse) {active : List ℕ}
      → All (All (PipeWithin (g ∷ grid))) nets
      → add_nets (g ∷ grid) graph [] ≡ ok active
      → (graph' : List PipeNetUse) × (build_from nets graph ≡ ok graph')
        × (length graph' ≡ length graph + length nets)
        × Adds (λ nid. any_active (g ∷ grid) nid nets) active (add_nets (g ∷ grid) graph' [])
  unfolding build_from add_pipe_net
  build_from-Adds [] graph {active} w h =
      (graph, refl, omega arith, record { set = active; done = h; members = λ nid lt. refl })
  build_from-Adds (net ∷ nets) graph {active} (wn, w) h =
      let (uses, made, first) = add_pipes-Adds net active wn in
      let one = record { id = length graph; pipes = uses } ∷ [] in
      let (graph', built, len, rest) =
        build_from-Adds nets (add_pipe_net uses graph) w
          (add_nets-append graph one [] h ∙ rw first.done refl) in
      (
        graph',
        rw made built,
        omega (arith, len, length-append graph one),
        record {
          set = rest.set;
          done = rest.done;
          members = λ nid lt.
              net-members net nets nid active first.set rest.set (first.members nid lt)
                (rest.members nid lt);
        },
      )

  active-some :
      (graph : List PipeNetUse) {active : List ℕ}
      → 1 ≤ length graph
      → add_nets (g ∷ grid) graph [] ≡ ok active
      → active_node_set (g ∷ grid) graph ≡ ok (some active)
  unfolding active_node_set
  active-some [] n h = absurd (omega arith)
  active-some (net ∷ graph) n h = rw h refl

  -- On a grid of any rank, for at least one net of pipes whose ends have the grid's own rank and lie
  -- within it, a destination tuple of one number excepted, the graph is built and has an active set,
  -- and a node of the grid is in the set exactly when it is active in one of the nets.
  pub active_node_set-is_active :
      (net : List Pipe) (nets : List (List Pipe))
      → All (All (PipeWithin (g ∷ grid))) (net ∷ nets)
      → (graph : List PipeNetUse) × (active : List ℕ) × (build_pipenets (net ∷ nets) ≡ ok graph)
        × (active_node_set (g ∷ grid) graph ≡ ok (some active))
        × ((nid : ℕ)
            → nid < prod (g ∷ grid)
            → member nid active ≡ any_active (g ∷ grid) nid (net ∷ nets))
  unfolding build_pipenets
  active_node_set-is_active net nets w =
      let (graph, built, len, adds) = build_from-Adds (net ∷ nets) [] w refl in
      (
        graph,
        adds.set,
        built,
        active-some graph (omega arith) adds.done,
        λ nid lt. adds.members nid lt ∙ or-false (any_active (g ∷ grid) nid (net ∷ nets)),
      )
