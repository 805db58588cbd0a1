-- ===== src/BlockAllocation/Cells.antt =====
-- The nodes that a list of rectangles covers, in the order in which the grid is filled.
use mathlib.Core.List.{append-nil}
use mathlib.Core.Path.{ap₂}
use native.Mathlib.Nat.{add-zero, mod-add-div'}
use ml_tt_lang.Prelude.{
  ℕ, zero, suc, ◌+◌, ◌-◌, ◌*◌, ◌/◌, ◌≤◌, ◌<◌, ◌≡◌, refl, ap, ◌∙◌, List, [], ◌∷◌, ◌++◌, arith, leb,
  leb→le, ltb, lt→ltb, not, ◌&&◌, ◌==◌, Bool-cases, inl, inr,
}
use ml_tt_lang.BlockAllocation.{Span, span, fill_end, fill_full, fill}

-- `n` numbers from `a` on.
abbrev pub upto : ℕ → ℕ → List ℕ
upto a zero = []
upto a (suc n) = a ∷ upto (suc a) n

pub upto-append : (a b m n k : ℕ) → b ≡ a + m → k ≡ m + n → upto a m ++ upto b n ≡ upto a k
upto-append a b zero n k e f =
    let e' : b ≡ a = omega arith in let f' : k ≡ n = omega arith in cc (e', f')
upto-append a b (suc m) n k e f =
    let f' : k ≡ suc (m + n) = omega arith in
    rw f' (ap (λ xs. a ∷ xs) (upto-append (suc a) b m n (m + n) (omega arith) refl))

-- The numbers of the nodes of `n` whole or partial lines of a grid with `size` nodes to a line,
-- from place `first` to place `first + width - 1` of each line.
abbrev pub lines : ℕ → ℕ → ℕ → ℕ → ℕ → List ℕ
lines size line first width zero = []
lines size line first width (suc n) =
    upto (line * size + first) width ++ lines size (suc line) first width n

abbrev pub span_cells : ℕ → Span → List ℕ
span_cells size s =
    lines size s.first_line s.first (s.last + 1 - s.first) (s.last_line + 1 - s.first_line)

abbrev pub cells : ℕ → List Span → List ℕ
cells size [] = []
cells size (s ∷ ss) = span_cells size s ++ cells size ss

pub whole_lines : (size line n : ℕ) → lines size line 0 size n ≡ upto (line * size) (n * size)
whole_lines size line zero = let e : 0 * size ≡ 0 = omega arith in rw e refl
whole_lines size line (suc n) =
    rw (add-zero, whole_lines size (suc line) n)
      (upto-append (line * size) (suc line * size) size (n * size) (suc n * size) (grind arith)
        (grind arith))

-- A rectangle of whole lines.
whole_span :
    (size line k t : ℕ)
    → 1 ≤ size
    → 1 ≤ k
    → t ≡ k * size
    → span_cells size (span line 0 (line + k - 1) (size - 1)) ≡ upto (line * size) t
whole_span size line k t hs hk e =
    let width : size - 1 + 1 - 0 ≡ size = omega arith in
    let height : line + k - 1 + 1 - line ≡ k = omega arith in
    rw (width, height, e) (whole_lines size line k)

-- A part of one line.
part_span :
    (size line place end t : ℕ)
    → end + 1 ≡ place + t
    → span_cells size (span line place line end) ≡ upto (line * size + place) t
part_span size line place end t e =
    let width : end + 1 - place ≡ t = omega arith in
    let height : line + 1 - line ≡ 1 = omega arith in
    rw (width, height) (append-nil (upto (line * size + place) t))

fill_end-cells :
    (size line place t : ℕ) → cells size (fill_end line place t) ≡ upto (line * size + place) t
unfolding fill_end
fill_end-cells size line place zero = refl
fill_end-cells size line place (suc t) =
    rw (lt→ltb 0 (suc t) (omega arith), append-nil)
      (part_span size line place (place + suc t - 1) (suc t) (omega arith))

pub quotient_pos : (m n : ℕ) → 1 ≤ m → m ≤ n → 1 ≤ n / m
quotient_pos m n h le = grind arith

-- Whole lines are taken only from the start of a line.
fill_full-cells :
    (size line place t : ℕ)
    → 1 ≤ size
    → (size ≤ t → place ≡ 0)
    → cells size (fill_full size line place t) ≡ upto (line * size + place) t
unfolding fill_full
fill_full-cells size line place t hs start = elim (Bool-cases (leb size t)) [
  | inl whole ↦
      let h = leb→le size t whole in
      let k = t / size in
      let p : place ≡ 0 = start h in
      rw (whole, p, add-zero)
        (ap₂ ◌++◌ (whole_span size line k (k * size) hs (quotient_pos size t hs h) refl)
            (fill_end-cells size (line + k) 0 (t - k * size))
          ∙ upto-append (line * size) ((line + k) * size + 0) (k * size) (t - k * size) t
              (grind arith) (omega (arith, mod-add-div' t size)))
  | inr less ↦ rw less (fill_end-cells size line place t)
]

-- The rectangles cover `t` nodes from the given one on, each once, in the order of filling.
pub fill-cells :
    (size line place t : ℕ)
    → place < size
    → cells size (fill size line place t) ≡ upto (line * size + place) t
unfolding fill
fill-cells size line place t h = elim (Bool-cases (not (place == 0) && ltb (size - place) t)) [
  | inl part ↦
      let more : size - place < t = ground arith in
      rw part (
        ap₂ ◌++◌ (part_span size line place (size - 1) (size - place) (omega arith))
          (fill_full-cells size (line + 1) 0 (t - (size - place)) (omega arith) (λ _. refl))
        ∙ upto-append (line * size + place) ((line + 1) * size + 0) (size - place)
            (t - (size - place)) t (grind arith) (omega arith))
  | inr whole ↦ rw whole (fill_full-cells size line place t (omega arith) (λ le. ground arith))
]
