-- ===== src/Scheduler/Order.antt =====
-- The order of the fair scheduler: a permutation of the active kernels, least recently run first.
use mathlib.Core.Path.{subst}
use mathlib.Core.List.Perm
use mathlib.Core.List.{Perm}
use ml_tt_lang.Prelude.{
  ℕ, ◌≤◌, ◌≡◌, refl, sym, ap, true, false, List, [], ◌∷◌, map, inl, inr, Bool-cases, arith,
}
use ml_tt_lang.Scheduler.{
  KernelId, Scheduler, key_before, insert, sort, keys, lookup, or_else, kernel_times,
  get_fair_kernel_order,
}

-- `P` at every entry.
abbrev pub Each {ℓ κ} : {A : Type ℓ} → (A → Type κ) → List A → Type κ
Each P [] = Unit
Each P (x ∷ xs) = P x × Each P xs

pub Each-map {ℓ κ μ} :
    {A : Type ℓ} {B : Type κ} (f : A → B) (P : B → Type μ) (xs : List A)
    → Each (λ x. P (f x)) xs
    → Each P (map f xs)
Each-map f P [] h = h
Each-map f P (x ∷ xs) (p, h) = (p, Each-map f P xs h)

pub map-Each {ℓ κ μ} :
    {A : Type ℓ} {B : Type κ} (f : A → B) (P : B → Type μ) (xs : List A)
    → Each P (map f xs)
    → Each (λ x. P (f x)) xs
map-Each f P [] h = h
map-Each f P (x ∷ xs) (p, h) = (p, map-Each f P xs h)

abbrev stamp_of : ℕ × KernelId → ℕ
stamp_of x = x.0

abbrev kernel_of : ℕ × KernelId → KernelId
kernel_of x = x.1

-- Each number at most the later ones.
abbrev pub Ascending : List ℕ → Type 0
Ascending [] = Unit
Ascending (t ∷ ts) = Each (λ u. t ≤ u) ts × Ascending ts

insert-Perm :
    (x : ℕ × KernelId) (ys : List (ℕ × KernelId))
    → Perm (map kernel_of (insert x ys)) (x.1 ∷ map kernel_of ys)
unfolding insert
insert-Perm x [] = Perm.refl (x.1 ∷ [])
insert-Perm x (y ∷ ys) = elim (Bool-cases (key_before y x)) [
  | inl before ↦
      rw before
        (Perm.trans (Perm.cons y.1 (insert-Perm x ys)) (Perm.swap x.1 y.1 (map kernel_of ys)))
  | inr later ↦ rw later (Perm.refl (x.1 ∷ y.1 ∷ map kernel_of ys))
]

pub sort-Perm : (xs : List (ℕ × KernelId)) → Perm (map kernel_of (sort xs)) (map kernel_of xs)
unfolding sort
sort-Perm [] = Perm.refl []
sort-Perm (x ∷ xs) = Perm.trans (insert-Perm x (sort xs)) (Perm.cons x.1 (sort-Perm xs))

insert-Each :
    (P : ℕ × KernelId → Type 0) (x : ℕ × KernelId) (ys : List (ℕ × KernelId))
    → P x
    → Each P ys
    → Each P (insert x ys)
unfolding insert
insert-Each P x [] p h = (p, h)
insert-Each P x (y ∷ ys) p (q, h) = elim (Bool-cases (key_before y x)) [
  | inl before ↦ rw before (q, insert-Each P x ys p h)
  | inr later ↦ rw later (p, (q, h))
]

-- What holds of each entry of the sorted list holds of each entry.
uninsert-Each :
    (P : ℕ × KernelId → Type 0) (x : ℕ × KernelId) (ys : List (ℕ × KernelId))
    → Each P (insert x ys)
    → P x × Each P ys
unfolding insert
uninsert-Each P x [] h = h
uninsert-Each P x (y ∷ ys) h = elim (Bool-cases (key_before y x)) [
  | inl before ↦
      let (q, r) : P y × Each P (insert x ys) = rw before at h in
      let (p, rest) = uninsert-Each P x ys r in (p, (q, rest))
  | inr later ↦ rw later at h
]

pub sort-Each :
    (P : ℕ × KernelId → Type 0) (xs : List (ℕ × KernelId)) → Each P xs → Each P (sort xs)
unfolding sort
sort-Each P [] h = h
sort-Each P (x ∷ xs) (p, h) = insert-Each P x (sort xs) p (sort-Each P xs h)

pub unsort-Each :
    (P : ℕ × KernelId → Type 0) (xs : List (ℕ × KernelId)) → Each P (sort xs) → Each P xs
unfolding sort
unsort-Each P [] h = h
unsort-Each P (x ∷ xs) h = let (p, r) = uninsert-Each P x (sort xs) h in (p, unsort-Each P xs r)

before-le : (y x : ℕ × KernelId) → key_before y x ≡ true → y.0 ≤ x.0
before-le (t, a) (u, b) h = ground arith

later-le : (y x : ℕ × KernelId) → key_before y x ≡ false → x.0 ≤ y.0
later-le (t, a) (u, b) h = ground arith

Each-le :
    {t u : ℕ} (xs : List (ℕ × KernelId)) → t ≤ u → Each (λ y. u ≤ y.0) xs → Each (λ y. t ≤ y.0) xs
Each-le [] h e = e
Each-le (y ∷ ys) h (e, r) = (omega arith, Each-le ys h r)

-- Sorted by the time stamps.
abbrev Stamped : List (ℕ × KernelId) → Type 0
Stamped [] = Unit
Stamped (x ∷ xs) = Each (λ y. x.0 ≤ y.0) xs × Stamped xs

insert-Stamped : (x : ℕ × KernelId) (ys : List (ℕ × KernelId)) → Stamped ys → Stamped (insert x ys)
unfolding insert
insert-Stamped x [] s = (tt, tt)
insert-Stamped x (y ∷ ys) (e, s) = elim (Bool-cases (key_before y x)) [
  | inl before ↦
      rw before (insert-Each (λ z. y.0 ≤ z.0) x ys (before-le y x before) e, insert-Stamped x ys s)
  | inr later ↦ let first = later-le y x later in rw later ((first, Each-le ys first e), (e, s))
]

sort-Stamped : (xs : List (ℕ × KernelId)) → Stamped (sort xs)
unfolding sort
sort-Stamped [] = tt
sort-Stamped (x ∷ xs) = insert-Stamped x (sort xs) (sort-Stamped xs)

Stamped-Ascending : (xs : List (ℕ × KernelId)) → Stamped xs → Ascending (map stamp_of xs)
Stamped-Ascending [] s = tt
Stamped-Ascending (x ∷ xs) (e, s) = (Each-map stamp_of (λ u. x.0 ≤ u) xs e, Stamped-Ascending xs s)

-- The time stamp of a kernel.
abbrev pub last_run_of : {B : Type 0} → Scheduler B → KernelId → ℕ
last_run_of s k = or_else 0 (lookup k s.last_run)

with_stamp :
    (f : KernelId → ℕ) (ks : List KernelId)
    → Each (λ x. stamp_of x ≡ f (kernel_of x)) (map (λ k. (f k, k)) ks)
with_stamp f [] = tt
with_stamp f (k ∷ ks) = (refl, with_stamp f ks)

without_stamp :
    (f : KernelId → ℕ) (ks : List KernelId) → map kernel_of (map (λ k. (f k, k)) ks) ≡ ks
without_stamp f [] = refl
without_stamp f (k ∷ ks) = ap (λ js. k ∷ js) (without_stamp f ks)

stamps :
    (f : KernelId → ℕ) (xs : List (ℕ × KernelId))
    → Each (λ x. stamp_of x ≡ f (kernel_of x)) xs
    → map f (map kernel_of xs) ≡ map stamp_of xs
stamps f [] h = refl
stamps f (x ∷ xs) (e, h) = cc (e, stamps f xs h)

-- The fair order lists the active kernels, each as often as it is active, and their time stamps
-- ascend: the least recently run kernel comes first.
pub get_fair_kernel_order-fair :
    {B : Type 0} (s : Scheduler B)
    → Perm (get_fair_kernel_order s) (keys s.active)
      × Ascending (map (last_run_of s) (get_fair_kernel_order s))
unfolding get_fair_kernel_order kernel_times
get_fair_kernel_order-fair s =
    let ts = map (λ k. (last_run_of s k, k)) (keys s.active) in
    let own =
      sort-Each (λ x. stamp_of x ≡ last_run_of s (kernel_of x)) ts
        (with_stamp (last_run_of s) (keys s.active)) in
    (
      subst (Perm (map kernel_of (sort ts))) (without_stamp (last_run_of s) (keys s.active))
          (sort-Perm ts),
      subst Ascending (sym (stamps (last_run_of s) (sort ts) own))
          (Stamped-Ascending (sort ts) (sort-Stamped ts)),
    )

-- What holds of each kernel of the order holds of each active kernel.
pub get_fair_kernel_order-Each :
    {B : Type 0} (P : KernelId → Type 0) (s : Scheduler B)
    → Each P (get_fair_kernel_order s)
    → Each P (keys s.active)
unfolding get_fair_kernel_order kernel_times
get_fair_kernel_order-Each P s h =
    let ts = map (λ k. (last_run_of s k, k)) (keys s.active) in
    subst (Each P) (without_stamp (last_run_of s) (keys s.active)) (
      Each-map kernel_of P ts
        (unsort-Each (λ x. P (kernel_of x)) ts (map-Each kernel_of P (sort ts) h)))
