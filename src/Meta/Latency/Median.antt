-- ===== src/Meta/Latency/Median.antt =====
-- `latency_ring::median` of include/rlbox_meta_sandbox.hpp picks the lower median of the samples.
use rlbox_dynamic_sandbox.Common.{
  ℕ, zero, suc, ◌+◌, ◌-◌, ◌/◌, ◌≤◌, ◌<◌, ◌≡◌, refl, arith, Bool, true, false, List, [], ◌∷◌, length,
  get_or, take, length-take, All, if◌then◌else◌, Bool-cases, inl, inr,
}
use rlbox_dynamic_sandbox.Meta.Types.{Float}
use rlbox_dynamic_sandbox.Meta.Latency.{LatencyRing, size, sort_insert, sort, median}

-- What `<` on doubles that are numbers satisfies.
pub record IsWeakOrder {D : Type 0} (lt : D → D → Bool) : Type 0 where
  pub asym : (a b : D) → lt a b ≡ true → lt b a ≡ false
  pub chain : (a b c : D) → lt b a ≡ false → lt c b ≡ false → lt c a ≡ false

-- How many of the list pass the test.
abbrev pub count_if : {D : Type 0} → (D → Bool) → List D → ℕ
count_if p [] = 0
count_if p (x ∷ xs) = if p x then suc (count_if p xs) else count_if p xs

module _ {D : Type 0} (lt : D → D → Bool) where
  abbrev IsSorted : List D → Type 0
  IsSorted [] = Unit {0}
  IsSorted (x ∷ xs) = All (λ y. lt y x ≡ false) xs × IsSorted xs

  All-sort_insert :
      (P : D → Type 0) (x : D) (ys : List D) → P x → All P ys → All P (sort_insert lt x ys)
  unfolding sort_insert
  All-sort_insert P x [] px h = (px, tt)
  All-sort_insert P x (y ∷ ys) px h = elim (Bool-cases (lt y x)) [
    | inl e ↦ rw e (h.0, All-sort_insert P x ys px h.1)
    | inr e ↦ rw e (px, (h.0, h.1))
  ]

  All-sort : (P : D → Type 0) (xs : List D) → All P xs → All P (sort lt xs)
  unfolding sort
  All-sort P [] h = tt
  All-sort P (x ∷ xs) h = All-sort_insert P x (sort lt xs) h.0 (All-sort P xs h.1)

  All-get_or :
      (P : D → Type 0) (d : D) (xs : List D) (i : ℕ) → i < length xs → All P xs → P (get_or xs i d)
  All-get_or P d [] i lt h = absurd (omega arith)
  All-get_or P d (x ∷ xs) zero lt h = h.0
  All-get_or P d (x ∷ xs) (suc i) lt h = All-get_or P d xs i (omega arith) h.1

  count_if-sort_insert :
      (p : D → Bool) (x : D) (ys : List D) → count_if p (sort_insert lt x ys) ≡ count_if p (x ∷ ys)
  unfolding sort_insert
  count_if-sort_insert p x [] = refl
  count_if-sort_insert p x (y ∷ ys) = ground (arith, count_if-sort_insert p x ys)

  count_if-sort : (p : D → Bool) (xs : List D) → count_if p (sort lt xs) ≡ count_if p xs
  unfolding sort
  count_if-sort p [] = refl
  count_if-sort p (x ∷ xs) =
      ground (arith, count_if-sort_insert p x (sort lt xs), count_if-sort p xs)

  length-sort_insert : (x : D) (ys : List D) → length (sort_insert lt x ys) ≡ suc (length ys)
  unfolding sort_insert
  length-sort_insert x [] = refl
  length-sort_insert x (y ∷ ys) = ground (arith, length-sort_insert x ys)

  length-sort : (xs : List D) → length (sort lt xs) ≡ length xs
  unfolding sort
  length-sort [] = refl
  length-sort (x ∷ xs) = omega (arith, length-sort_insert x (sort lt xs), length-sort xs)

module _ {D : Type 0} (lt : D → D → Bool) (order : IsWeakOrder lt) where
  chain-All :
      (x y : D) (ys : List D)
      → lt y x ≡ false
      → All (λ z. lt z y ≡ false) ys
      → All (λ z. lt z x ≡ false) ys
  chain-All x y [] e h = tt
  chain-All x y (z ∷ zs) e h = (order.chain x y z e h.0, chain-All x y zs e h.1)

  sort_insert-IsSorted : (x : D) (ys : List D) → IsSorted lt ys → IsSorted lt (sort_insert lt x ys)
  unfolding sort_insert
  sort_insert-IsSorted x [] h = (tt, tt)
  sort_insert-IsSorted x (y ∷ ys) h = elim (Bool-cases (lt y x)) [
    | inl e ↦ rw e (
      All-sort_insert lt (λ z. lt z y ≡ false) x ys (order.asym y x e) h.0,
      sort_insert-IsSorted x ys h.1,
    )
    | inr e ↦ rw e ((e, chain-All x y ys e h.0), h)
  ]

  sort-IsSorted : (xs : List D) → IsSorted lt (sort lt xs)
  unfolding sort
  sort-IsSorted [] = tt
  sort-IsSorted (x ∷ xs) = sort_insert-IsSorted x (sort lt xs) (sort-IsSorted xs)

  irrefl : (x : D) → lt x x ≡ false
  irrefl x = elim (Bool-cases (lt x x)) [ inl e ↦ order.asym x x e | inr e ↦ e ]

  none_pass : (x : D) (ys : List D) → All (λ y. lt y x ≡ false) ys → count_if (λ y. lt y x) ys ≡ 0
  none_pass x [] h = refl
  none_pass x (y ∷ ys) h = rw (h.0) (none_pass x ys h.1)

  count_if-le : (p : D → Bool) (ys : List D) → count_if p ys ≤ length ys
  count_if-le p [] = omega arith
  count_if-le p (y ∷ ys) = ground (arith, count_if-le p ys)

  few_below :
      (d : D) (ys : List D) (k : ℕ)
      → IsSorted lt ys
      → k < length ys
      → count_if (λ y. lt y (get_or ys k d)) ys ≤ k
  few_below d [] k s b = absurd (omega arith)
  few_below d (y ∷ ys) zero s b = rw (irrefl y) (omega (arith, none_pass y ys s.0))
  few_below d (y ∷ ys) (suc k) s b = ground (arith, few_below d ys k s.1 (omega arith))

  few_above :
      (d : D) (ys : List D) (k : ℕ)
      → IsSorted lt ys
      → k < length ys
      → count_if (λ y. lt (get_or ys k d) y) ys + k < length ys
  few_above d [] k s b = absurd (omega arith)
  few_above d (y ∷ ys) zero s b = rw (irrefl y) (omega (arith, count_if-le (λ z. lt y z) ys))
  few_above d (y ∷ ys) (suc k) s b =
      rw (All-get_or lt (λ z. lt z y ≡ false) d ys k (omega arith) s.0)
        (omega (arith, few_above d ys k s.1 (omega arith)))

module _ {D : Type 0} (f : Float D) (order : IsWeakOrder f.lt) where
  -- Of a ring with samples, the median is one of them: what holds of all of them holds of it. With
  -- `n` samples at most (n - 1) / 2 are less than it, and at most n / 2 are greater.
  pub median_held :
      (r : LatencyRing D) (P : D → Type 0)
      → 0 < size r
      → size r ≤ length r.samples
      → All P (take (size r) r.samples)
      → let window = take (size r) r.samples in
        P (median f r)
        × (count_if (λ x. f.lt x (median f r)) window ≤ (size r - 1) / 2)
        × (count_if (λ x. f.lt (median f r) x) window ≤ size r / 2)
  unfolding median
  median_held r P pos fits h =
      let window = take (size r) r.samples in
      let sorted = sort f.lt window in
      let k = (size r - 1) / 2 in
      let m = get_or sorted k f.zero_ms in
      let at_middle : median f r ≡ m = ground arith in
      let len = length-sort f.lt window in
      let in_range : k < length sorted = omega (arith, length-take (size r) r.samples) in
      let up = sort-IsSorted f.lt order window in
      rw at_middle (
        All-get_or f.lt P f.zero_ms sorted k in_range (All-sort f.lt P window h),
        omega (
          arith,
          count_if-sort f.lt (λ x. f.lt x m) window,
          few_below f.lt order f.zero_ms sorted k up in_range,
        ),
        omega (
          arith,
          length-take (size r) r.samples,
          count_if-sort f.lt (λ x. f.lt m x) window,
          few_above f.lt order f.zero_ms sorted k up in_range,
        ),
      )
