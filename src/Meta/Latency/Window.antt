-- ===== src/Meta/Latency/Window.antt =====
-- The samples that a ring of include/rlbox_meta_sandbox.hpp holds, counted: they are the newest of the
-- history, and the median is the lower median of those.
use rlbox_dynamic_sandbox.Common.{
  ℕ, zero, suc, ◌+◌, ◌-◌, ◌/◌, ◌%◌, ◌^◌, ◌≤◌, ◌<◌, ◌≡◌, refl, arith, Bool, false, List, [], ◌∷◌,
  length, get_or, set, take, length-take, All, if◌then◌else◌, Bool-cases, inl, inr, dec_lt, ap, ◌∙◌,
  subst,
}
use rlbox_dynamic_sandbox.Meta.Types.{Host, pointer_bits, Float}
use rlbox_dynamic_sandbox.Meta.Latency.{ring_len, push, size, median}
use rlbox_dynamic_sandbox.Meta.Latency.Recent.{
  after, slot, recent_slot, writes-after, length-after, size-after,
}
use rlbox_dynamic_sandbox.Meta.Latency.Median.{IsWeakOrder, count_if, median_held}

module _ {D : Type 0} (p : D → Bool) where
  -- 1 for a sample that passes.
  abbrev one : D → ℕ
  one x = if p x then 1 else 0

  count_if-take-suc :
      (d : D) (xs : List D) (n : ℕ)
      → n < length xs
      → count_if p (take (suc n) xs) ≡ count_if p (take n xs) + one (get_or xs n d)
  count_if-take-suc d [] n h = absurd (omega arith)
  count_if-take-suc d (x ∷ xs) zero h = ground arith
  count_if-take-suc d (x ∷ xs) (suc n) h = ground (arith, count_if-take-suc d xs n (omega arith))

  count_if-set_end :
      (xs : List D) (n : ℕ) (v : D)
      → n < length xs
      → count_if p (take (suc n) (set xs n v)) ≡ count_if p (take n xs) + one v
  count_if-set_end [] n v h = absurd (omega arith)
  count_if-set_end (x ∷ xs) zero v h = ground arith
  count_if-set_end (x ∷ xs) (suc n) v h = ground (arith, count_if-set_end xs n v (omega arith))

  count_if-set_in :
      (d : D) (xs : List D) (n i : ℕ) (v : D)
      → i < n
      → n ≤ length xs
      → count_if p (take n (set xs i v)) + one (get_or xs i d) ≡ count_if p (take n xs) + one v
  count_if-set_in d [] n i v h k = absurd (omega arith)
  count_if-set_in d (x ∷ xs) zero i v h k = absurd (omega arith)
  count_if-set_in d (x ∷ xs) (suc n) zero v h k = ground arith
  count_if-set_in d (x ∷ xs) (suc n) (suc i) v h k =
      ground (arith, count_if-set_in d xs n i v (omega arith) (omega arith))

  take_all : (n : ℕ) (xs : List D) → length xs ≤ n → take n xs ≡ xs
  take_all zero [] h = refl
  take_all zero (x ∷ xs) h = absurd (omega arith)
  take_all (suc n) [] h = refl
  take_all (suc n) (x ∷ xs) h = ap (◌∷◌ x) (take_all n xs (omega arith))

  count_if-All : (xs : List D) → count_if p xs ≡ 0 → All (λ x. p x ≡ false) xs
  count_if-All [] h = tt
  count_if-All (x ∷ xs) h = elim (Bool-cases (p x)) [
    | inl e ↦ absurd (ground arith)
    | inr e ↦ (e, count_if-All xs (ground arith))
  ]

module _ {D : Type 0} (h : Host) (f : Float D) (p : D → Bool) where
  count_if-after_room :
      (ms : D) (older : List D)
      → length (ms ∷ older) < 2 ^ pointer_bits h
      → length older < ring_len
      → count_if p (take (length (ms ∷ older)) (after h f (ms ∷ older)).samples)
        ≡ count_if p (take (length older) (after h f older).samples) + one p ms
  unfolding after push
  count_if-after_room ms older b room =
      let at : length older % ring_len ≡ length older = omega arith in
      rw (writes-after h f older (omega arith), at)
        (count_if-set_end p (after h f older).samples (length older) ms
          (omega (arith, length-after h f older)))

  -- The write goes over the oldest of eight.
  count_if-after_full :
      (ms : D) (older : List D)
      → length (ms ∷ older) < 2 ^ pointer_bits h
      → ring_len ≤ length older
      → count_if p (take ring_len (after h f (ms ∷ older)).samples)
          + one p (get_or older 7 f.zero_ms)
        ≡ count_if p (take ring_len (after h f older).samples) + one p ms
  unfolding after push
  count_if-after_full ms older b full =
      let n = length older in
      let at : slot h f n 7 ≡ n % ring_len = omega arith in
      let oldest = recent_slot h f older 7 (omega arith) (omega arith) (omega arith) in
      rw (writes-after h f older (omega arith), ← oldest, at)
        (count_if-set_in p f.zero_ms (after h f older).samples ring_len (n % ring_len) ms
          (omega arith) (omega (arith, length-after h f older)))

  -- While the count of pushes fits a `size_t`, the held samples that pass a test are as many as those
  -- among the newest eight of the history.
  pub count_if-held :
      (history : List D)
      → length history < 2 ^ pointer_bits h
      → count_if p (take (size (after h f history)) (after h f history).samples)
        ≡ count_if p (take ring_len history)
  count_if-held [] b = rw (size-after h f [] b)
  count_if-held (ms ∷ older) b =
      let now = size-after h f (ms ∷ older) b in
      let before = size-after h f older (omega arith) in
      let ih = count_if-held older (omega arith) in
      elim (dec_lt (length older) ring_len) [
        | yes room ↦
            let a : size (after h f (ms ∷ older)) ≡ length (ms ∷ older) = omega arith in
            let c : size (after h f older) ≡ length older = omega arith in
            rw a (
              ground (
                arith,
                count_if-after_room ms older b room,
                subst
                    (λ n.
                      count_if p (take n (after h f older).samples)
                      ≡ count_if p (take ring_len older))
                    c ih,
                take_all p 7 older (omega arith),
                take_all p ring_len older (omega arith),
              ))
        | no full ↦
            let a : size (after h f (ms ∷ older)) ≡ ring_len = omega arith in
            let c : size (after h f older) ≡ ring_len = omega arith in
            rw a (
              ground (
                arith,
                count_if-after_full ms older b (omega arith),
                subst
                    (λ n.
                      count_if p (take n (after h f older).samples)
                      ≡ count_if p (take ring_len older))
                    c ih,
                count_if-take-suc p f.zero_ms older 7 (omega arith),
              ))
      ]

module _ {D : Type 0} (h : Host) (f : Float D) (order : IsWeakOrder f.lt) where
  -- After any history of pushes that is not empty, whose count fits a `size_t`, with doubles that `<`
  -- orders, the median is the lower median of the newest eight samples (of all, if there are fewer):
  -- a test that none of these passes fails on it, at most (n - 1) / 2 of the `n` samples are less
  -- than it, and at most n / 2 are greater.
  pub median_recent :
      (history : List D) (p : D → Bool)
      → 0 < length history
      → length history < 2 ^ pointer_bits h
      → count_if p (take ring_len history) ≡ 0
      → let recent = take ring_len history in
        let m = median f (after h f history) in
        (p m ≡ false)
        × (count_if (λ x. f.lt x m) recent ≤ (length recent - 1) / 2)
        × (count_if (λ x. f.lt m x) recent ≤ length recent / 2)
  median_recent history p pos b none_pass =
      let r = after h f history in
      let m = median f r in
      let n = size-after h f history b in
      let held =
        median_held f order r (λ x. p x ≡ false) (omega arith)
          (omega (arith, length-after h f history))
          (count_if-All p (take (size r) r.samples) (count_if-held h f p history b ∙ none_pass)) in
      let len = length-take ring_len history in
      (
        held.0,
        omega (arith, held.1, count_if-held h f (λ x. f.lt x m) history b),
        omega (arith, held.2, count_if-held h f (λ x. f.lt m x) history b),
      )
