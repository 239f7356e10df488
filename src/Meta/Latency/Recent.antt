-- ===== src/Meta/Latency/Recent.antt =====
-- What a ring of include/rlbox_meta_sandbox.hpp holds: the newest samples of all that were pushed.
use rlbox_dynamic_sandbox.Common.{
  ℕ, zero, suc, ◌+◌, ◌-◌, ◌%◌, ◌^◌, ◌<◌, ◌≡◌, ◌∙◌, refl, arith, List, [], ◌∷◌, min, length, get_or,
  length-set, get_or-set_self, get_or-set_ne,
}
use native.Mathlib.Nat.{mod-eq_of_lt}
use rlbox_dynamic_sandbox.Meta.Types.{Host, pointer_bits, size_inc, Float}
use rlbox_dynamic_sandbox.Meta.Latency.{LatencyRing, ring_len, empty_ring, push, size}

module _ {D : Type 0} (h : Host) (f : Float D) where
  -- The ring after a history of pushes, the newest first.
  unfoldable pub after : List D → LatencyRing D
  after [] = empty_ring f
  after (ms ∷ older) = push h ms (after older)

  -- The slot of the sample that came `age` pushes before the newest, of `n` pushes.
  abbrev pub slot : ℕ → ℕ → ℕ
  slot n age = (n - 1 - age) % ring_len

  pub writes-after :
      (history : List D)
      → length history < 2 ^ pointer_bits h
      → (after history).writes ≡ length history
  unfolding after push size_inc empty_ring
  writes-after [] b = refl
  writes-after (ms ∷ older) b =
      let bound : length older + 1 < 2 ^ pointer_bits h = omega arith in
      rw (writes-after older (omega arith), mod-eq_of_lt bound) (omega arith)

  pub length-after : (history : List D) → length (after history).samples ≡ ring_len
  unfolding after push empty_ring
  length-after [] = refl
  length-after (ms ∷ older) = omega (
    arith,
    length-set (after older).samples ((after older).writes % ring_len) ms,
    length-after older,
  )

  pub size-after :
      (history : List D)
      → length history < 2 ^ pointer_bits h
      → size (after history) ≡ min (length history) ring_len
  unfolding size
  size-after history b = ground (arith, writes-after history b)

  -- The newest sample is where `push` writes, and the older ones are not there.
  pub recent_slot :
      (history : List D) (age : ℕ)
      → length history < 2 ^ pointer_bits h
      → age < ring_len
      → age < length history
      → get_or (after history).samples (slot (length history) age) f.zero_ms
        ≡ get_or history age f.zero_ms
  unfolding after push
  recent_slot [] age b a e = absurd (omega arith)
  recent_slot (ms ∷ older) zero b a e =
      let n = writes-after older (omega arith) in
      let here : slot (length (ms ∷ older)) 0 ≡ length older % ring_len = omega arith in
      rw (here, n)
        (get_or-set_self (after older).samples (length older % ring_len) ms f.zero_ms
          (omega (arith, length-after older)))
  recent_slot (ms ∷ older) (suc age) b a e =
      let n = writes-after older (omega arith) in
      let there : slot (length (ms ∷ older)) (suc age) ≡ slot (length older) age = omega arith in
      rw (there, n)
        (get_or-set_ne (after older).samples ms f.zero_ms (omega arith)
          ∙ recent_slot older age (omega arith) (omega arith) (omega arith))

  -- While the count of pushes fits a `size_t`, the last eight samples that were pushed, or all if
  -- there are fewer, are held, each in the slot that its age gives, and `size` is their number.
  pub recent_samples :
      (history : List D)
      → length history < 2 ^ pointer_bits h
      → (size (after history) ≡ min (length history) ring_len)
        × ((age : ℕ)
            → age < size (after history)
            → get_or (after history).samples (slot (length history) age) f.zero_ms
              ≡ get_or history age f.zero_ms)
  recent_samples history b =
      let n = size-after history b in
      (n, λ age a. recent_slot history age b (omega arith) (omega arith))
