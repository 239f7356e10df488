-- ===== src/Meta/Latency.antt =====
-- `latency_ring` of include/rlbox_meta_sandbox.hpp: a ring of the last eight latencies of a symbol on
-- one backend, and the median that the policies read. `std::sort` is an insertion sort by `<`.
pub mod Recent
pub mod Median
pub mod Window
mod Tests
use rlbox_dynamic_sandbox.Common.{
  ℕ, ◌-◌, ◌/◌, ◌%◌, Bool, List, [], ◌∷◌, ltb, ◌==◌, if◌then◌else◌, set, get_or, take, replicate,
}
use rlbox_dynamic_sandbox.Meta.Types.{Host, size_inc, Float}

-- `latency_ring::N`
abbrev pub ring_len : ℕ
ring_len = 8

pub record LatencyRing (D : Type 0) : Type 0 where
  pub samples : List D
  pub writes : ℕ

module _ {D : Type 0} where
  -- `samples{}` and `writes = 0`
  unfoldable pub empty_ring : Float D → LatencyRing D
  empty_ring f = record { samples = replicate ring_len f.zero_ms; writes = 0 }

  unfoldable pub push : Host → D → LatencyRing D → LatencyRing D
  push h ms r = record r {
    samples = set r.samples (r.writes % ring_len) ms;
    writes = size_inc h r.writes;
  }

  unfoldable pub size : LatencyRing D → ℕ
  size r = if ltb r.writes ring_len then r.writes else ring_len

-- `std::sort` over `<` on a list
module _ {D : Type 0} (lt : D → D → Bool) where
  unfoldable pub sort_insert : D → List D → List D
  sort_insert x [] = x ∷ []
  sort_insert x (y ∷ ys) = if lt y x then y ∷ sort_insert x ys else x ∷ y ∷ ys

  unfoldable pub sort : List D → List D
  unfolding sort_insert
  sort [] = []
  sort (x ∷ xs) = sort_insert x (sort xs)

module _ {D : Type 0} (f : Float D) where
  -- Only the first `n` samples are sorted and indexed.
  unfoldable pub median : LatencyRing D → D
  median r =
      let n = size r in
      let copy = sort f.lt (take n r.samples) in
      if n == 0 then f.zero_ms else get_or copy (if n / 2 == 0 then 0 else (n - 1) / 2) f.zero_ms
