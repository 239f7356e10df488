-- ===== src/Meta/Latency/Tests.antt =====
-- Runs of the latency ring, and the theorems about it at concrete histories.
use rlbox_dynamic_sandbox.Common.{
  ℕ, ◌≤◌, ◌/◌, ◌≡◌, refl, arith, false, List, [], ◌∷◌, take, ltb, ◌==◌,
}
use rlbox_dynamic_sandbox.Meta.Types.{x86_64, size_inc}
use rlbox_dynamic_sandbox.Meta.Testbed.{millis, millis-IsWeakOrder}
use rlbox_dynamic_sandbox.Meta.Latency.{ring_len, empty_ring, sort, push, size, median}
use rlbox_dynamic_sandbox.Meta.Latency.Recent.{after}
use rlbox_dynamic_sandbox.Meta.Latency.Median.{count_if}
use rlbox_dynamic_sandbox.Meta.Latency.Window.{median_recent}

-- Ten samples, the newest first.
abbrev history : List ℕ
history = 4 ∷ 9 ∷ 2 ∷ 7 ∷ 5 ∷ 1 ∷ 8 ∷ 3 ∷ 50 ∷ 60 ∷ []

median-history : median millis (after x86_64 millis history) ≡ 4
unfolding median after push size size_inc empty_ring sort
median-history = refl

median_recent_example :
    let m = median millis (after x86_64 millis history) in
    ((m == 60) ≡ false)
    × (count_if (λ x. ltb x m) (take ring_len history) ≤ 7 / 2)
    × (count_if (λ x. ltb m x) (take ring_len history) ≤ 8 / 2)
median_recent_example =
    median_recent x86_64 millis millis-IsWeakOrder history (λ x. x == 60) (omega arith)
      (omega arith) refl
