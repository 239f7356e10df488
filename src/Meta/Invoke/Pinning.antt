-- ===== src/Meta/Invoke/Pinning.antt =====
-- When a symbol's record is pinned (`~sample_pusher` of include/rlbox_meta_sandbox.hpp).
use rlbox_dynamic_sandbox.Common.{
  ℕ, ◌+◌, ◌<◌, ◌^◌, ◌≡◌, ◌≢◌, arith, refl, leb, ◌&&◌, length, if◌then◌else◌, List, [], ◌∷◌,
}
use rlbox_dynamic_sandbox.Meta.Types.{MetaBackend, process, wasm, Host}
use rlbox_dynamic_sandbox.Meta.State.{SymbolRecord}
use rlbox_dynamic_sandbox.Meta.Invoke.{pin_code, push_sample, update_pin, record_sample}

module _ {D : Type 0} (h : Host) (threshold : ℕ) where
  -- The record after calls on one backend, with their times.
  unfoldable pub record_samples : MetaBackend → List D → SymbolRecord D → SymbolRecord D
  record_samples b [] rec = rec
  record_samples b (ms ∷ rest) rec = record_samples b rest (record_sample h threshold b ms rec)

  -- One call on the backend of the last one, and one on the other.
  same_pick :
      (b : MetaBackend) (ms : D) (rec : SymbolRecord D)
      → 0 < threshold
      → rec.last_pick ≡ b
      → rec.consecutive_same_picks + 1 < 2 ^ 32
      → let rec' = record_sample h threshold b ms rec in
        (rec'.last_pick ≡ b)
        × (rec'.consecutive_same_picks ≡ rec.consecutive_same_picks + 1)
        × (rec'.pinned
            ≡ (if leb threshold (rec.consecutive_same_picks + 1) then pin_code b else rec.pinned))
  unfolding record_sample push_sample update_pin
  same_pick process ms rec on same fits = ground arith
  same_pick wasm ms rec on same fits = ground arith

  other_pick :
      (b : MetaBackend) (ms : D) (rec : SymbolRecord D)
      → 0 < threshold
      → rec.last_pick ≢ b
      → let rec' = record_sample h threshold b ms rec in
        (rec'.last_pick ≡ b) × (rec'.consecutive_same_picks ≡ 1) × (rec'.pinned ≡ rec.pinned)
  unfolding record_sample push_sample update_pin
  other_pick process ms rec on other = ground arith
  other_pick wasm ms rec on other = ground arith

  -- With pinning on, a run of calls on the backend of the last call adds its length to the count of
  -- consecutive picks (which must stay a `uint32_t`), and pins the symbol to that backend exactly
  -- when it is not empty and the count reaches the threshold; otherwise the pin stays as it was.
  pub record_samples_same :
      (b : MetaBackend) (times : List D) (rec : SymbolRecord D)
      → 0 < threshold
      → rec.last_pick ≡ b
      → rec.consecutive_same_picks + length times < 2 ^ 32
      → let rec' = record_samples b times rec in
        let n = rec.consecutive_same_picks + length times in
        (rec'.last_pick ≡ b)
        × (rec'.consecutive_same_picks ≡ n)
        × (rec'.pinned
            ≡ (if leb 1 (length times) && leb threshold n then pin_code b else rec.pinned))
  unfolding record_samples
  record_samples_same b [] rec on same fits = (same, omega arith, refl)
  record_samples_same b (ms ∷ times) rec on same fits =
      let rec' = record_sample h threshold b ms rec in
      let one = same_pick b ms rec on same (omega arith) in
      let rest = record_samples_same b times rec' on one.0 (omega arith) in
      (rest.0, omega arith, ground arith)

  -- With pinning on, a run of calls on another backend than that of the last call starts the count
  -- anew, and pins the symbol to that backend exactly when the run reaches the threshold and is at
  -- least two calls long: with threshold 1 a single call does not pin.
  pub record_samples_other :
      (b : MetaBackend) (times : List D) (rec : SymbolRecord D)
      → 0 < threshold
      → rec.last_pick ≢ b
      → 0 < length times
      → length times < 2 ^ 32
      → let rec' = record_samples b times rec in
        (rec'.consecutive_same_picks ≡ length times)
        × (rec'.pinned ≡ (
            if leb 2 (length times) && leb threshold (length times)
            then pin_code b
            else rec.pinned))
  unfolding record_samples
  record_samples_other b [] rec on other some_calls fits = absurd (omega arith)
  record_samples_other b (ms ∷ times) rec on other some_calls fits =
      let rec' = record_sample h threshold b ms rec in
      let one = other_pick b ms rec on other in
      let rest = record_samples_same b times rec' on one.0 (omega arith) in
      (omega arith, ground arith)
