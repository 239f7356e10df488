-- ===== src/Meta/Pointers/Regions.antt =====
-- `impl_is_in_same_sandbox` of include/rlbox_meta_sandbox.hpp against the regions of memory.
use rlbox_dynamic_sandbox.Common.{ℕ, ◌≡◌, ◌↔◌, arith, Bool, true, ◌==◌, if◌then◌else◌}
use rlbox_dynamic_sandbox.Meta.Pointers.{is_in_same_sandbox}

-- Where a pointer may lie: in the application's memory, or in one of the two memories of a sandbox.
pub data Region : Type 0 where
  app : Region
  process_memory wasm_memory : ℕ → Region

module _ (finder : ℕ → ℕ) (in_wasm : ℕ → ℕ → Bool) where
  abbrev pub owner : ℕ → ℕ
  owner p = if p == 0 then 0 else finder p

  unfoldable pub region : ℕ → Region
  region p =
      if owner p == 0
      then app
      else if in_wasm (owner p) p
      then wasm_memory (owner p)
      else process_memory (owner p)

  -- Two pointers are in the same sandbox exactly when they lie in one region: the process memory and the
  -- wasm memory of a sandbox count as two, and null counts as application memory.
  pub is_in_same_sandbox_iff :
      (p1 p2 : ℕ) → (is_in_same_sandbox finder in_wasm p1 p2 ≡ true) ↔ (region p1 ≡ region p2)
  unfolding is_in_same_sandbox region
  is_in_same_sandbox_iff p1 p2 = ground arith
