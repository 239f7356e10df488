-- ===== src/Meta/Policy/Tests.antt =====
-- Runs of the adaptive policy, and the theorems about it at concrete contexts.
use rlbox_dynamic_sandbox.Common.{ℕ, ◌≡◌, refl, arith, true, false, some, none, [], ◌∷◌, drop}
use rlbox_dynamic_sandbox.Meta.Types.{process, wasm, PolicyContext, size_inc}
use rlbox_dynamic_sandbox.Meta.Testbed.{adaptive, policy_at}
use rlbox_dynamic_sandbox.Meta.Policy.{adaptive_policy, run_policy}
use rlbox_dynamic_sandbox.Meta.Policy.Convergence.{run_policy_settles}

-- A bound symbol, with the process side slower in sum.
abbrev wasm_cheaper : PolicyContext ℕ
wasm_cheaper = record {
  func_name = some "crunch";
  has_wasm = true;
  proc_samples = 1;
  wasm_samples = 1;
  proc_median_ms = 9;
  wasm_median_ms = 2;
  alloc_size = 0;
  proc_median_sum = 9;
  wasm_median_sum = 2;
}

abbrev unbound : PolicyContext ℕ
unbound = record wasm_cheaper { func_name = some "wrapper"; has_wasm = false }

abbrev allocation : PolicyContext ℕ
allocation = record wasm_cheaper { func_name = none }

runs :
    run_policy adaptive
      (policy_at process)
      (wasm_cheaper ∷ wasm_cheaper ∷ wasm_cheaper ∷ unbound ∷ [])
    ≡ process ∷ wasm ∷ wasm ∷ process ∷ []
unfolding run_policy adaptive_policy size_inc
runs = refl

run_policy_settles_example :
    drop 2 (
      run_policy adaptive
        (policy_at process)
        (unbound ∷ wasm_cheaper ∷ wasm_cheaper ∷ unbound ∷ []))
    ≡ wasm ∷ process ∷ []
run_policy_settles_example =
    run_policy_settles adaptive wasm (policy_at process) (unbound ∷ [])
      (wasm_cheaper ∷ unbound ∷ []) wasm_cheaper refl refl refl (omega arith) ((λ e. cc), tt)
      ((λ e. cc), refl, refl) (((λ e. cc), refl, refl), (((λ e. cc), refl, refl), tt))
