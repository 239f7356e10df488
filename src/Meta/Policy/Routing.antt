-- ===== src/Meta/Policy/Routing.antt =====
-- Where the adaptive policy of include/rlbox_meta_sandbox.hpp may route one call.
use rlbox_dynamic_sandbox.Common.{◌≡◌, ◌≢◌, arith, false, none, List, ◌∷◌}
use rlbox_dynamic_sandbox.Meta.Types.{process, PolicyContext}
use rlbox_dynamic_sandbox.Meta.Policy.{Adaptive, AdaptiveState, adaptive_policy, run_policy}

module _ {D G : Type 0} (a : Adaptive D G) where
  -- Whatever it has learnt, the policy routes no named call to wasm if the symbol has no wasm binding.
  pub adaptive_policy_unbound :
      (s : AdaptiveState G) (ctx : PolicyContext D)
      → ctx.func_name ≢ none
      → ctx.has_wasm ≡ false
      → (adaptive_policy a s ctx).0 ≡ process
  unfolding adaptive_policy
  adaptive_policy_unbound s ctx named unbound = ground arith

  -- Decisions for allocations follow the current best backend, and leave no trace: the picks that come
  -- after them are those without them.
  pub run_policy-alloc :
      (s : AdaptiveState G) (ctx : PolicyContext D) (rest : List (PolicyContext D))
      → ctx.func_name ≡ none
      → run_policy a s (ctx ∷ rest) ≡ s.current_best ∷ run_policy a s rest
  unfolding run_policy adaptive_policy
  run_policy-alloc s ctx rest anonymous = rw (anonymous, adaptive_policy)
