-- ===== src/Meta/Policy/Convergence.antt =====
-- How the adaptive policy of include/rlbox_meta_sandbox.hpp settles on the cheaper backend.
use native.Mathlib.Nat.{mod-eq_of_lt}
use rlbox_dynamic_sandbox.Common.{
  suc, ◌+◌, ◌≤◌, ◌<◌, ◌^◌, ◌≡◌, ◌≢◌, ◌∙◌, ap, ap₂, subst, arith, refl, not, ◌&&◌, false, none, List,
  [], ◌∷◌, ◌++◌, map, All, length, drop, if◌then◌else◌,
}
use rlbox_dynamic_sandbox.Meta.Types.{
  pointer_bits, size_inc, MetaBackend, process, wasm, PolicyContext,
}
use rlbox_dynamic_sandbox.Meta.Policy.{
  Adaptive, AdaptiveState, is_wasm, adaptive_policy, run_policy,
}

-- The decision that a backend is the best makes for a symbol.
abbrev pub bound_to : {D : Type 0} → MetaBackend → PolicyContext D → MetaBackend
bound_to b ctx = if is_wasm b && not ctx.has_wasm then process else b

module _ {D G : Type 0} (a : Adaptive D G) where
  open a use {host, float, alloc_warmup, reexplore_period}

  abbrev pub IsNamed : PolicyContext D → Type 0
  IsNamed ctx = ctx.func_name ≢ none

  -- The medians of the context say that `b` is the cheaper backend.
  abbrev pub Prefers : MetaBackend → PolicyContext D → Type 0
  Prefers b ctx =
      (ctx.func_name ≢ none)
      × (float.eq ctx.proc_median_sum ctx.wasm_median_sum ≡ false)
      × (float.lt ctx.proc_median_sum ctx.wasm_median_sum ≡ not (is_wasm b))

  -- A named call counts, and once past the warm-up it takes the preferred backend for the best.
  step_count :
      (s : AdaptiveState G) (ctx : PolicyContext D)
      → IsNamed ctx
      → (adaptive_policy a s ctx).1.named_invoke_count ≡ size_inc host s.named_invoke_count
  unfolding adaptive_policy
  step_count s ctx named = ground arith

  step_best :
      (b : MetaBackend) (s : AdaptiveState G) (ctx : PolicyContext D)
      → reexplore_period ≡ 0
      → alloc_warmup ≤ s.named_invoke_count
      → Prefers b ctx
      → (adaptive_policy a s ctx).1.current_best ≡ b
  unfolding adaptive_policy
  step_best process s ctx never past pref = ground arith
  step_best wasm s ctx never past pref = ground arith

  step_pick :
      (s : AdaptiveState G) (ctx : PolicyContext D)
      → IsNamed ctx
      → (adaptive_policy a s ctx).0 ≡ bound_to s.current_best ctx
  unfolding adaptive_policy
  step_pick s ctx named = ground arith

  counts :
      (s : AdaptiveState G) (ctx : PolicyContext D)
      → IsNamed ctx
      → s.named_invoke_count + 1 < 2 ^ pointer_bits host
      → (adaptive_policy a s ctx).1.named_invoke_count ≡ s.named_invoke_count + 1
  unfolding size_inc
  counts s ctx named fits = step_count s ctx named ∙ mod-eq_of_lt fits

  settled :
      (b : MetaBackend) (s : AdaptiveState G) (rest : List (PolicyContext D))
      → reexplore_period ≡ 0
      → alloc_warmup ≤ s.named_invoke_count
      → s.named_invoke_count + length rest < 2 ^ pointer_bits host
      → s.current_best ≡ b
      → All (Prefers b) rest
      → run_policy a s rest ≡ map (bound_to b) rest
  unfolding run_policy
  settled b s [] never past fits best pref = refl
  settled b s (ctx ∷ rest) never past fits best pref =
      let s' = (adaptive_policy a s ctx).1 in
      let count = counts s ctx pref.0.0 (omega arith) in
      ap₂ ◌∷◌ (step_pick s ctx pref.0.0 ∙ ap (λ c. bound_to c ctx) best) (
        settled b s' rest never (omega arith) (omega arith) (step_best b s ctx never past pref.0)
          pref.1)

  settled_after :
      (b : MetaBackend) (s : AdaptiveState G) (warmup rest : List (PolicyContext D))
      (ctx : PolicyContext D)
      → reexplore_period ≡ 0
      → s.named_invoke_count + length warmup ≡ alloc_warmup
      → alloc_warmup + length rest + 1 < 2 ^ pointer_bits host
      → All IsNamed warmup
      → Prefers b ctx
      → All (Prefers b) rest
      → drop (suc (length warmup)) (run_policy a s (warmup ++ (ctx ∷ rest))) ≡ map (bound_to b) rest
  unfolding run_policy
  settled_after b s [] rest ctx never count fits named pref prefs =
      let count' = counts s ctx pref.0 (omega arith) in
      settled b (adaptive_policy a s ctx).1 rest never (omega arith) (omega arith)
        (step_best b s ctx never (omega arith) pref) prefs
  settled_after b s (w ∷ warmup) rest ctx never count fits named pref prefs =
      let count' = counts s w named.0 (omega arith) in
      settled_after b (adaptive_policy a s w).1 warmup rest ctx never (omega arith) fits named.1
        pref prefs

  -- Without re-exploration, when every context from the end of the warm-up on says that `b` is the
  -- cheaper backend, every call after the first of these goes to `b` where the symbol has that binding,
  -- and to process where it has not. The contexts are those of named calls, and their number fits a
  -- `size_t`.
  pub run_policy_settles :
      (b : MetaBackend) (s : AdaptiveState G) (warmup rest : List (PolicyContext D))
      (ctx : PolicyContext D)
      → reexplore_period ≡ 0
      → s.named_invoke_count ≡ 0
      → length warmup ≡ alloc_warmup
      → alloc_warmup + length rest + 1 < 2 ^ pointer_bits host
      → All IsNamed warmup
      → Prefers b ctx
      → All (Prefers b) rest
      → drop (suc alloc_warmup) (run_policy a s (warmup ++ (ctx ∷ rest))) ≡ map (bound_to b) rest
  run_policy_settles b s warmup rest ctx never zero_count len fits named pref prefs =
      subst (λ n. drop (suc n) (run_policy a s (warmup ++ (ctx ∷ rest))) ≡ map (bound_to b) rest)
        len (settled_after b s warmup rest ctx never (omega arith) fits named pref prefs)
