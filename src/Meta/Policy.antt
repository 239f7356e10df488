-- ===== src/Meta/Policy.antt =====
-- `make_adaptive_policy` of include/rlbox_meta_sandbox.hpp: the state that the returned closure shares,
-- and one call of the closure. A draw of `dist(rng)` is a parameter.
pub mod Routing
pub mod Convergence
mod Tests
use rlbox_dynamic_sandbox.Common.{
  ℕ, ◌-◌, ◌%◌, Bool, true, false, not, ◌&&◌, List, [], ◌∷◌, Option, none, some, ltb, ◌==◌,
  if◌then◌else◌,
}
use rlbox_dynamic_sandbox.Meta.Types.{
  Host, size_inc, Float, MetaBackend, process, wasm, PolicyContext,
}

-- `adaptive_state`; `G` is the state of the generator.
pub record AdaptiveState (G : Type 0) : Type 0 where
  pub current_best : MetaBackend
  pub named_invoke_count : ℕ
  pub rng : G

abbrev pub is_wasm : MetaBackend → Bool
is_wasm b = elim b [ wasm ↦ true | process ↦ false ]

-- What the policy was built with, and what it runs on.
pub record Adaptive (D G : Type 0) : Type 0 where
  pub host : Host
  pub float : Float D
  pub draw : G → ℕ × G
  pub alloc_warmup : ℕ
  pub reexplore_period : ℕ

module _ {D G : Type 0} (a : Adaptive D G) where
  open a use {host, float, draw, alloc_warmup, reexplore_period}

  -- The backend of this call: `current_best`, or process where the symbol has no wasm binding.
  unfoldable pub pick : AdaptiveState G → PolicyContext D → MetaBackend
  pick s ctx = if is_wasm s.current_best && not ctx.has_wasm then process else s.current_best

  unfoldable pub random_backend : G → MetaBackend × G
  random_backend g = let (d, g') = draw g in (if d == 0 then process else wasm, g')

  -- `next`, for the call with count `n`
  unfoldable pub next_best : ℕ → G → PolicyContext D → MetaBackend × G
  unfolding random_backend
  next_best n g ctx =
      if ltb n alloc_warmup
      then random_backend g
      else if not (reexplore_period == 0) && ((n - alloc_warmup) % reexplore_period == 0)
      then random_backend g
      else if float.eq ctx.proc_median_sum ctx.wasm_median_sum
      then random_backend g
      else if float.lt ctx.proc_median_sum ctx.wasm_median_sum
      then (process, g)
      else (wasm, g)

  unfoldable pub adaptive_policy : AdaptiveState G → PolicyContext D → MetaBackend × AdaptiveState G
  unfolding pick next_best
  adaptive_policy s ctx = elim ctx.func_name [
    | none ↦ (s.current_best, s)
    | some _ ↦
        let (next, g) = next_best s.named_invoke_count s.rng ctx in
        (
          pick s ctx,
          record {
            current_best = next;
            named_invoke_count = size_inc host s.named_invoke_count;
            rng = g;
          },
        )
  ]

  -- The picks of a sequence of calls.
  unfoldable pub run_policy : AdaptiveState G → List (PolicyContext D) → List MetaBackend
  run_policy s [] = []
  run_policy s (ctx ∷ rest) = let (b, s') = adaptive_policy s ctx in b ∷ run_policy s' rest
