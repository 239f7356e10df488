-- ===== src/Meta/Symbols.antt =====
-- The symbol cache of include/rlbox_meta_sandbox.hpp: lookup in both backends, the latency statistics
-- over the cache, and the queries about a symbol. The handle that a lookup returns is the address of
-- the cached record; here it is the name under which the record is cached.
pub mod Lookup
use Prim.Native.String.{◌++◌ as str_append}
use rlbox_dynamic_sandbox.Common.{
  ℕ, Bool, true, false, not, ◌&&◌, ◌||◌, List, [], ◌∷◌, ◌++◌, Option, none, some, String, lookup,
  ◌==◌, if◌then◌else◌,
}
use rlbox_dynamic_sandbox.Meta.Types.{
  MetaBackend, process, wasm, Host, Float, PolicyContext, empty_context,
}
use rlbox_dynamic_sandbox.Meta.Latency.{LatencyRing, empty_ring, size, median}
use rlbox_dynamic_sandbox.Meta.State.{Backend, SymbolRecord, Meta, Env}

-- `meta_latency_snapshot`
pub record LatencySnapshot (D : Type 0) : Type 0 where
  pub found : Bool
  pub has_wasm : Bool
  pub proc_samples : ℕ
  pub wasm_samples : ℕ
  pub proc_median_ms : D
  pub wasm_median_ms : D

module _ {P W D Q : Type 0} (env : Env P W D Q) where
  open env use {float}

  -- The record that a first lookup of the name makes.
  unfoldable pub resolve : Meta P W D Q → String → SymbolRecord D
  resolve m func_name = record {
    name = func_name;
    process_sym = env.process_ops.lookup_symbol m.process_sbx func_name;
    wasm_sym = env.dlsym (str_append env.wasm_prefix func_name);
    process_latency = empty_ring float;
    wasm_latency = empty_ring float;
    pinned = 0;
    consecutive_same_picks = 0;
    last_pick = process;
  }

  unfoldable pub lookup_symbol : String → Meta P W D Q → String × Meta P W D Q
  unfolding resolve
  lookup_symbol func_name m = elim (lookup func_name m.symbol_cache) [
    | some rec ↦ (func_name, m)
    | none ↦ (
      func_name,
      record m { symbol_cache = m.symbol_cache ++ ((func_name, resolve m func_name) ∷ []) },
    )
  ]

  -- One symbol's share of the sums: only if it is bound on both sides, with a sample on each.
  unfoldable pub counts_in_sums : SymbolRecord D → Bool
  counts_in_sums rec =
      not (rec.wasm_sym == 0)
      && (not (size rec.process_latency == 0) && not (size rec.wasm_latency == 0))

  -- The loop of `snapshot_median_sums` over the records, from the sums so far.
  unfoldable pub sum_medians : List (String × SymbolRecord D) → D → D → D × D
  sum_medians [] p w = (p, w)
  sum_medians ((_, rec) ∷ rest) p w =
      sum_medians rest
        (if counts_in_sums rec then float.add p (median float rec.process_latency) else p)
        (if counts_in_sums rec then float.add w (median float rec.wasm_latency) else w)

  unfoldable pub snapshot_median_sums : Meta P W D Q → D × D
  unfolding sum_medians
  snapshot_median_sums m = sum_medians m.symbol_cache float.zero_ms float.zero_ms

  -- The context of an invoke of the symbol.
  unfoldable pub invoke_context : Meta P W D Q → SymbolRecord D → PolicyContext D
  invoke_context m rec =
      let (p, w) = snapshot_median_sums m in
      record {
        func_name = some rec.name;
        has_wasm = not (rec.wasm_sym == 0);
        proc_samples = size rec.process_latency;
        wasm_samples = size rec.wasm_latency;
        proc_median_ms = median float rec.process_latency;
        wasm_median_ms = median float rec.wasm_latency;
        alloc_size = 0;
        proc_median_sum = p;
        wasm_median_sum = w;
      }

  -- The context of an allocation.
  unfoldable pub alloc_context : Meta P W D Q → ℕ → PolicyContext D
  unfolding empty_context
  alloc_context m n =
      let (p, w) = snapshot_median_sums m in
      record (empty_context float) { alloc_size = n; proc_median_sum = p; wasm_median_sum = w }

  unfoldable pub latency_for : String → Meta P W D Q → LatencySnapshot D
  latency_for func_name m = elim (lookup func_name m.symbol_cache) [
    | none ↦ record {
      found = false;
      has_wasm = false;
      proc_samples = 0;
      wasm_samples = 0;
      proc_median_ms = float.zero_ms;
      wasm_median_ms = float.zero_ms;
    }
    | some rec ↦ record {
      found = true;
      has_wasm = not (rec.wasm_sym == 0);
      proc_samples = size rec.process_latency;
      wasm_samples = size rec.wasm_latency;
      proc_median_ms = median float rec.process_latency;
      wasm_median_ms = median float rec.wasm_latency;
    }
  ]

module _ {P W D Q : Type 0} where
  unfoldable pub pinned_backend_for : String → Meta P W D Q → Option MetaBackend
  pinned_backend_for func_name m = elim (lookup func_name m.symbol_cache) [
    | none ↦ none
    | some rec ↦ if rec.pinned == 0 then none else some (if rec.pinned == 1 then process else wasm)
  ]
