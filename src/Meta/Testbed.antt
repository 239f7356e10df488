-- ===== src/Meta/Testbed.antt =====
-- A small meta-sandbox (include/rlbox_meta_sandbox.hpp) for tests: two counting allocators for
-- backends, latencies in whole milliseconds, and the adaptive policy with its draws taken from the
-- bits of a number.
use rlbox_dynamic_sandbox.Common.{
  ℕ, ◌+◌, ◌-◌, ◌/◌, ◌%◌, ◌^◌, true, ◌&&◌, [], ◌∷◌, some, arith, ltb, leb, ◌==◌, no_entries,
}
use rlbox_dynamic_sandbox.Meta.Types.{x86_64, MetaBackend, process, Float, aborts, no_scratch}
use rlbox_dynamic_sandbox.Meta.Latency.{LatencyRing}
use rlbox_dynamic_sandbox.Meta.Latency.Median.{IsWeakOrder}
use rlbox_dynamic_sandbox.Meta.Policy.{Adaptive, AdaptiveState, adaptive_policy}
use rlbox_dynamic_sandbox.Meta.State.{Backend, Meta, Env, SymbolRecord, StructTypeInfo}

abbrev pub millis : Float ℕ
millis = record { zero_ms = 0; add = ◌+◌; sub = ◌-◌; lt = ltb; eq = ◌==◌ }

pub millis-IsWeakOrder : IsWeakOrder ltb
millis-IsWeakOrder = record { asym = λ a b h. ground arith; chain = λ a b c h k. ground arith }

-- The process backend hands out addresses from the counter on.
abbrev pub process_ops : Backend ℕ
process_ops = record {
  create_sandbox = λ s. (true, s);
  destroy_sandbox = λ s. s;
  lookup_symbol = λ s name. 100;
  malloc_in_sandbox = λ s n. (s, s + n);
  free_in_sandbox = λ s p. s + 1;
  invoke_with_func_ptr = λ s f vs. (s % 2 ^ 40, s + 1);
  register_callback = λ s key f. (s, s + 8);
  unregister_callback = λ s key. s;
  get_unsandboxed_pointer = λ s p. p;
  get_sandboxed_pointer = λ s p. p;
  is_pointer_in_sandbox_memory = λ s p. leb (2 ^ 20) p && ltb p (2 ^ 30);
  get_total_memory = λ s. 2 ^ 26;
  get_memory_location = λ s. 2 ^ 20;
}

-- The wasm backend's memory is 64 KiB at 2 ^ 40.
abbrev pub wasm_ops : Backend ℕ
wasm_ops = record {
  create_sandbox = λ w. (true, w);
  destroy_sandbox = λ w. w;
  lookup_symbol = λ w name. 0;
  malloc_in_sandbox = λ w n. (w % 2 ^ 16, w + n);
  free_in_sandbox = λ w p. w + 1;
  invoke_with_func_ptr = λ w f vs. (w % 2 ^ 16, w + 1);
  register_callback = λ w key f. (w, w + 1);
  unregister_callback = λ w key. w;
  get_unsandboxed_pointer = λ w p. p + 2 ^ 40;
  get_sandboxed_pointer = λ w p. p - 2 ^ 40;
  is_pointer_in_sandbox_memory = λ w p. leb (2 ^ 40) p && ltb p (2 ^ 40 + 2 ^ 16);
  get_total_memory = λ w. 2 ^ 16;
  get_memory_location = λ w. 2 ^ 40;
}

-- One warm-up call, no re-exploration.
abbrev pub adaptive : Adaptive ℕ ℕ
adaptive = record {
  host = x86_64;
  float = millis;
  draw = λ g. (g % 2, g / 2);
  alloc_warmup = 1;
  reexplore_period = 0;
}

abbrev pub env : Env ℕ ℕ ℕ (AdaptiveState ℕ)
env = record {
  host = x86_64;
  float = millis;
  process_ops = process_ops;
  wasm_ops = wasm_ops;
  wasm_prefix = "w2c_";
  dlsym = λ name. 0;
  decide = adaptive_policy adaptive;
  translate_struct = λ t m sym p. aborts no_scratch;
}

abbrev pub policy_at : MetaBackend → AdaptiveState ℕ
policy_at b = record { current_best = b; named_invoke_count = 0; rng = 5 }

abbrev pub no_samples : LatencyRing ℕ
no_samples = record { samples = 0 ∷ 0 ∷ 0 ∷ 0 ∷ 0 ∷ 0 ∷ 0 ∷ 0 ∷ []; writes = 0 }

-- A symbol that is bound on both sides.
abbrev pub crunch : SymbolRecord ℕ
crunch = record {
  name = "crunch";
  process_sym = 100;
  wasm_sym = 200;
  process_latency = no_samples;
  wasm_latency = no_samples;
  pinned = 0;
  consecutive_same_picks = 0;
  last_pick = process;
}

-- A symbol of the process side alone.
abbrev pub wrapper : SymbolRecord ℕ
wrapper = record crunch { name = "wrapper"; wasm_sym = 0 }

-- A registered struct type of 24 bytes on the host and 16 on wasm.
abbrev pub stream_type : StructTypeInfo
stream_type = record { symbol = "stream"; host_size = 24; wasm_size = 16; translator = some 0 }

-- The sandbox with both symbols looked up, whose policy prefers a backend.
abbrev pub meta_at : MetaBackend → Meta ℕ ℕ ℕ (AdaptiveState ℕ)
meta_at b = record {
  process_sbx = 2 ^ 20;
  wasm_sbx = 64;
  symbol_cache = ("crunch", crunch) ∷ ("wrapper", wrapper) ∷ [];
  alloc_owner = no_entries;
  struct_types = stream_type ∷ [];
  struct_allocs = no_entries;
  mallocs_on_process = 0;
  mallocs_on_wasm = 0;
  invokes_on_process = 0;
  invokes_on_wasm = 0;
  callback_registry = [];
  policy = policy_at b;
  pin_threshold = 3;
}
