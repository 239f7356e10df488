-- ===== src/Meta/State.antt =====
-- The state of `rlbox_meta_sandbox` (include/rlbox_meta_sandbox.hpp), and what it is built on: the two
-- backends, the policy and the struct translators.
--
-- A `std::function` translator takes the whole sandbox, so the state holds a number in its place, and
-- `Env` says what each number stands for. The two backends, the policy's state and the latencies are
-- type parameters: the wasm2c backend is another project's, and the process backend is used through
-- the same calls.
use rlbox_dynamic_sandbox.Common.{ℕ, Bool, List, [], Option, String, Map, no_entries}
use rlbox_dynamic_sandbox.Meta.Types.{MetaBackend, Host, Float, PolicyContext, Outcome}
use rlbox_dynamic_sandbox.Meta.Latency.{LatencyRing}

-- The calls that the meta-sandbox makes on a backend with state `S`. A null pointer is 0.
pub record Backend (S : Type 0) : Type 0 where
  pub create_sandbox : S → Bool × S
  pub destroy_sandbox : S → S
  pub lookup_symbol : S → String → ℕ
  pub malloc_in_sandbox : S → ℕ → ℕ × S
  pub free_in_sandbox : S → ℕ → S
  pub invoke_with_func_ptr : S → ℕ → List ℕ → ℕ × S
  pub register_callback : S → ℕ → ℕ → ℕ × S
  pub unregister_callback : S → ℕ → S
  pub get_unsandboxed_pointer : S → ℕ → ℕ
  pub get_sandboxed_pointer : S → ℕ → ℕ
  pub is_pointer_in_sandbox_memory : S → ℕ → Bool
  pub get_total_memory : S → ℕ
  pub get_memory_location : S → ℕ

-- `meta_symbol_record`; `pinned` is 0, 1 for process or 2 for wasm.
pub record SymbolRecord (D : Type 0) : Type 0 where
  pub name : String
  pub process_sym : ℕ
  pub wasm_sym : ℕ
  pub process_latency : LatencyRing D
  pub wasm_latency : LatencyRing D
  pub pinned : ℕ
  pub consecutive_same_picks : ℕ
  pub last_pick : MetaBackend

-- `meta_struct_type_info`; an empty `std::function` is `none`.
pub record StructTypeInfo : Type 0 where
  pub symbol : String
  pub host_size : ℕ
  pub wasm_size : ℕ
  pub translator : Option ℕ

-- `meta_struct_alloc_info`
pub record StructAllocInfo : Type 0 where
  pub wasm_scratch : ℕ
  pub translator : Option ℕ

-- `meta_callback_record`
pub record CallbackRecord : Type 0 where
  pub wasm_slot : ℕ
  pub key : ℕ

-- `rlbox_meta_sandbox`. The caches that are walked are lists of entries.
pub record Meta (P W D Q : Type 0) : Type 0 where
  pub process_sbx : P
  pub wasm_sbx : W
  pub symbol_cache : List (String × SymbolRecord D)
  pub alloc_owner : Map MetaBackend
  pub struct_types : List StructTypeInfo
  pub struct_allocs : Map StructAllocInfo
  pub mallocs_on_process : ℕ
  pub mallocs_on_wasm : ℕ
  pub invokes_on_process : ℕ
  pub invokes_on_wasm : ℕ
  pub callback_registry : List (ℕ × CallbackRecord)
  pub policy : Q
  pub pin_threshold : ℕ

-- `meta_struct_translation`: the scratch that replaces the pointer, and what runs after the call.
pub record StructTranslation (S : Type 0) : Type 0 where
  pub wasm_scratch : ℕ
  pub cleanup : Option (S → S)

-- What one build of the program supplies: the host, the backends, the symbols of the host binary,
-- the policy and the translators.
pub record Env (P W D Q : Type 0) : Type 0 where
  pub host : Host
  pub float : Float D
  pub process_ops : Backend P
  pub wasm_ops : Backend W
  pub wasm_prefix : String
  pub dlsym : String → ℕ
  pub decide : Q → PolicyContext D → MetaBackend × Q
  pub translate_struct :
      ℕ → Meta P W D Q → String → ℕ → Outcome (StructTranslation (Meta P W D Q) × Meta P W D Q)

module _ {P W D Q : Type 0} where
  -- A fresh object over backends that are not up yet.
  unfoldable pub construct : P → W → Q → Meta P W D Q
  construct p w q = record {
    process_sbx = p;
    wasm_sbx = w;
    symbol_cache = [];
    alloc_owner = no_entries;
    struct_types = [];
    struct_allocs = no_entries;
    mallocs_on_process = 0;
    mallocs_on_wasm = 0;
    invokes_on_process = 0;
    invokes_on_wasm = 0;
    callback_registry = [];
    policy = q;
    pin_threshold = 0;
  }

  unfoldable pub set_policy : Q → Meta P W D Q → Meta P W D Q
  set_policy q m = record m { policy = q }

  unfoldable pub set_pin_threshold : ℕ → Meta P W D Q → Meta P W D Q
  set_pin_threshold n m = record m { pin_threshold = n }
