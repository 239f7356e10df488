-- ===== src/Meta/Translators/Tests.antt =====
-- The theorems about the struct translators for a struct of a signed field, of eight bytes on the host
-- and four in wasm, and an unsigned one of four in both, on a host of 32 bits.
use rlbox_dynamic_sandbox.Common.{
  ℕ, ◌+◌, ◌^◌, ◌≡◌, refl, arith, true, false, List, [], ◌∷◌, All, none, some, inl, inr, insert, map,
}
use rlbox_dynamic_sandbox.Meta.Types.{i386, process, ok}
use rlbox_dynamic_sandbox.Meta.Tag.{tag_wasm, has_tag}
use rlbox_dynamic_sandbox.Meta.State.{Backend, Meta, Env}
use rlbox_dynamic_sandbox.Meta.Policy.{AdaptiveState}
use rlbox_dynamic_sandbox.Meta.Alloc.{get_struct_scratch}
use rlbox_dynamic_sandbox.Meta.Pointers.{get_unsandboxed_pointer}
use rlbox_dynamic_sandbox.Meta.Testbed.{env, meta_at}
use rlbox_dynamic_sandbox.Shim.Words.{Bytes}
use rlbox_dynamic_sandbox.Meta.Translators.{
  Field, Space, into_wasm, back_to_host, copy_in, clean_up, meta_struct_translator,
}
use rlbox_dynamic_sandbox.Meta.Translators.Syncs.{InWasm, InHost, meta_struct_translator_syncs}

-- Wasm's state is the host's memory; its own begins at 2 ^ 30.
abbrev space : Space Bytes
space = record { read = λ mem. mem; write = λ mem w. mem }

abbrev in_memory : Backend Bytes
in_memory = record {
  create_sandbox = λ w. (true, w);
  destroy_sandbox = λ w. w;
  lookup_symbol = λ w name. 0;
  malloc_in_sandbox = λ w n. (88, w);
  free_in_sandbox = λ w p. w;
  invoke_with_func_ptr = λ w f vs. (0, w);
  register_callback = λ w key f. (0, w);
  unregister_callback = λ w key. w;
  get_unsandboxed_pointer = λ w p. p + 2 ^ 30;
  get_sandboxed_pointer = λ w p. p;
  is_pointer_in_sandbox_memory = λ w p. false;
  get_total_memory = λ w. 2 ^ 16;
  get_memory_location = λ w. 2 ^ 30;
}

abbrev fields : List Field
fields =
    record { host_offset = 0; host_size = 8; wasm_offset = 0; wasm_size = 4; signed = true }
    ∷ record { host_offset = 8; host_size = 4; wasm_offset = 4; wasm_size = 4; signed = false }
    ∷ []

abbrev State : Type 0
State = Meta ℕ Bytes ℕ (AdaptiveState ℕ)

abbrev plain_env : Env ℕ Bytes ℕ (AdaptiveState ℕ)
plain_env = record {
  host = i386;
  float = env.float;
  process_ops = env.process_ops;
  wasm_ops = in_memory;
  wasm_prefix = env.wasm_prefix;
  dlsym = env.dlsym;
  decide = env.decide;
  translate_struct = λ t m symbol p. ok (record { wasm_scratch = 0; cleanup = none }, m);
}

abbrev env' : Env ℕ Bytes ℕ (AdaptiveState ℕ)
env' = record plain_env {
  translate_struct = λ t m symbol p. meta_struct_translator plain_env space fields m symbol p;
}

-- A struct at 2 ^ 21 with its scratch at 88.
abbrev state : State
state =
    let m = meta_at process in
    record {
      process_sbx = m.process_sbx;
      wasm_sbx = λ a. a;
      symbol_cache = [];
      alloc_owner = insert (2 ^ 21) process m.alloc_owner;
      struct_types = m.struct_types;
      struct_allocs =
          insert (2 ^ 21) (record { wasm_scratch = 88; translator = some 0 }) m.struct_allocs;
      mallocs_on_process = 1;
      mallocs_on_wasm = 0;
      invokes_on_process = 0;
      invokes_on_wasm = 0;
      callback_registry = [];
      policy = m.policy;
      pin_threshold = 0;
    }

abbrev view : ℕ
view = get_unsandboxed_pointer env' state (2 ^ 21)

abbrev copied : State
copied = copy_in env' space (map (into_wasm view (88 + 2 ^ 30)) fields) state

meta_struct_translator_syncs_example :
    (tag_wasm i386 (get_struct_scratch (2 ^ 21) state)
      ≡ tag_wasm i386 (get_struct_scratch (2 ^ 21) state))
    × All
        (InWasm view (get_struct_scratch (2 ^ 21) state + 2 ^ 30) state.wasm_sbx copied.wasm_sbx)
        fields
    × All
        (InHost view
          (get_struct_scratch (2 ^ 21) state + 2 ^ 30)
          copied.wasm_sbx
          (clean_up env' space fields view (get_struct_scratch (2 ^ 21) state) copied).wasm_sbx)
        fields
meta_struct_translator_syncs_example =
    meta_struct_translator_syncs env' space fields state copied copied "crunch" (2 ^ 21)
      (record {
        wasm_scratch = tag_wasm i386 (get_struct_scratch (2 ^ 21) state);
        cleanup = some (clean_up env' space fields view (get_struct_scratch (2 ^ 21) state));
      })
      (clean_up env' space fields view (get_struct_scratch (2 ^ 21) state)) (λ mem w. refl)
      (unfold get_unsandboxed_pointer has_tag into_wasm get_struct_scratch in
        ((inl (omega arith), tt), (inl (omega arith), tt), (tt, tt, tt)))
      (unfold get_unsandboxed_pointer has_tag back_to_host get_struct_scratch in
        ((inl (omega arith), tt), (inr (omega arith), tt), (tt, tt, tt)))
      (unfold meta_struct_translator get_struct_scratch in refl) refl refl
