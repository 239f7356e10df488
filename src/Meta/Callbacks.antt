-- ===== src/Meta/Callbacks.antt =====
-- Callbacks through include/rlbox_meta_sandbox.hpp: each is registered on both backends at once, under
-- the process trampoline's address, and recovered when it fires.
pub mod Register
mod Tests
use rlbox_dynamic_sandbox.Common.{
  ℕ, List, [], ◌∷◌, ◌++◌, Option, none, some, length, ◌==◌, if◌then◌else◌,
}
use rlbox_dynamic_sandbox.Meta.Types.{Outcome, ok, aborts, no_active_callback}
use rlbox_dynamic_sandbox.Meta.State.{Backend, CallbackRecord, Meta, Env}

abbrev pub Registry : Type 0
Registry = List (ℕ × CallbackRecord)

-- `callback_registry.find(handle)`
unfoldable pub find_callback : ℕ → Registry → Option CallbackRecord
find_callback handle [] = none
find_callback handle ((h, rec) ∷ rest) = if h == handle then some rec else find_callback handle rest

-- `callback_registry.emplace(handle, rec)`: an entry that is there stays.
unfoldable pub emplace_callback : ℕ → CallbackRecord → Registry → Registry
emplace_callback handle rec registry = elim (find_callback handle registry) [
  | none ↦ registry ++ ((handle, rec) ∷ [])
  | some _ ↦ registry
]

-- The scan of `impl_unregister_callback`: the first entry with the key goes.
unfoldable pub drop_key : ℕ → Registry → Registry
drop_key key [] = []
drop_key key ((h, rec) ∷ rest) = if rec.key == key then rest else (h, rec) ∷ drop_key key rest

module _ {P W D Q : Type 0} (env : Env P W D Q) where
  open env use {process_ops, wasm_ops}

  unfoldable pub register_callback : ℕ → ℕ → Meta P W D Q → ℕ × Meta P W D Q
  register_callback key callback m =
      let (proc_ptr, s) = process_ops.register_callback m.process_sbx key callback in
      let (slot, w) = wasm_ops.register_callback m.wasm_sbx key callback in
      if proc_ptr == 0 then (0, record m { process_sbx = s }) else (
        proc_ptr,
        record m {
          process_sbx = s;
          wasm_sbx = w;
          callback_registry =
              emplace_callback proc_ptr (record { wasm_slot = slot; key = key })
                m.callback_registry;
        },
      )

  unfoldable pub unregister_callback : ℕ → Meta P W D Q → Meta P W D Q
  unregister_callback key m = record m {
    callback_registry = drop_key key m.callback_registry;
    process_sbx = process_ops.unregister_callback m.process_sbx key;
    wasm_sbx = wasm_ops.unregister_callback m.wasm_sbx key;
  }

  unfoldable pub callbacks_registered : Meta P W D Q → ℕ
  callbacks_registered m = length m.callback_registry

-- `process_to_meta_map`: process sandboxes and the meta-sandboxes that own them, by address.
abbrev pub MetaMap : Type 0
MetaMap = List (ℕ × ℕ)

unfoldable pub find_meta : ℕ → MetaMap → Option ℕ
find_meta p [] = none
find_meta p ((q, m) ∷ rest) = if q == p then some m else find_meta p rest

-- `impl_get_executed_callback_sandbox_and_key`, from what the process backend published on this
-- thread (sandbox and key, 0 for null), the meta that is invoking wasm on it (0 for null), and the key
-- that the wasm backend gives.
unfoldable pub executed_callback : MetaMap → ℕ × ℕ → ℕ → ℕ → Outcome (ℕ × ℕ)
executed_callback metas (proc, proc_key) invoking wasm_key =
    let by_wasm : Outcome (ℕ × ℕ) =
      if invoking == 0 then aborts no_active_callback else ok (invoking, wasm_key) in
    if proc == 0
    then by_wasm
    else elim (find_meta proc metas) [ some meta ↦ ok (meta, proc_key) | none ↦ by_wasm ]
