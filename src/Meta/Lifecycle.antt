-- ===== src/Meta/Lifecycle.antt =====
-- `impl_create_sandbox` and `impl_destroy_sandbox` of include/rlbox_meta_sandbox.hpp: both backends come
-- up or neither, and the map from process sandboxes to their owners follows.
pub mod Owners
use rlbox_dynamic_sandbox.Common.{ℕ, Bool, true, false, List, [], ◌∷◌, ◌==◌, if◌then◌else◌}
use rlbox_dynamic_sandbox.Meta.State.{Backend, Meta, Env}
use rlbox_dynamic_sandbox.Meta.Callbacks.{MetaMap}

-- `process_to_meta_map()[p] = m`
unfoldable pub assign_meta : ℕ → ℕ → MetaMap → MetaMap
assign_meta p m [] = (p, m) ∷ []
assign_meta p m ((q, n) ∷ rest) = if q == p then (q, m) ∷ rest else (q, n) ∷ assign_meta p m rest

-- `process_to_meta_map().erase(p)`
unfoldable pub erase_meta : ℕ → MetaMap → MetaMap
erase_meta p [] = []
erase_meta p ((q, n) ∷ rest) = if q == p then erase_meta p rest else (q, n) ∷ erase_meta p rest

module _ {P W D Q : Type 0} (env : Env P W D Q) where
  open env use {process_ops, wasm_ops}

  -- `self` is the address of the meta-sandbox and `proc` that of its process sandbox.
  unfoldable pub create_sandbox : ℕ → ℕ → Meta P W D Q → MetaMap → Bool × Meta P W D Q × MetaMap
  create_sandbox self proc m metas =
      let (wasm_up, w) = wasm_ops.create_sandbox m.wasm_sbx in
      let (process_up, s) = process_ops.create_sandbox m.process_sbx in
      if wasm_up
      then if process_up
        then (true, record m { process_sbx = s; wasm_sbx = w }, assign_meta proc self metas)
        else (false, record m { process_sbx = s; wasm_sbx = wasm_ops.destroy_sandbox w }, metas)
      else (false, record m { wasm_sbx = w }, metas)

  unfoldable pub destroy_sandbox : ℕ → Meta P W D Q → MetaMap → Meta P W D Q × MetaMap
  destroy_sandbox proc m metas = (
    record m {
      wasm_sbx = wasm_ops.destroy_sandbox m.wasm_sbx;
      process_sbx = process_ops.destroy_sandbox m.process_sbx;
    },
    erase_meta proc metas,
  )
