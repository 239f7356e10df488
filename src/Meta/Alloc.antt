-- ===== src/Meta/Alloc.antt =====
-- Allocation through the meta-sandbox (include/rlbox_meta_sandbox.hpp): which backend serves it, the
-- registry of owners, and the wasm scratch that goes with an allocation of a registered struct.
pub mod Registry
pub mod Malloc
pub mod Free
pub mod Structs
mod Tests
use rlbox_dynamic_sandbox.Common.{
  ℕ, ◌%◌, ◌^◌, Bool, true, false, List, [], ◌∷◌, ◌++◌, Option, none, some, String, str_eq, ◌==◌,
  if◌then◌else◌, insert, erase,
}
use rlbox_dynamic_sandbox.Meta.Types.{
  MetaBackend, process, wasm, Host, size_inc, Float, PolicyContext, Outcome, ok, aborts, Abort,
  tag_collision, ambiguous_struct,
}
use rlbox_dynamic_sandbox.Meta.Tag.{has_tag, tag_owner, tag_strip, tag_wasm}
use rlbox_dynamic_sandbox.Meta.State.{Backend, StructTypeInfo, StructAllocInfo, Meta, Env}
use rlbox_dynamic_sandbox.Meta.Symbols.{alloc_context}

-- `static_cast<rlbox_wasm2c_sandbox::T_PointerType>`, a 32-bit word
abbrev pub to_wasm_pointer : ℕ → ℕ
to_wasm_pointer p = p % 2 ^ 32

-- The registered types of a size.
unfoldable pub matching : ℕ → List StructTypeInfo → List StructTypeInfo
matching n [] = []
matching n (t ∷ ts) = if t.host_size == n then t ∷ matching n ts else matching n ts

unfoldable pub replace_type : StructTypeInfo → List StructTypeInfo → List StructTypeInfo
replace_type new [] = new ∷ []
replace_type new (t ∷ ts) =
    if str_eq t.symbol new.symbol
    then record new { symbol = t.symbol } ∷ ts
    else t ∷ replace_type new ts

module _ {P W D Q : Type 0} where
  -- The new entry takes the place of one with its symbol, or goes to the end.
  unfoldable pub register_struct_type : StructTypeInfo → Meta P W D Q → Meta P W D Q
  register_struct_type new m = record m { struct_types = replace_type new m.struct_types }

  unfoldable pub get_struct_scratch : ℕ → Meta P W D Q → ℕ
  get_struct_scratch p m = elim (m.struct_allocs p) [ none ↦ 0 | some info ↦ info.wasm_scratch ]

module _ {P W D Q : Type 0} (env : Env P W D Q) where
  open env use {host, process_ops, wasm_ops}

  unfoldable pub owner_of : Meta P W D Q → ℕ → Bool × MetaBackend
  owner_of m p = elim (m.alloc_owner p) [
    | some owner ↦ (true, owner)
    | none ↦ if has_tag host p then (false, process) else elim (m.alloc_owner (tag_wasm host p)) [
      | some owner ↦ (true, owner)
      | none ↦ (false, process)
    ]
  ]

  -- The scratch of a registered struct; `wasm_size` 0 means none, and a failed allocation is let be.
  unfoldable pub co_allocate : StructTypeInfo → ℕ → Meta P W D Q → Meta P W D Q
  co_allocate info p m =
      let (scratch, w) = wasm_ops.malloc_in_sandbox m.wasm_sbx info.wasm_size in
      if info.wasm_size == 0
      then m
      else if scratch == 0
      then record m { wasm_sbx = w }
      else record m {
        wasm_sbx = w;
        struct_allocs =
            insert p (record { wasm_scratch = scratch; translator = info.translator })
              m.struct_allocs;
      }

  -- From `alloc_owner[p] = choice` on.
  unfoldable pub publish : MetaBackend → ℕ → ℕ → Meta P W D Q → Outcome (ℕ × Meta P W D Q)
  publish choice p n m =
      let m' = record m { alloc_owner = insert p choice m.alloc_owner } in
      elim (matching n m.struct_types) [
        | [] ↦ ok (p, m')
        | info ∷ [] ↦ ok (p, co_allocate info p m')
        | _ ∷ _ ∷ _ ↦ aborts ambiguous_struct
      ]

  unfoldable pub malloc_on_wasm : ℕ → Meta P W D Q → Outcome (ℕ × Meta P W D Q)
  malloc_on_wasm n m =
      let (raw, w) = wasm_ops.malloc_in_sandbox m.wasm_sbx n in
      if raw == 0
      then ok (0, record m { wasm_sbx = w })
      else publish wasm (tag_wasm host raw) n
          (record m { wasm_sbx = w; mallocs_on_wasm = size_inc host m.mallocs_on_wasm })

  unfoldable pub malloc_on_process : ℕ → Meta P W D Q → Outcome (ℕ × Meta P W D Q)
  malloc_on_process n m =
      let (p, s) = process_ops.malloc_in_sandbox m.process_sbx n in
      if p == 0
      then ok (0, record m { process_sbx = s })
      else if has_tag host p
      then aborts tag_collision
      else publish process p n
          (record m { process_sbx = s; mallocs_on_process = size_inc host m.mallocs_on_process })

  unfoldable pub malloc_in_sandbox : ℕ → Meta P W D Q → Outcome (ℕ × Meta P W D Q)
  malloc_in_sandbox n m =
      let (choice, q) = env.decide m.policy (alloc_context env m n) in
      let m' = record m { policy = q } in
      elim choice [ wasm ↦ malloc_on_wasm n m' | process ↦ malloc_on_process n m' ]

  -- The key under which the pointer is registered, and its owner.
  unfoldable pub registered_as : Meta P W D Q → ℕ → ℕ × MetaBackend
  registered_as m p = elim (m.alloc_owner p) [
    | some owner ↦ (p, owner)
    | none ↦
        if has_tag host p then (p, tag_owner host p) else elim (m.alloc_owner (tag_wasm host p)) [
          | some owner ↦ (tag_wasm host p, owner)
          | none ↦ (p, tag_owner host p)
        ]
  ]

  unfoldable pub free_scratch : ℕ → W → W
  free_scratch scratch w = if scratch == 0 then w else wasm_ops.free_in_sandbox w scratch

  unfoldable pub free_in_sandbox : ℕ → Meta P W D Q → Meta P W D Q
  free_in_sandbox p m =
      let (key, owner) = registered_as m p in
      let raw = tag_strip host key in
      let w = free_scratch (get_struct_scratch key m) m.wasm_sbx in
      let m' = record m {
        alloc_owner = erase key m.alloc_owner;
        struct_allocs = erase key m.struct_allocs;
        wasm_sbx = w;
      } in
      if p == 0 then m else elim owner [
        | wasm ↦ record m' { wasm_sbx = wasm_ops.free_in_sandbox w (to_wasm_pointer raw) }
        | process ↦ record m' { process_sbx = process_ops.free_in_sandbox m.process_sbx raw }
      ]
