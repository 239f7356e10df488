-- ===== src/Meta/Pointers.antt =====
-- Pointer translation and membership on the meta-sandbox (include/rlbox_meta_sandbox.hpp). Addresses
-- are numbers, and null is 0.
pub mod RoundTrip
pub mod Regions
mod Tests
use rlbox_dynamic_sandbox.Common.{
  ℕ, ◌%◌, ◌^◌, Bool, true, false, not, ◌&&◌, ◌||◌, ltb, ◌==◌, if◌then◌else◌,
}
use rlbox_dynamic_sandbox.Meta.Tag.{has_tag, tag_strip}
use rlbox_dynamic_sandbox.Meta.State.{Backend, Meta, Env}
use rlbox_dynamic_sandbox.Meta.Alloc.{to_wasm_pointer}

module _ {P W D Q : Type 0} (env : Env P W D Q) where
  open env use {host, process_ops, wasm_ops}

  -- A tagged pointer is wasm's; an untagged one below the size of wasm's memory is taken for one that
  -- has lost its tag.
  unfoldable pub get_unsandboxed_pointer : Meta P W D Q → ℕ → ℕ
  get_unsandboxed_pointer m p =
      if p == 0
      then 0
      else if has_tag host p
      then wasm_ops.get_unsandboxed_pointer m.wasm_sbx (to_wasm_pointer (tag_strip host p))
      else if ltb p (wasm_ops.get_total_memory m.wasm_sbx)
      then wasm_ops.get_unsandboxed_pointer m.wasm_sbx (to_wasm_pointer p)
      else process_ops.get_unsandboxed_pointer m.process_sbx p

  unfoldable pub get_sandboxed_pointer : Meta P W D Q → ℕ → ℕ
  get_sandboxed_pointer m p =
      if wasm_ops.is_pointer_in_sandbox_memory m.wasm_sbx p
      then wasm_ops.get_sandboxed_pointer m.wasm_sbx p
      else process_ops.get_sandboxed_pointer m.process_sbx p

  unfoldable pub is_pointer_in_sandbox_memory : Meta P W D Q → ℕ → Bool
  is_pointer_in_sandbox_memory m p =
      if process_ops.is_pointer_in_sandbox_memory m.process_sbx p
      then true
      else wasm_ops.is_pointer_in_sandbox_memory m.wasm_sbx p

  unfoldable pub is_pointer_in_app_memory : Meta P W D Q → ℕ → Bool
  unfolding is_pointer_in_sandbox_memory
  is_pointer_in_app_memory m p = not (is_pointer_in_sandbox_memory m p)

  unfoldable pub get_total_memory : Meta P W D Q → ℕ
  get_total_memory m = process_ops.get_total_memory m.process_sbx

  unfoldable pub get_memory_location : Meta P W D Q → ℕ
  get_memory_location m = process_ops.get_memory_location m.process_sbx

  -- The static forms find the sandbox through an example pointer.
  unfoldable pub get_unsandboxed_pointer_no_ctx : (ℕ → Meta P W D Q) → ℕ → ℕ → ℕ
  unfolding get_unsandboxed_pointer
  get_unsandboxed_pointer_no_ctx finder p example =
      if p == 0 then 0 else get_unsandboxed_pointer (finder example) p

  unfoldable pub get_sandboxed_pointer_no_ctx : (ℕ → Meta P W D Q) → ℕ → ℕ → ℕ
  unfolding get_sandboxed_pointer
  get_sandboxed_pointer_no_ctx finder p example =
      if p == 0 then 0 else get_sandboxed_pointer (finder example) p

-- `impl_is_in_same_sandbox`: the finder gives the address of the meta-sandbox of a pointer, or 0, and
-- `in_wasm` tells whether the pointer lies in that sandbox's wasm memory.
unfoldable pub is_in_same_sandbox : (ℕ → ℕ) → (ℕ → ℕ → Bool) → ℕ → ℕ → Bool
is_in_same_sandbox finder in_wasm p1 p2 =
    let s1 : ℕ = if p1 == 0 then 0 else finder p1 in
    let s2 : ℕ = if p2 == 0 then 0 else finder p2 in
    if (p1 == 0) && (p2 == 0)
    then true
    else if not (s1 == s2)
    then false
    else if s1 == 0
    then true
    else same (in_wasm s1 p1) (in_wasm s2 p2)
  where
    same : Bool → Bool → Bool
    same true b = b
    same false b = not b
