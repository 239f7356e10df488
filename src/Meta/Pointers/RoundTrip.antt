-- ===== src/Meta/Pointers/RoundTrip.antt =====
-- Swizzling a pointer of include/rlbox_meta_sandbox.hpp out of a sandbox and back.
use rlbox_dynamic_sandbox.Common.{ℕ, ◌<◌, ◌≤◌, ◌^◌, ◌≡◌, ◌≢◌, ap, ◌∙◌, arith, true, false}
use rlbox_dynamic_sandbox.Meta.Tag.{meta_tag_wasm, tag_wasm}
use rlbox_dynamic_sandbox.Meta.Tag.Laws.{
  has_tag_clear, has_tag_set, tag_round_trip, tag_wasm_clear, tag_wasm-IsWord,
}
use rlbox_dynamic_sandbox.Meta.State.{Meta, Env}
use rlbox_dynamic_sandbox.Meta.Alloc.{to_wasm_pointer}
use rlbox_dynamic_sandbox.Meta.Pointers.{get_unsandboxed_pointer, get_sandboxed_pointer}

module _ {P W D Q : Type 0} (env : Env P W D Q) (m : Meta P W D Q) where
  open env use {host, process_ops, wasm_ops}

  -- What the code relies on the wasm backend for: the offset of an address in its memory is a 32-bit
  -- word below the memory's size, which leaves the tag bit free; the first offset is never handed out;
  -- and the offset leads back to the address.
  pub record HasLinearMemory : Type 0 where
    pub offset_in_memory :
        (p : ℕ)
        → wasm_ops.is_pointer_in_sandbox_memory m.wasm_sbx p ≡ true
        → wasm_ops.get_sandboxed_pointer m.wasm_sbx p < wasm_ops.get_total_memory m.wasm_sbx
    pub offset_back :
        (p : ℕ)
        → wasm_ops.is_pointer_in_sandbox_memory m.wasm_sbx p ≡ true
        → wasm_ops.get_unsandboxed_pointer m.wasm_sbx (wasm_ops.get_sandboxed_pointer m.wasm_sbx p)
          ≡ p
    pub memory_narrow : wasm_ops.get_total_memory m.wasm_sbx ≤ 2 ^ 32
    pub memory_untagged : wasm_ops.get_total_memory m.wasm_sbx ≤ meta_tag_wasm host

  resolve_offset :
      (o : ℕ)
      → HasLinearMemory
      → o ≢ 0
      → o < wasm_ops.get_total_memory m.wasm_sbx
      → (get_unsandboxed_pointer env m o ≡ wasm_ops.get_unsandboxed_pointer m.wasm_sbx o)
        × (get_unsandboxed_pointer env m (tag_wasm host o)
            ≡ wasm_ops.get_unsandboxed_pointer m.wasm_sbx o)
  unfolding get_unsandboxed_pointer
  resolve_offset o memory nonzero inside =
      let low : o < meta_tag_wasm host = omega (arith, memory.memory_untagged) in
      let narrow : o < 2 ^ 32 = omega (arith, memory.memory_narrow) in
      let small : to_wasm_pointer o ≡ o = omega arith in
      let plus = tag_wasm_clear host o low in
      let above : meta_tag_wasm host ≤ tag_wasm host o = omega arith in
      let t = has_tag_set host (tag_wasm host o) above (tag_wasm-IsWord host o low) in
      let stripped = (tag_round_trip host o low).5 in
      (
        ground (
          arith,
          has_tag_clear host o low,
          ap (wasm_ops.get_unsandboxed_pointer m.wasm_sbx) small,
        ),
        ground (arith, t, stripped, ap (wasm_ops.get_unsandboxed_pointer m.wasm_sbx) small),
      )

  -- An address in wasm memory that is not at offset 0 comes back from its bare offset, and from its
  -- tagged offset.
  pub unsandboxed-sandboxed_wasm :
      (p : ℕ)
      → HasLinearMemory
      → wasm_ops.is_pointer_in_sandbox_memory m.wasm_sbx p ≡ true
      → get_sandboxed_pointer env m p ≢ 0
      → (get_unsandboxed_pointer env m (get_sandboxed_pointer env m p) ≡ p)
        × (get_unsandboxed_pointer env m (tag_wasm host (get_sandboxed_pointer env m p)) ≡ p)
  unfolding get_sandboxed_pointer
  unsandboxed-sandboxed_wasm p memory inside nonzero =
      let o = wasm_ops.get_sandboxed_pointer m.wasm_sbx p in
      let there : get_sandboxed_pointer env m p ≡ o = rw inside in
      let r =
        resolve_offset o memory (λ z. nonzero (there ∙ z)) (memory.offset_in_memory p inside) in
      rw there (r.0 ∙ memory.offset_back p inside, r.1 ∙ memory.offset_back p inside)

  -- An address outside wasm memory comes back from the process side, if it has no tag bit and is not
  -- smaller than wasm's memory, with the process backend's translation, which is the identity.
  pub unsandboxed-sandboxed_process :
      (p : ℕ)
      → ((q : ℕ) → process_ops.get_sandboxed_pointer m.process_sbx q ≡ q)
      → ((q : ℕ) → process_ops.get_unsandboxed_pointer m.process_sbx q ≡ q)
      → wasm_ops.is_pointer_in_sandbox_memory m.wasm_sbx p ≡ false
      → p < meta_tag_wasm host
      → wasm_ops.get_total_memory m.wasm_sbx ≤ p
      → get_unsandboxed_pointer env m (get_sandboxed_pointer env m p) ≡ p
  unfolding get_unsandboxed_pointer get_sandboxed_pointer
  unsandboxed-sandboxed_process p out back outside low above =
      ground (arith, out p, back p, has_tag_clear host p low)
