-- ===== src/Meta/Pointers/Tests.antt =====
-- The theorems about pointer translation and membership at a concrete sandbox.
use rlbox_dynamic_sandbox.Common.{◌+◌, ◌^◌, ◌≡◌, ◌↔◌, refl, arith, true, ltb}
use rlbox_dynamic_sandbox.Meta.Types.{process, x86_64}
use rlbox_dynamic_sandbox.Meta.Tag.{tag_wasm}
use rlbox_dynamic_sandbox.Meta.Testbed.{env, meta_at}
use rlbox_dynamic_sandbox.Meta.Pointers.{
  get_unsandboxed_pointer, get_sandboxed_pointer, is_in_same_sandbox,
}
use rlbox_dynamic_sandbox.Meta.Pointers.Regions.{region, is_in_same_sandbox_iff}
use rlbox_dynamic_sandbox.Meta.Pointers.RoundTrip.{HasLinearMemory, unsandboxed-sandboxed_wasm}

memory : HasLinearMemory env (meta_at process)
memory = record {
  offset_in_memory = λ p h. ground arith;
  offset_back = λ p h. ground arith;
  memory_narrow = omega arith;
  memory_untagged = omega arith;
}

unsandboxed-sandboxed_wasm_example :
    let m = meta_at process in
    let o = get_sandboxed_pointer env m (2 ^ 40 + 64) in
    (get_unsandboxed_pointer env m o ≡ 2 ^ 40 + 64)
    × (get_unsandboxed_pointer env m (tag_wasm x86_64 o) ≡ 2 ^ 40 + 64)
unsandboxed-sandboxed_wasm_example =
    unsandboxed-sandboxed_wasm env (meta_at process) (2 ^ 40 + 64) memory refl
      (unfold get_sandboxed_pointer in (λ e. omega arith))

is_in_same_sandbox_iff_example :
    (is_in_same_sandbox (λ p. 7) (λ s p. ltb p 64) 32 128 ≡ true)
    ↔ (region (λ p. 7) (λ s p. ltb p 64) 32 ≡ region (λ p. 7) (λ s p. ltb p 64) 128)
is_in_same_sandbox_iff_example = is_in_same_sandbox_iff (λ p. 7) (λ s p. ltb p 64) 32 128
