-- ===== src/Meta/Alloc/Tests.antt =====
-- Runs of allocation and release, and the theorems about them at a concrete sandbox.
use rlbox_dynamic_sandbox.Common.{ℕ, ◌+◌, ◌^◌, ◌≡◌, refl, arith, true, some, none, insert}
use rlbox_dynamic_sandbox.Meta.Types.{MetaBackend, process, wasm, x86_64, ok, size_inc}
use rlbox_dynamic_sandbox.Meta.Tag.{tag_wasm, tag_owner}
use rlbox_dynamic_sandbox.Meta.State.{Meta, StructAllocInfo}
use rlbox_dynamic_sandbox.Meta.Policy.{AdaptiveState}
use rlbox_dynamic_sandbox.Meta.Testbed.{env, meta_at}
use rlbox_dynamic_sandbox.Meta.Symbols.{alloc_context}
use rlbox_dynamic_sandbox.Meta.Alloc.{
  malloc_in_sandbox, malloc_on_wasm, publish, co_allocate, matching, free_in_sandbox, owner_of,
}
use rlbox_dynamic_sandbox.Meta.Alloc.Registry.{
  IsCoherent, HasUntaggedOffsets, malloc_in_sandbox-IsCoherent, free_in_sandbox-IsCoherent,
}
use rlbox_dynamic_sandbox.Meta.Alloc.Malloc.{malloc_owner}
use rlbox_dynamic_sandbox.Meta.Policy.{adaptive_policy}

abbrev Sandbox : Type 0
Sandbox = Meta ℕ ℕ ℕ (AdaptiveState ℕ)

abbrev stream_info : StructAllocInfo
stream_info = record { wasm_scratch = 88; translator = some 0 }

abbrev stream_pointer : ℕ
stream_pointer = 2 ^ 63 + 64

-- The sandbox that prefers wasm, after an allocation of 24 bytes.
abbrev allocated : Sandbox
allocated = record (meta_at wasm) {
  wasm_sbx = 104;
  mallocs_on_wasm = 1;
  alloc_owner = insert stream_pointer wasm (meta_at wasm).alloc_owner;
  struct_allocs = insert stream_pointer stream_info (meta_at wasm).struct_allocs;
}

offsets : HasUntaggedOffsets env
offsets = record { malloc_untagged = λ w n. omega arith; malloc_narrow = λ w n. omega arith }

allocates : malloc_in_sandbox env 24 (meta_at wasm) ≡ ok (stream_pointer, allocated)
unfolding malloc_in_sandbox malloc_on_wasm publish co_allocate matching tag_wasm adaptive_policy
    alloc_context size_inc
allocates = refl

meta-IsCoherent : (b : MetaBackend) → IsCoherent env (meta_at b)
meta-IsCoherent b = record { owner_tagged = λ p c h. cc; scratch_owned = λ p h. refl }

malloc_in_sandbox-IsCoherent_example : IsCoherent env allocated
malloc_in_sandbox-IsCoherent_example =
    malloc_in_sandbox-IsCoherent env 24 (meta_at wasm) {p = stream_pointer} offsets
      (meta-IsCoherent wasm) allocates

free_in_sandbox-IsCoherent_example : IsCoherent env (free_in_sandbox env 4096 (meta_at process))
free_in_sandbox-IsCoherent_example =
    free_in_sandbox-IsCoherent env 4096 (meta_at process) (meta-IsCoherent process)

malloc_owner_example :
    (owner_of env allocated stream_pointer ≡ (true, wasm))
    × (tag_owner x86_64 stream_pointer ≡ wasm)
    × (allocated.alloc_owner 5 ≡ none)
unfolding adaptive_policy alloc_context
malloc_owner_example =
    malloc_owner env 24 (meta_at wasm) {p = stream_pointer} {m' = allocated} 5 offsets allocates
      (omega arith) (omega arith)
