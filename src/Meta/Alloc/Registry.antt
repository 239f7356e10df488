-- ===== src/Meta/Alloc/Registry.antt =====
-- The registry of owners of include/rlbox_meta_sandbox.hpp stays coherent under allocation and release.
use rlbox_dynamic_sandbox.Common.{
  ℕ, ◌<◌, ◌^◌, ◌≡◌, sym, subst, arith, false, none, some, inl, inr, Bool-cases, ◌==◌,
}
use rlbox_dynamic_sandbox.Meta.Types.{MetaBackend, MetaBackend-cases, process, wasm, ok}
use rlbox_dynamic_sandbox.Meta.Tag.{meta_tag_wasm, has_tag, tag_owner, tag_wasm}
use rlbox_dynamic_sandbox.Meta.Tag.Laws.{tag_round_trip}
use rlbox_dynamic_sandbox.Meta.Symbols.{alloc_context}
use rlbox_dynamic_sandbox.Meta.State.{StructTypeInfo, Meta, Env}
use rlbox_dynamic_sandbox.Meta.Alloc.{
  co_allocate, publish, malloc_on_wasm, malloc_on_process, malloc_in_sandbox, registered_as,
  free_in_sandbox,
}

module _ {P W D Q : Type 0} (env : Env P W D Q) where
  open env use {host}

  -- The recorded owner of every key is the one that its tag names, and a struct scratch hangs on a
  -- recorded allocation only.
  pub record IsCoherent (m : Meta P W D Q) : Type 0 where
    pub owner_tagged : (p : ℕ) (b : MetaBackend) → m.alloc_owner p ≡ some b → tag_owner host p ≡ b
    pub scratch_owned : (p : ℕ) → m.alloc_owner p ≡ none → m.struct_allocs p ≡ none

  -- What the code relies on the wasm backend for: the offsets that it hands out are 32-bit words
  -- that leave the tag bit free.
  pub record HasUntaggedOffsets : Type 0 where
    pub malloc_untagged :
        (w : W) (n : ℕ) → (env.wasm_ops.malloc_in_sandbox w n).0 < meta_tag_wasm host
    pub malloc_narrow : (w : W) (n : ℕ) → (env.wasm_ops.malloc_in_sandbox w n).0 < 2 ^ 32

  pub co_allocate-owner :
      (info : StructTypeInfo) (p : ℕ) (m : Meta P W D Q)
      → (co_allocate env info p m).alloc_owner ≡ m.alloc_owner
  unfolding co_allocate
  co_allocate-owner info p m = ground arith

  pub publish-IsCoherent :
      (b : MetaBackend) (p n : ℕ) (m : Meta P W D Q) {q : ℕ} {m' : Meta P W D Q}
      → IsCoherent m
      → tag_owner host p ≡ b
      → publish env b p n m ≡ ok (q, m')
      → IsCoherent m'
  unfolding publish co_allocate
  publish-IsCoherent b p n m {q} {m'} v tagged e = record {
    owner_tagged = λ k c h. ground (arith, v.owner_tagged k c);
    scratch_owned = λ k h. ground (arith, v.scratch_owned k);
  }

  pub tag_owner-tag_wasm :
      (p : ℕ) → p < meta_tag_wasm host → tag_owner host (tag_wasm host p) ≡ wasm
  tag_owner-tag_wasm p lt = (tag_round_trip host p lt).4

  pub owner_untagged : (p : ℕ) → has_tag host p ≡ false → tag_owner host p ≡ process
  unfolding tag_owner
  owner_untagged p h = rw h

  -- Only the two maps matter.
  transfer :
      (m m' : Meta P W D Q)
      → m'.alloc_owner ≡ m.alloc_owner
      → m'.struct_allocs ≡ m.struct_allocs
      → IsCoherent m
      → IsCoherent m'
  transfer m m' a s v = record {
    owner_tagged = λ k c h. v.owner_tagged k c (subst (λ t. t k ≡ some c) a h);
    scratch_owned =
        λ k h. subst (λ t. t k ≡ none) (sym s) (v.scratch_owned k (subst (λ t. t k ≡ none) a h));
  }

  malloc_on_wasm-IsCoherent :
      (n : ℕ) (m : Meta P W D Q) {p : ℕ} {m' : Meta P W D Q}
      → HasUntaggedOffsets
      → IsCoherent m
      → malloc_on_wasm env n m ≡ ok (p, m')
      → IsCoherent m'
  unfolding malloc_on_wasm
  malloc_on_wasm-IsCoherent n m {p} {m'} offsets v e =
      let raw = (env.wasm_ops.malloc_in_sandbox m.wasm_sbx n).0 in
      elim (Bool-cases (raw == 0)) [
        | inl z ↦ transfer m m' (ground arith) (ground arith) v
        | inr nz ↦
            publish-IsCoherent wasm (tag_wasm host raw) n _ {q = p}
              (record { owner_tagged = v.owner_tagged; scratch_owned = v.scratch_owned })
              (tag_owner-tag_wasm raw (offsets.malloc_untagged m.wasm_sbx n)) (rw nz at e)
      ]

  malloc_on_process-IsCoherent :
      (n : ℕ) (m : Meta P W D Q) {p : ℕ} {m' : Meta P W D Q}
      → IsCoherent m
      → malloc_on_process env n m ≡ ok (p, m')
      → IsCoherent m'
  unfolding malloc_on_process
  malloc_on_process-IsCoherent n m {p} {m'} v e =
      let raw = (env.process_ops.malloc_in_sandbox m.process_sbx n).0 in
      elim (Bool-cases (raw == 0)) [
        | inl z ↦ transfer m m' (ground arith) (ground arith) v
        | inr nz ↦ elim (Bool-cases (has_tag host raw)) [
          | inl bad ↦ absurd (ground arith)
          | inr good ↦
              publish-IsCoherent process raw n _ {q = p}
                (record { owner_tagged = v.owner_tagged; scratch_owned = v.scratch_owned })
                (owner_untagged raw good) (rw (nz, good) at e)
        ]
      ]

  -- An allocation that returns keeps the registry coherent, whichever backend the policy picks: the
  -- recorded owner of every key is the one that its tag names, and a struct scratch hangs on a
  -- recorded allocation only. This is for wasm offsets that leave the tag bit free.
  pub malloc_in_sandbox-IsCoherent :
      (n : ℕ) (m : Meta P W D Q) {p : ℕ} {m' : Meta P W D Q}
      → HasUntaggedOffsets
      → IsCoherent m
      → malloc_in_sandbox env n m ≡ ok (p, m')
      → IsCoherent m'
  unfolding malloc_in_sandbox
  malloc_in_sandbox-IsCoherent n m {p} {m'} offsets v e =
      let d = env.decide m.policy (alloc_context env m n) in
      let v' : IsCoherent (record m { policy = d.1 }) = record {
        owner_tagged = v.owner_tagged;
        scratch_owned = v.scratch_owned;
      } in
      elim (MetaBackend-cases d.0) [
        | inl at_process ↦
            malloc_on_process-IsCoherent n _ {p = p} v' (rw (at_process, malloc_in_sandbox) at e)
        | inr at_wasm ↦
            malloc_on_wasm-IsCoherent n _ {p = p} offsets v' (rw (at_wasm, malloc_in_sandbox) at e)
      ]

  -- A release keeps the registry coherent, whether the pointer is registered, a bare wasm offset or
  -- unknown.
  pub free_in_sandbox-IsCoherent :
      (p : ℕ) (m : Meta P W D Q) → IsCoherent m → IsCoherent (free_in_sandbox env p m)
  unfolding free_in_sandbox registered_as
  free_in_sandbox-IsCoherent p m v = record {
    owner_tagged = λ k c h. ground (arith, v.owner_tagged k c);
    scratch_owned = λ k h. ground (arith, v.scratch_owned k);
  }
