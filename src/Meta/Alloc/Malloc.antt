-- ===== src/Meta/Alloc/Malloc.antt =====
-- What an allocation through include/rlbox_meta_sandbox.hpp does: who owns the result, what else
-- changes, and when a scratch comes with it.
use rlbox_dynamic_sandbox.Common.{ℕ, ◌≡◌, ◌≢◌, arith, true, some, inl, inr, Bool-cases, ◌==◌}
use rlbox_dynamic_sandbox.Meta.Types.{MetaBackend, MetaBackend-cases, process, wasm, ok}
use rlbox_dynamic_sandbox.Meta.Tag.{has_tag, tag_owner, tag_wasm}
use rlbox_dynamic_sandbox.Meta.Symbols.{alloc_context}
use rlbox_dynamic_sandbox.Meta.State.{Meta, Env}
use rlbox_dynamic_sandbox.Meta.Alloc.{
  owner_of, co_allocate, publish, malloc_on_wasm, malloc_on_process, malloc_in_sandbox,
}
use rlbox_dynamic_sandbox.Meta.Alloc.Registry.{
  HasUntaggedOffsets, tag_owner-tag_wasm, owner_untagged,
}

module _ {P W D Q : Type 0} (env : Env P W D Q) where
  open env use {host}

  -- The pointer has its owner recorded and tagged, and the other entries are kept.
  record Owned (b : MetaBackend) (p : ℕ) (m m' : Meta P W D Q) : Type 0 where
    recorded : m'.alloc_owner p ≡ some b
    tagged : tag_owner host p ≡ b
    kept : (q : ℕ) → q ≢ p → m'.alloc_owner q ≡ m.alloc_owner q

  publish-Owned :
      (b : MetaBackend) (p n : ℕ) (m : Meta P W D Q) {q : ℕ} {m' : Meta P W D Q}
      → tag_owner host p ≡ b
      → publish env b p n m ≡ ok (q, m')
      → Owned b q m m'
  unfolding publish co_allocate
  publish-Owned b p n m {q} {m'} t e = record {
    recorded = ground arith;
    tagged = ground arith;
    kept = λ k ne. ground (arith, ne);
  }

  malloc_on_wasm-Owned :
      (n : ℕ) (m : Meta P W D Q) {p : ℕ} {m' : Meta P W D Q}
      → HasUntaggedOffsets env
      → malloc_on_wasm env n m ≡ ok (p, m')
      → p ≢ 0
      → Owned wasm p m m'
  unfolding malloc_on_wasm
  malloc_on_wasm-Owned n m {p} {m'} offsets e nonnull =
      let raw = (env.wasm_ops.malloc_in_sandbox m.wasm_sbx n).0 in
      elim (Bool-cases (raw == 0)) [
        | inl z ↦ absurd (ground arith)
        | inr nz ↦
            let o =
              publish-Owned wasm (tag_wasm host raw) n _ {q = p}
                (tag_owner-tag_wasm env raw (offsets.malloc_untagged m.wasm_sbx n)) (rw nz at e) in
            record { recorded = o.recorded; tagged = o.tagged; kept = o.kept }
      ]

  malloc_on_process-Owned :
      (n : ℕ) (m : Meta P W D Q) {p : ℕ} {m' : Meta P W D Q}
      → malloc_on_process env n m ≡ ok (p, m')
      → p ≢ 0
      → Owned process p m m'
  unfolding malloc_on_process
  malloc_on_process-Owned n m {p} {m'} e nonnull =
      let raw = (env.process_ops.malloc_in_sandbox m.process_sbx n).0 in
      elim (Bool-cases (raw == 0)) [
        | inl z ↦ absurd (ground arith)
        | inr nz ↦ elim (Bool-cases (has_tag host raw)) [
          | inl bad ↦ absurd (ground arith)
          | inr good ↦
              let o =
                publish-Owned process raw n _ {q = p} (owner_untagged env raw good)
                  (rw (nz, good) at e) in
              record { recorded = o.recorded; tagged = o.tagged; kept = o.kept }
        ]
      ]

  malloc-Owned :
      (n : ℕ) (m : Meta P W D Q) {p : ℕ} {m' : Meta P W D Q}
      → HasUntaggedOffsets env
      → malloc_in_sandbox env n m ≡ ok (p, m')
      → p ≢ 0
      → Owned (env.decide m.policy (alloc_context env m n)).0 p m m'
  unfolding malloc_in_sandbox
  malloc-Owned n m {p} {m'} offsets e nonnull =
      let d = env.decide m.policy (alloc_context env m n) in
      elim (MetaBackend-cases d.0) [
        | inl c ↦
            let o = malloc_on_process-Owned n _ {p = p} (rw (c, malloc_in_sandbox) at e) nonnull in
            rw c (record { recorded = o.recorded; tagged = o.tagged; kept = o.kept })
        | inr c ↦
            let o =
              malloc_on_wasm-Owned n _ {p = p} offsets (rw (c, malloc_in_sandbox) at e) nonnull in
            rw c (record { recorded = o.recorded; tagged = o.tagged; kept = o.kept })
      ]

  -- A successful allocation that is not null belongs to the backend that the policy picked for the
  -- allocation: the registry says so, the tag of the pointer says so, and any other pointer keeps its
  -- entry, given that the wasm backend's offsets leave the tag bit free.
  pub malloc_owner :
      (n : ℕ) (m : Meta P W D Q) {p : ℕ} {m' : Meta P W D Q} (q : ℕ)
      → HasUntaggedOffsets env
      → malloc_in_sandbox env n m ≡ ok (p, m')
      → p ≢ 0
      → q ≢ p
      → let b = (env.decide m.policy (alloc_context env m n)).0 in
        (owner_of env m' p ≡ (true, b))
        × (tag_owner host p ≡ b)
        × (m'.alloc_owner q ≡ m.alloc_owner q)
  unfolding owner_of
  malloc_owner n m {p} {m'} q offsets e nonnull other =
      let o = malloc-Owned n m {p = p} {m' = m'} offsets e nonnull in
      (rw (o.recorded, owner_of), o.tagged, o.kept q other)
