-- ===== src/Meta/Alloc/Structs.antt =====
-- The wasm scratch that goes with an allocation of a registered struct
-- (include/rlbox_meta_sandbox.hpp).
use rlbox_dynamic_sandbox.Common.{ℕ, ◌≡◌, ◌≢◌, arith, List, [], ◌∷◌, none, inl, inr}
use rlbox_dynamic_sandbox.Meta.Types.{MetaBackend, MetaBackend-cases, process, wasm, ok}
use rlbox_dynamic_sandbox.Meta.Symbols.{alloc_context}
use rlbox_dynamic_sandbox.Meta.State.{StructTypeInfo, Meta, Env}
use rlbox_dynamic_sandbox.Meta.Alloc.{
  matching, co_allocate, publish, malloc_on_wasm, malloc_on_process, malloc_in_sandbox,
  get_struct_scratch,
}

module _ {P W D Q : Type 0} (env : Env P W D Q) where
  open env use {wasm_ops}

  -- The wasm backend when the scratch is asked for.
  abbrev pub wasm_after : MetaBackend → ℕ → W → W
  wasm_after process n w = w
  wasm_after wasm n w = (wasm_ops.malloc_in_sandbox w n).1

  -- A successful allocation that is not null, of a size that one registered type has, carries a scratch
  -- if that type asks for one and no scratch was left under the pointer: the one that the wasm backend
  -- gives at that moment, which is null if it gives none.
  pub malloc_scratch :
      (n : ℕ) (m : Meta P W D Q) (info : StructTypeInfo) {p : ℕ} {m' : Meta P W D Q}
      → matching n m.struct_types ≡ info ∷ []
      → info.wasm_size ≢ 0
      → m.struct_allocs p ≡ none
      → malloc_in_sandbox env n m ≡ ok (p, m')
      → p ≢ 0
      → let b = (env.decide m.policy (alloc_context env m n)).0 in
        get_struct_scratch p m'
        ≡ (wasm_ops.malloc_in_sandbox (wasm_after b n m.wasm_sbx) info.wasm_size).0
  unfolding malloc_in_sandbox malloc_on_wasm malloc_on_process publish co_allocate
      get_struct_scratch
  malloc_scratch n m info {p} {m'} one asks fresh e nonnull =
      elim (MetaBackend-cases (env.decide m.policy (alloc_context env m n)).0) [
        | inl c ↦ rw c (ground arith)
        | inr c ↦ rw c (ground arith)
      ]

  -- No allocation that is not null succeeds at a size that two registered types share.
  pub malloc_ambiguous :
      (n : ℕ) (m : Meta P W D Q) {t u : StructTypeInfo} {ts : List StructTypeInfo} {p : ℕ}
      {m' : Meta P W D Q}
      → matching n m.struct_types ≡ t ∷ u ∷ ts
      → malloc_in_sandbox env n m ≡ ok (p, m')
      → p ≡ 0
  unfolding malloc_in_sandbox malloc_on_wasm malloc_on_process publish
  malloc_ambiguous n m many e = ground arith
