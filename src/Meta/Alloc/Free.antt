-- ===== src/Meta/Alloc/Free.antt =====
-- What a release through include/rlbox_meta_sandbox.hpp does: which backend takes the memory back, and
-- what the registry forgets.
use rlbox_dynamic_sandbox.Common.{ℕ, ◌<◌, ◌≡◌, ◌≢◌, arith, none, some}
use rlbox_dynamic_sandbox.Meta.Types.{MetaBackend}
use rlbox_dynamic_sandbox.Meta.Tag.{meta_tag_wasm, tag_wasm}
use rlbox_dynamic_sandbox.Meta.Tag.Laws.{has_tag_clear, tag_wasm_clear}
use rlbox_dynamic_sandbox.Meta.State.{Meta, Env}
use rlbox_dynamic_sandbox.Meta.Alloc.{registered_as, free_in_sandbox}

module _ {P W D Q : Type 0} (env : Env P W D Q) where
  open env use {host, wasm_ops, process_ops}

  registered_untagged :
      (raw : ℕ) (m : Meta P W D Q) (b : MetaBackend)
      → raw < meta_tag_wasm host
      → m.alloc_owner raw ≡ none
      → m.alloc_owner (tag_wasm host raw) ≡ some b
      → registered_as env m raw ≡ (tag_wasm host raw, b)
  unfolding registered_as
  registered_untagged raw m b low bare owned =
      rw (bare, registered_as, has_tag_clear host raw low, owned)

  registered_tagged :
      (raw : ℕ) (m : Meta P W D Q) (b : MetaBackend)
      → m.alloc_owner (tag_wasm host raw) ≡ some b
      → registered_as env m (tag_wasm host raw) ≡ (tag_wasm host raw, b)
  unfolding registered_as
  registered_tagged raw m b owned = rw (owned, registered_as)

  -- A wasm allocation may be released by its bare offset, if no allocation of the process backend is
  -- registered at that number: the effect is that of its tagged pointer.
  pub free_untagged :
      (raw : ℕ) (m : Meta P W D Q) (b : MetaBackend)
      → raw ≢ 0
      → raw < meta_tag_wasm host
      → m.alloc_owner raw ≡ none
      → m.alloc_owner (tag_wasm host raw) ≡ some b
      → free_in_sandbox env raw m ≡ free_in_sandbox env (tag_wasm host raw) m
  unfolding free_in_sandbox
  free_untagged raw m b nonnull low bare owned =
      let t = tag_wasm_clear host raw low in
      let above : tag_wasm host raw ≢ 0 = omega arith in
      ground (arith, registered_untagged raw m b low bare owned, registered_tagged raw m b owned)
