-- ===== src/Meta/Lifecycle/Owners.antt =====
-- Which meta-sandbox a fired callback reaches over the life of its sandbox
-- (include/rlbox_meta_sandbox.hpp).
use rlbox_dynamic_sandbox.Common.{ℕ, ◌≡◌, ◌≢◌, ◌⊎◌, refl, arith, true, false, [], ◌∷◌, none, some}
use rlbox_dynamic_sandbox.Meta.Types.{ok}
use rlbox_dynamic_sandbox.Meta.State.{Meta, Env}
use rlbox_dynamic_sandbox.Meta.Callbacks.{MetaMap, find_meta, executed_callback}
use rlbox_dynamic_sandbox.Meta.Lifecycle.{assign_meta, erase_meta, create_sandbox, destroy_sandbox}

find_meta-assign_meta : (p m : ℕ) (metas : MetaMap) → find_meta p (assign_meta p m metas) ≡ some m
unfolding find_meta assign_meta
find_meta-assign_meta p m [] = ground arith
find_meta-assign_meta p m ((q, n) ∷ rest) = ground (arith, find_meta-assign_meta p m rest)

find_meta-erase_meta_ne :
    (p q : ℕ) (metas : MetaMap) → q ≢ p → find_meta q (erase_meta p metas) ≡ find_meta q metas
unfolding find_meta erase_meta
find_meta-erase_meta_ne p q [] ne = refl
find_meta-erase_meta_ne p q ((r, n) ∷ rest) ne = ground (arith, find_meta-erase_meta_ne p q rest ne)

find_meta-erase_meta : (p : ℕ) (metas : MetaMap) → find_meta p (erase_meta p metas) ≡ none
unfolding find_meta erase_meta
find_meta-erase_meta p [] = refl
find_meta-erase_meta p ((r, n) ∷ rest) = ground (arith, find_meta-erase_meta p rest)

find_meta-assign_meta_ne :
    (p q m : ℕ) (metas : MetaMap) → q ≢ p → find_meta q (assign_meta p m metas) ≡ find_meta q metas
unfolding find_meta assign_meta
find_meta-assign_meta_ne p q m [] ne = ground arith
find_meta-assign_meta_ne p q m ((r, n) ∷ rest) ne =
    ground (arith, find_meta-assign_meta_ne p q m rest ne)

module _ {P W D Q : Type 0} (env : Env P W D Q) where
  open env use {process_ops, wasm_ops}

  -- When a create fails, the owners' map is as it was, and either the wasm backend did not come up
  -- and the process backend was not touched, or the process backend did not come up and the wasm
  -- backend that had come up is destroyed again.
  pub create_both_or_neither :
      (self proc : ℕ) (m m' : Meta P W D Q) (metas metas' : MetaMap)
      → create_sandbox env self proc m metas ≡ (false, m', metas')
      → (metas' ≡ metas)
        × (((wasm_ops.create_sandbox m.wasm_sbx).0 ≡ false) × (m'.process_sbx ≡ m.process_sbx)
            ⊎ ((process_ops.create_sandbox m.process_sbx).0 ≡ false)
              × (m'.wasm_sbx ≡ wasm_ops.destroy_sandbox (wasm_ops.create_sandbox m.wasm_sbx).1))
  unfolding create_sandbox
  create_both_or_neither self proc m m' metas metas' e = ground arith

  -- From a successful create on, a callback that the process backend reports for this sandbox goes
  -- to its meta-sandbox with the reported key, whatever this thread is invoking on wasm; after a
  -- destroy it is treated like one that the process backend did not report. The callbacks of other
  -- process sandboxes go where they went, both times.
  pub fires_while_up :
      (self proc other key invoking wasm_key : ℕ) (m m' : Meta P W D Q) (metas metas' : MetaMap)
      → proc ≢ 0
      → other ≢ proc
      → create_sandbox env self proc m metas ≡ (true, m', metas')
      → let gone = (destroy_sandbox env proc m' metas').1 in
        (executed_callback metas' (proc, key) invoking wasm_key ≡ ok (self, key))
        × (executed_callback gone (proc, key) invoking wasm_key
            ≡ executed_callback gone (0, key) invoking wasm_key)
        × (executed_callback metas' (other, key) invoking wasm_key
            ≡ executed_callback metas (other, key) invoking wasm_key)
        × (executed_callback gone (other, key) invoking wasm_key
            ≡ executed_callback metas (other, key) invoking wasm_key)
  unfolding create_sandbox destroy_sandbox executed_callback
  fires_while_up self proc other key invoking wasm_key m m' metas metas' nonnull ne e = ground (
    arith,
    find_meta-assign_meta proc self metas,
    find_meta-erase_meta proc metas',
    find_meta-erase_meta_ne proc other metas' ne,
    find_meta-assign_meta_ne proc other self metas ne,
  )
