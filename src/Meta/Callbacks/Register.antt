-- ===== src/Meta/Callbacks/Register.antt =====
-- Registering and dropping callbacks on the meta-sandbox (include/rlbox_meta_sandbox.hpp).
use rlbox_dynamic_sandbox.Common.{
  ℕ, ◌+◌, ◌≡◌, ◌≢◌, refl, subst, ==_iff, arith, false, [], ◌∷◌, ◌++◌, All, none, some,
  length-append, ◌==◌, inl, inr, Bool-cases,
}
use rlbox_dynamic_sandbox.Meta.State.{CallbackRecord, Meta, Env}
use rlbox_dynamic_sandbox.Meta.Callbacks.{
  Registry, find_callback, emplace_callback, drop_key, register_callback, unregister_callback,
  callbacks_registered,
}

-- No entry has the key.
abbrev pub IsFreeKey : ℕ → Registry → Type 0
IsFreeKey key = All (λ e. e.1.key ≢ key)

-- Every key has one entry at most.
abbrev pub HasDistinctKeys : Registry → Type 0
HasDistinctKeys [] = Unit {0}
HasDistinctKeys ((h, rec) ∷ rest) = IsFreeKey rec.key rest × HasDistinctKeys rest

find_callback-append :
    (handle : ℕ) (rec : CallbackRecord) (registry : Registry)
    → find_callback handle registry ≡ none
    → find_callback handle (registry ++ ((handle, rec) ∷ [])) ≡ some rec
unfolding find_callback
find_callback-append handle rec [] fresh = ground arith
find_callback-append handle rec ((h, r) ∷ rest) fresh =
    ground (arith, find_callback-append handle rec rest)

drop_key-append :
    (key handle slot : ℕ) (registry : Registry)
    → IsFreeKey key registry
    → drop_key key (registry ++ ((handle, record { wasm_slot = slot; key = key }) ∷ [])) ≡ registry
unfolding drop_key
drop_key-append key handle slot [] free = ground arith
drop_key-append key handle slot ((h, r) ∷ rest) free =
    ground (arith, free.0, drop_key-append key handle slot rest free.1)

drop_key-IsFreeKey :
    (key : ℕ) (registry : Registry)
    → HasDistinctKeys registry
    → IsFreeKey key (drop_key key registry)
unfolding drop_key
drop_key-IsFreeKey key [] d = tt
drop_key-IsFreeKey key ((h, r) ∷ rest) d = elim (Bool-cases (r.key == key)) [
  | inl hit ↦ rw hit (subst (λ k. IsFreeKey k rest) ((==_iff r.key key).0 hit) d.0)
  | inr miss ↦ rw miss ((λ e. ground arith), drop_key-IsFreeKey key rest d.1)
]

drop_key-other :
    (other key : ℕ) (registry : Registry)
    → IsFreeKey other registry
    → IsFreeKey other (drop_key key registry)
unfolding drop_key
drop_key-other other key [] free = tt
drop_key-other other key ((h, r) ∷ rest) free = elim (Bool-cases (r.key == key)) [
  | inl hit ↦ rw hit free.1
  | inr miss ↦ rw miss (free.0, drop_key-other other key rest free.1)
]

drop_key-HasDistinctKeys :
    (key : ℕ) (registry : Registry)
    → HasDistinctKeys registry
    → HasDistinctKeys (drop_key key registry)
unfolding drop_key
drop_key-HasDistinctKeys key [] d = tt
drop_key-HasDistinctKeys key ((h, r) ∷ rest) d = elim (Bool-cases (r.key == key)) [
  | inl hit ↦ rw hit d.1
  | inr miss ↦ rw miss (drop_key-other r.key key rest d.0, drop_key-HasDistinctKeys key rest d.1)
]

module _ {P W D Q : Type 0} (env : Env P W D Q) where
  open env use {process_ops, wasm_ops}

  -- A registration that the process backend accepts, under a handle that is not in use, returns that
  -- handle and makes it stand for the new wasm slot and key; unregistering the key, if no other entry
  -- had it, brings the registry back to what it was.
  pub unregister-register :
      (key callback : ℕ) (m : Meta P W D Q)
      → (process_ops.register_callback m.process_sbx key callback).0 ≢ 0
      → find_callback
          (process_ops.register_callback m.process_sbx key callback).0
          m.callback_registry
        ≡ none
      → IsFreeKey key m.callback_registry
      → let (handle, m') = register_callback env key callback m in
        (handle ≡ (process_ops.register_callback m.process_sbx key callback).0)
        × (find_callback handle m'.callback_registry
            ≡ some (record {
              wasm_slot = (wasm_ops.register_callback m.wasm_sbx key callback).0;
              key = key;
            }))
        × (callbacks_registered env m' ≡ callbacks_registered env m + 1)
        × ((unregister_callback env key m').callback_registry ≡ m.callback_registry)
  unfolding register_callback unregister_callback callbacks_registered emplace_callback
  unregister-register key callback m nonnull fresh free =
      let handle = (process_ops.register_callback m.process_sbx key callback).0 in
      let slot = (wasm_ops.register_callback m.wasm_sbx key callback).0 in
      let new : CallbackRecord = record { wasm_slot = slot; key = key } in
      let accepted : (handle == 0) ≡ false = ground arith in
      rw (accepted, fresh, emplace_callback)
        (
          refl,
          find_callback-append handle new m.callback_registry fresh,
          length-append m.callback_registry ((handle, new) ∷ []),
          drop_key-append key handle slot m.callback_registry free,
        )

  -- While every key has one entry at most, unregistering a key leaves no entry with it, and keeps every
  -- key to one entry at most.
  pub unregister_callback-IsFreeKey :
      (key : ℕ) (m : Meta P W D Q)
      → HasDistinctKeys m.callback_registry
      → IsFreeKey key (unregister_callback env key m).callback_registry
        × HasDistinctKeys (unregister_callback env key m).callback_registry
  unfolding unregister_callback
  unregister_callback-IsFreeKey key m d = (
    drop_key-IsFreeKey key m.callback_registry d,
    drop_key-HasDistinctKeys key m.callback_registry d,
  )
