-- ===== src/Meta/Callbacks/Tests.antt =====
-- The theorems about callback registration at a concrete sandbox.
use rlbox_dynamic_sandbox.Common.{◌+◌, ◌^◌, ◌≡◌, refl, arith, some, [], ◌∷◌}
use rlbox_dynamic_sandbox.Meta.Types.{process}
use rlbox_dynamic_sandbox.Meta.Testbed.{env, meta_at}
use rlbox_dynamic_sandbox.Meta.Callbacks.{
  Registry, find_callback, register_callback, unregister_callback, callbacks_registered,
}
use rlbox_dynamic_sandbox.Meta.Callbacks.Register.{unregister-register}

unregister-register_example :
    let (handle, m') = register_callback env 9 77 (meta_at process) in
    (handle ≡ 2 ^ 20)
    × (find_callback handle m'.callback_registry ≡ some (record { wasm_slot = 64; key = 9 }))
    × (callbacks_registered env m' ≡ callbacks_registered env (meta_at process) + 1)
    × ((unregister_callback env 9 m').callback_registry ≡ [])
unregister-register_example =
    unregister-register env 9 77 (meta_at process) (omega arith) (unfold find_callback in refl) tt

abbrev two_callbacks : Registry
two_callbacks =
    (100, record { wasm_slot = 1; key = 9 }) ∷ (108, record { wasm_slot = 2; key = 8 }) ∷ []
