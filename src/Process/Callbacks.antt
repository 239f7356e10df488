-- ===== src/Process/Callbacks.antt =====
-- Calls from the sandboxed library into the host: the trampolines of
-- src/rlbox_process_sandbox_shim.cpp, and the callback loop of include/rlbox_process_sandbox.hpp.
--
-- A trampoline takes four words. The host's interceptors are another project's: `call_host` gets the
-- address, the arguments, and the pair that the thread-local variables hold while it runs.
pub mod Fired
pub mod Again
mod Tests
use rlbox_dynamic_sandbox.Common.{
  ℕ, Bool, true, List, [], ◌∷◌, Option, none, some, insert, erase, ◌==◌, ◌||◌, if◌then◌else◌,
}
use mathlib.Core.Option.{map as map_option}
use rlbox_dynamic_sandbox.Meta.Types.{Host}
use rlbox_dynamic_sandbox.Abi.{CppType, void_type, pack_slot, unpack_slot}
use rlbox_dynamic_sandbox.Shim.Slots.{Slots, fired_key}
use rlbox_dynamic_sandbox.Process.{Callback, Sandbox}

-- The four words of a trampoline's call.
pub record Words : Type 0 where
  pub a : ℕ
  pub b : ℕ
  pub c : ℕ
  pub d : ℕ

-- `trampoline_impl` up to the message: the key and the arguments that are sent; `none` is the result 0
-- with no message. `connected` says whether `g_callback_fd` is set.
unfoldable pub trampoline_impl : Slots → Bool → ℕ → Words → Option (ℕ × List ℕ)
unfolding fired_key
trampoline_impl slots connected i words =
    let key = fired_key i slots in
    if connected
    then if key == 0 then none else some (key, words.a ∷ words.b ∷ words.c ∷ words.d ∷ [])
    else none

-- Each parameter takes the word at its position; a word beyond the last is read out of bounds.
unfoldable pub unpack_arguments : Host → List CppType → List ℕ → Option (List ℕ)
unfolding unpack_slot
unpack_arguments h [] args = some []
unpack_arguments h (c ∷ params) [] = none
unpack_arguments h (c ∷ params) (v ∷ args) =
    map_option (λ values. unpack_slot h c v ∷ values) (unpack_arguments h params args)

-- The result as a word; `void` gives 0.
unfoldable pub pack_result : Host → CppType → ℕ → ℕ
unfolding pack_slot
pack_result h void_type r = 0
pack_result h c r = pack_slot h c r

-- The thread-local pair of the sandbox and the key, and what a callback leaves.
pub record Dispatched (M : Type 0) : Type 0 where
  pub result : ℕ
  pub thread_locals : ℕ × ℕ
  pub host_memory : M

-- `impl_get_executed_callback_sandbox_and_key`
unfoldable pub get_executed_callback : ℕ × ℕ → ℕ × ℕ
get_executed_callback (sandbox, key) = if key == 0 then (0, 0) else (sandbox, key)

-- `impl_register_callback` and `impl_unregister_callback`, without the request.
unfoldable pub add_callback : ℕ → Callback → Sandbox → Sandbox
add_callback key callback s = record s { callback_map = insert key callback s.callback_map }

unfoldable pub remove_callback : ℕ → Sandbox → Sandbox
remove_callback key s = record s { callback_map = erase key s.callback_map }

module _ {M : Type 0} (h : Host) (call_host : ℕ → List ℕ → ℕ × ℕ → M → ℕ × M) where
  unfoldable pub invoke_callback_unpacked : Callback → List ℕ → ℕ × ℕ → M → Option (ℕ × M)
  unfolding unpack_arguments pack_result
  invoke_callback_unpacked callback args thread_locals m =
      map_option
        (λ values.
          let (r, m') = call_host callback.function values thread_locals m in
          (pack_result h callback.ret r, m'))
        (unpack_arguments h callback.params args)

  -- One message of the callback loop of the sandbox at the address; a key that is not in the map gets 0.
  unfoldable pub dispatch_callback : ℕ → Sandbox → ℕ → List ℕ → ℕ × ℕ → M → Option (Dispatched M)
  unfolding invoke_callback_unpacked
  dispatch_callback this s key args thread_locals m = elim (s.callback_map key) [
    | none ↦ some (record { result = 0; thread_locals = thread_locals; host_memory = m })
    | some callback ↦
        map_option (λ (r, m'). record { result = r; thread_locals = (0, 0); host_memory = m' })
          (invoke_callback_unpacked callback args (this, key) m)
  ]

  -- The loop, which the creation starts: the messages that arrive until the connection ends.
  unfoldable pub callback_loop : ℕ → Sandbox → List (ℕ × List ℕ) → ℕ × ℕ → M → Option (List ℕ × M)
  unfolding dispatch_callback
  callback_loop this s [] thread_locals m = some ([], m)
  callback_loop this s ((key, args) ∷ messages) thread_locals m =
      if s.callback_thread_stop
      then some ([], m)
      else elim (dispatch_callback this s key args thread_locals m) [
        | none ↦ none
        | some d ↦
            map_option (λ (results, m'). (d.result ∷ results, m'))
              (callback_loop this s messages d.thread_locals d.host_memory)
      ]
