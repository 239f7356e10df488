-- ===== src/Process/Requests.antt =====
-- The requests of the host (include/rlbox_process_sandbox.hpp): each operation sends one message and
-- takes the result out of the response.
--
-- The messages go through Cap'n Proto, another project's: `exchange` sends a request and waits for the
-- response, over the connection's state `C`; an exception that `capnp_call` catches is `none`.
pub mod Remote
pub mod Message
pub mod Calls
mod Tests
use rlbox_dynamic_sandbox.Common.{ℕ, ◌%◌, ◌^◌, List, Option, none, some, String, map, length}
use rlbox_dynamic_sandbox.Meta.Types.{Host, pointer_bits}
use rlbox_dynamic_sandbox.Abi.{CppType, wire_tag, tag_of, pack_slot, unpack_slot}
use rlbox_dynamic_sandbox.Shim.Worker.{Job}
use rlbox_dynamic_sandbox.Shim.Requests.{
  Request, lookup_symbol, allocate, release, invoke, register_callback, unregister_callback,
}
use rlbox_dynamic_sandbox.Process.{Callback, Sandbox}
use rlbox_dynamic_sandbox.Process.Callbacks.{add_callback, remove_callback}

-- The message of `impl_invoke_with_func_ptr`: the tags come from the types, the slots from the values.
unfoldable pub invoke_message : Host → ℕ → CppType → List (CppType × ℕ) → Job
unfolding tag_of pack_slot
invoke_message h func_ptr ret args = record {
  func_addr = func_ptr;
  ret_tag = wire_tag (tag_of h ret);
  arg_tags = map (λ (a : CppType × ℕ). wire_tag (tag_of h a.0)) args;
  arg_values = map (λ (a : CppType × ℕ). pack_slot h a.0 a.1) args;
}

module _ {C : Type 0} (h : Host) (exchange : ℕ → Request → C → Option ℕ × C) where
  -- `capnp_call`; a sandbox that is not connected gets 0, and so does an exception.
  unfoldable pub capnp_call : Sandbox → Request → C → ℕ × C
  capnp_call s req c = elim s.request_fd [
    | none ↦ (0, c)
    | some fd ↦
        let (response, c') = exchange fd req c in
        (elim response [ none ↦ 0 | some result ↦ result ], c')
  ]

  -- `static_cast<T_PointerType>` of the result.
  unfoldable pub pointer_call : Sandbox → Request → C → ℕ × C
  unfolding capnp_call
  pointer_call s req c = let (raw, c') = capnp_call s req c in (raw % 2 ^ pointer_bits h, c')

  unfoldable pub impl_lookup_symbol : Sandbox → String → C → ℕ × C
  unfolding pointer_call
  impl_lookup_symbol s func_name c = pointer_call s (lookup_symbol func_name) c

  unfoldable pub impl_malloc_in_sandbox : Sandbox → ℕ → C → ℕ × C
  unfolding pointer_call
  impl_malloc_in_sandbox s size c = pointer_call s (allocate size) c

  unfoldable pub impl_free_in_sandbox : Sandbox → ℕ → C → C
  unfolding capnp_call
  impl_free_in_sandbox s p c = (capnp_call s (release p) c).1

  unfoldable pub impl_register_callback : Sandbox → ℕ → Callback → C → ℕ × Sandbox × C
  unfolding pointer_call add_callback
  impl_register_callback s key callback c =
      let (address, c') = pointer_call s (register_callback key) c in
      (address, add_callback key callback s, c')

  unfoldable pub impl_unregister_callback : Sandbox → ℕ → C → Sandbox × C
  unfolding capnp_call remove_callback
  impl_unregister_callback s key c =
      (remove_callback key s, (capnp_call s (unregister_callback key) c).1)

  -- `none` is the failed check that the sandbox is initialised.
  unfoldable pub impl_invoke_with_func_ptr :
      Sandbox → ℕ → CppType → List (CppType × ℕ) → C → Option (ℕ × C)
  unfolding capnp_call invoke_message unpack_slot
  impl_invoke_with_func_ptr s func_ptr ret args c = elim s.request_fd [
    | none ↦ none
    | some fd ↦
        let (raw, c') = capnp_call s (invoke (invoke_message h func_ptr ret args)) c in
        some (unpack_slot h ret raw, c')
  ]
