-- ===== src/Process/Requests/Calls.antt =====
-- A call of the host, from the message to the result (include/rlbox_process_sandbox.hpp,
-- src/rlbox_process_sandbox_shim.cpp).
use rlbox_dynamic_sandbox.Common.{
  ℕ, ◌%◌, ◌^◌, ◌<◌, ◌≤◌, ◌≡◌, ◌≢◌, ◌∙◌, refl, ap, true, List, Option, none, some, length, All,
  if◌then◌else◌, ◌&&◌,
}
use rlbox_dynamic_sandbox.Meta.Types.{Host, pointer_bits}
use rlbox_dynamic_sandbox.Seccomp.{apply_filter}
use rlbox_dynamic_sandbox.Abi.{CppType, unpack_slot, k_max_args, do_ffi_call, invoke_with_func_ptr}
use rlbox_dynamic_sandbox.Abi.Values.{unpack_slot-zero}
use rlbox_dynamic_sandbox.Shim.Memory.Region.{wrap_small}
use rlbox_dynamic_sandbox.Shim.Pipe.Sent.{capacity}
use rlbox_dynamic_sandbox.Shim.Worker.{
  Child, running, died, child_ffi, Job, Link, send_job, run_job, handle_invoke,
}
use rlbox_dynamic_sandbox.Shim.Worker.Protocol.{IsWire}
use rlbox_dynamic_sandbox.Shim.Worker.Calls.{IsFaithful, settle}
use rlbox_dynamic_sandbox.Shim.Worker.Dispatch.{call_in, handle_invoke_worker}
use rlbox_dynamic_sandbox.Shim.Requests.{
  Request, invoke, Shared, Globals, Surroundings, serve, serve_invoke, host,
}
use rlbox_dynamic_sandbox.Process.{Sandbox}
use rlbox_dynamic_sandbox.Process.Requests.{invoke_message, capnp_call, impl_invoke_with_func_ptr}
use rlbox_dynamic_sandbox.Process.Requests.Remote.{Connects, capnp_call_served}
use rlbox_dynamic_sandbox.Process.Requests.Message.{InWidth, invoke_message-IsWire}

-- A slot of 0 is the host's value for a child that died.
unpack_slot-settle :
    {M : Type 0} (h : Host) (ret : CppType) (r : ℕ) (child : Child M)
    → (unpack_slot h ret (settle r child).0 ≡ (settle (unpack_slot h ret r) child).0)
      × ((settle r child).1 ≡ (settle (unpack_slot h ret r) child).1)
unpack_slot-settle h ret r (running m) = (refl, refl)
unpack_slot-settle h ret r (died m) = (unpack_slot-zero h ret, refl)

module _ {S K C : Type 0} (around : Surroundings S K) {exchange : ℕ → Request → C → Option ℕ × C}
    {globals : C → Globals S} (connects : Connects around exchange globals) where
  open around use {setup, library, headers, kernel, mode, worker, fallback}

  -- The shared memory of the process.
  abbrev pub shared : Globals S → Shared S
  shared g = record { space = g.allocator.space; bytes = g.allocator.bytes; slots = g.slots }

  -- The process with the shared memory changed.
  abbrev pub with_shared : Globals S → Shared S → Globals S
  with_shared g m = record {
    allocator = record g.allocator { space = m.space; bytes = m.bytes };
    slots = m.slots;
  }

  connected_invoke :
      (s : Sandbox) (fd func_ptr : ℕ) (ret : CppType) (args : List (CppType × ℕ)) (c : C)
      → let call =
          capnp_call
            (host around)
            exchange
            s
            (invoke (invoke_message (host around) func_ptr ret args))
            c in
        s.request_fd ≡ some fd
        → impl_invoke_with_func_ptr (host around) exchange s func_ptr ret args c
          ≡ some (unpack_slot (host around) ret call.0, call.1)
  unfolding impl_invoke_with_func_ptr
  connected_invoke s fd func_ptr ret args c connected =
      let call =
        capnp_call (host around) exchange s
          (invoke (invoke_message (host around) func_ptr ret args)) c in
      ap
        (λ (o : Option ℕ). elim o [
          | none ↦ none
          | some f ↦ some (unpack_slot (host around) ret call.0, call.1)
        ])
        connected

  -- The direct call in a child whose thread has the state `k`.
  abbrev direct_call : K → Globals S → Job → ℕ × Child (Shared S)
  direct_call k g job =
      do_ffi_call (host around) (child_ffi library k) g.allocator.shm_base job.func_addr job.ret_tag
        job.arg_tags job.arg_values (running (shared g))

  -- What the process makes of the message, when a worker runs it.
  served_invoke :
      (job : Job) (n : ℕ) (g : Globals S) (link : Link) (k k' : K)
      → let (r, child) = direct_call k' g job in
        n ≡ job.func_addr
        → job.func_addr % 2 ^ pointer_bits (host around) ≡ job.func_addr
        → IsWire job
        → g.allocator.shm_base ≢ 0
        → job.func_addr ≢ 0
        → worker job ≡ some (link, k)
        → IsFaithful link.arrive
        → IsFaithful link.come_back
        → 8 ≤ capacity link.answers
        → (send_job job link.writes).done ≡ true
        → apply_filter headers (host around) kernel mode k ≡ (true, k')
        → serve_invoke around (record job { func_addr = n }) g
          ≡ ((settle r child).0, with_shared g (settle r child).1)
  unfolding serve_invoke
  served_invoke job n g link k k' same word wire mapped named at_hand arrive back room sent
        filtered =
      let (r, child) = direct_call k' g job in
      let base = g.allocator.shm_base in
      let run : run_job (host around) library headers kernel mode base k' job (shared g)
          ≡ (r, child) =
        rw (run_job, word) refl in
      let goes : (if (send_job job link.writes).done
              && (apply_filter headers (host around) kernel mode k).0
            then call_in (host around) library headers kernel mode base
                (apply_filter headers (host around) kernel mode k).1 job (shared g)
            else (0, shared g))
          ≡ settle r child =
        rw (sent, filtered) (ap (λ (x : ℕ × Child (Shared S)). settle x.0 x.1) run) in
      let handled =
        ap
          (λ w.
            handle_invoke (host around) library headers kernel mode base w (fallback job) job
              (shared g))
          at_hand
        ∙ handle_invoke_worker (host around) library headers kernel mode base job link k
            (fallback job) (shared g) wire mapped named arrive back room
        ∙ goes in
      let exact : ◌≡◌ {A = Job} (record job { func_addr = n }) job =
        λ i. record job { func_addr = same i } in
      ap (λ j. serve_invoke around j g) exact
      ∙ ap (λ (r : ℕ × Shared S). (r.0, with_shared g r.1)) handled

  -- A call of the host, through the message, the request loop, a worker's pipes and back, comes to the
  -- call that `invoke_with_func_ptr` of `Abi` describes, made in the worker under its filter: if the
  -- worker comes through the function, the host gets the value of that call, and if it dies in the
  -- function, the host gets 0; the shared memory is what the function left, up to the worker's death.
  -- This is for a connected sandbox whose process has mapped the shared memory, an address that is not
  -- 0, at most 32 arguments within their types, and a worker at hand that gets the whole message, whose
  -- filter goes in and whose pipes lose nothing.
  pub invoke_remote :
      (s : Sandbox) (fd func_ptr : ℕ) (ret : CppType) (args : List (CppType × ℕ)) (c : C)
      (link : Link) (k k' : K)
      → let base = (globals c).allocator.shm_base in
        let job = invoke_message (host around) func_ptr ret args in
        s.request_fd ≡ some fd
        → base ≢ 0
        → func_ptr ≢ 0
        → func_ptr < 2 ^ pointer_bits (host around)
        → length args ≤ k_max_args
        → All (InWidth (host around)) args
        → worker job ≡ some (link, k)
        → IsFaithful link.arrive
        → IsFaithful link.come_back
        → 8 ≤ capacity link.answers
        → (send_job job link.writes).done ≡ true
        → apply_filter headers (host around) kernel mode k ≡ (true, k')
        → let (direct, child) =
            invoke_with_func_ptr
              (host around)
              (child_ffi library k')
              base
              func_ptr
              ret
              args
              (running (shared (globals c))) in
          let (value, m) = settle direct child in
          (c' : C) × (impl_invoke_with_func_ptr (host around) exchange s func_ptr ret args c
            ≡ some (value, c'))
          × (globals c' ≡ with_shared (globals c) m)
  unfolding impl_invoke_with_func_ptr invoke_with_func_ptr invoke_message
  invoke_remote s fd func_ptr ret args c link k k' connected mapped named address few fits at_hand
        arrive back room sent filtered =
      let job = invoke_message (host around) func_ptr ret args in
      let wire = invoke_message-IsWire (host around) func_ptr ret args address few fits in
      let word = wrap_small (host around) func_ptr address in
      let g = globals c in
      let (direct, child) = direct_call k' g job in
      let (value, m) = settle direct child in
      let served : serve around (invoke job) g ≡ some (value, with_shared g m) =
        unfold serve in
        (ap some (
          served_invoke job (func_ptr % 2 ^ pointer_bits (host around)) g link k k' word word wire
            mapped named at_hand arrive back room sent filtered)) in
      let (raw, state) =
        capnp_call_served around connects s fd (invoke job) c value (with_shared g m) connected
          served in
      let after = (capnp_call (host around) exchange s (invoke job) c).1 in
      (
        after,
        connected_invoke s fd func_ptr ret args c connected
            ∙ ap (λ r. some (unpack_slot (host around) ret r, after)) raw
            ∙ ap (λ v. some (v, after)) (unpack_slot-settle (host around) ret direct child).0,
        state ∙ ap (with_shared g) (unpack_slot-settle (host around) ret direct child).1,
      )
