-- ===== src/Process/Requests/Tests.antt =====
-- The theorems about the host's requests at concrete values: the connection has the globals of the
-- sandboxed process for its state, and the library adds its arguments up, but makes at address 72 a
-- system call that a filter kills.
use rlbox_dynamic_sandbox.Common.{
  ℕ, ◌+◌, ◌-◌, ◌*◌, ◌%◌, ◌^◌, ◌≡◌, refl, arith, true, [], ◌∷◌, Option, none, some, if◌then◌else◌,
  ltb, ◌==◌,
}
use mathlib.Core.Bool.{◌&&◌}
use rlbox_dynamic_sandbox.Meta.Types.{x86_64}
use rlbox_dynamic_sandbox.Seccomp.{Kernel, enforce, apply_filter}
use rlbox_dynamic_sandbox.Abi.{
  int, long, tag_of, pack_slot, sign_extend, invoke_with_func_ptr, do_ffi_call, run_call, prepare,
}
use rlbox_dynamic_sandbox.Shim.Memory.{handle_allocate, malloc, mspace_malloc}
use rlbox_dynamic_sandbox.Shim.Pipe.{write_full}
use rlbox_dynamic_sandbox.Shim.Worker.Calls.{settle}
use rlbox_dynamic_sandbox.Shim.Slots.{fresh_slots}
use rlbox_dynamic_sandbox.Shim.Worker.{Library, child_ffi, running, no_fork, send_job}
use rlbox_dynamic_sandbox.Shim.Requests.{Request, Shared, Globals, Surroundings, serve}
use rlbox_dynamic_sandbox.Shim.Testbed.{setup, up, by_bytes-IsFaithful, adder, headers, link}
use rlbox_dynamic_sandbox.Process.{Os, Sandbox, fresh_sandbox, is_pointer_in_sandbox_memory}
use rlbox_dynamic_sandbox.Process.Requests.{
  invoke_message, capnp_call, pointer_call, impl_malloc_in_sandbox, impl_invoke_with_func_ptr,
}
use rlbox_dynamic_sandbox.Process.Requests.Remote.{Connects, malloc_in_sandbox_inside}
use rlbox_dynamic_sandbox.Process.Requests.Calls.{shared, with_shared, invoke_remote}

abbrev library : Library (Shared ℕ) ℕ
library = record {
  prep_cif = λ ret types. true;
  call = λ filters f ret args m. (
    if (f == 72) && ltb 0 filters then none else some (adder args % 2 ^ 64),
    record m { space = m.space + 1 },
  );
}

abbrev with_seccomp : Kernel ℕ
with_seccomp = record { set_no_new_privs = λ k. (0, k); set_mode_filter = λ prog k. (0, k + 1) }

abbrev around : Surroundings ℕ ℕ
around = record {
  setup = setup;
  dlsym = λ name. 64;
  trampoline = λ i. 1000 + 16 * i;
  library = library;
  headers = headers;
  kernel = with_seccomp;
  mode = enforce;
  worker = λ job. some (link, 0);
  fallback = λ job. no_fork;
}

abbrev globals : Globals ℕ
globals = record { allocator = up; slots = fresh_slots }

abbrev exchange : ℕ → Request → Globals ℕ → Option ℕ × Globals ℕ
exchange fd req g = elim (serve around req g) [ none ↦ (none, g) | some (r, g') ↦ (some r, g') ]

exchange-Connects : Connects around exchange (λ g. g)
exchange-Connects = record { answers = λ fd req c result g e. rw (exchange, e) (refl, refl) }

abbrev sandbox : Sandbox
sandbox = record fresh_sandbox {
  shared_memory_local_base = 2 ^ 20;
  shared_memory_size = 2 ^ 16;
  request_fd = some 8;
}

-- No kernel call is made here.
abbrev os : Os ℕ
os = record {
  memory = record { mmap = λ n k. (none, k); munmap = λ a n k. k };
  memfd_create = λ k. (none, k);
  ftruncate = λ fd n k. k;
  reserve_at = λ a n k. (none, k);
  map_shared = λ a n fd k. (none, k);
  socketpair = λ k. (none, k);
  fork = λ k. (none, k);
  shutdown = λ fd k. k;
  close = λ fd k. k;
  terminate = λ pid k. k;
  reap = λ pid k. k;
}

malloc_in_sandbox_inside_example :
    (is_pointer_in_sandbox_memory x86_64 os
        (impl_malloc_in_sandbox x86_64 exchange sandbox 40 globals).0
        sandbox
      ≡ true)
    × (is_pointer_in_sandbox_memory x86_64 os
          ((impl_malloc_in_sandbox x86_64 exchange sandbox 40 globals).0 + 40 - 1)
          sandbox
        ≡ true)
malloc_in_sandbox_inside_example =
    malloc_in_sandbox_inside around os exchange-Connects sandbox 8 40 globals refl refl refl
      (omega arith) refl (omega arith) (omega arith) (omega arith)
      (unfold impl_malloc_in_sandbox pointer_call capnp_call serve handle_allocate malloc
          mspace_malloc in
        omega arith)

-- The sum of 7 and 5, over the wire and in a worker.
invoke_remote_example :
    let (direct, child) =
      invoke_with_func_ptr x86_64
        (child_ffi library 1)
        (2 ^ 20)
        64
        int
        ((int, 7) ∷ (long, 5) ∷ [])
        (running (shared around exchange-Connects globals)) in
    let (value, m) = settle direct child in
    (c' : Globals ℕ) × (impl_invoke_with_func_ptr x86_64 exchange sandbox 64 int
        ((int, 7) ∷ (long, 5) ∷ [])
        globals
      ≡ some (value, c'))
    × (c' ≡ with_shared around exchange-Connects globals m)
invoke_remote_example =
    invoke_remote around exchange-Connects sandbox 8 64 int ((int, 7) ∷ (long, 5) ∷ []) globals link
      0 1 refl (omega arith) (omega arith) (omega arith) (omega arith)
      (omega arith, (omega arith, tt)) refl by_bytes-IsFaithful by_bytes-IsFaithful (omega arith)
      (unfold send_job write_full invoke_message tag_of pack_slot sign_extend in refl)
      (unfold apply_filter in refl)

-- What the two addresses come to under the filter.
abbrev under_filter : ℕ → ℕ × Shared ℕ
under_filter f =
    let (direct, child) =
      invoke_with_func_ptr x86_64 (child_ffi library 1) (2 ^ 20) f int ((int, 7) ∷ (long, 5) ∷ [])
        (running (shared around exchange-Connects globals)) in
    settle direct child

sum_or_killed : ((under_filter 64).0 ≡ 12) × ((under_filter 72).0 ≡ 0)
unfolding invoke_with_func_ptr do_ffi_call run_call prepare
sum_or_killed = (refl, refl)
