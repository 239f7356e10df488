-- ===== src/Shim/Requests.antt =====
-- The request loop of src/rlbox_process_sandbox_shim.cpp with the Cap'n Proto transport: one request of
-- the host after the other, each with one response. The requests are those of
-- include/rlbox_process.capnp.
--
-- What a worker shares with the process is the shared memory: dlmalloc's space, the bytes and the
-- callback slots. The symbols of the process are an argument.
use rlbox_dynamic_sandbox.Common.{
  ℕ, ◌%◌, ◌^◌, Bool, List, [], ◌∷◌, Option, none, some, String, if◌then◌else◌,
}
use mathlib.Core.Option.{map as map_option}
use rlbox_dynamic_sandbox.Meta.Types.{Host, pointer_bits}
use rlbox_dynamic_sandbox.Seccomp.{Mode, Headers, Kernel}
use rlbox_dynamic_sandbox.Shim.Words.{Bytes}
use rlbox_dynamic_sandbox.Shim.Memory.{Setup, Allocator, handle_allocate, handle_release}
use rlbox_dynamic_sandbox.Shim.Slots.{Slots, handle_register_callback, handle_unregister_callback}
use rlbox_dynamic_sandbox.Shim.Worker.{Library, Job, Link, Fallback, handle_invoke}

-- `Request`; `other` is a request of a later schema.
pub data Request : Type 0 where
  lookup_symbol : String → Request
  allocate release : ℕ → Request
  invoke : Job → Request
  register_callback unregister_callback : ℕ → Request
  other : Request

-- The shared memory.
pub record Shared (S : Type 0) : Type 0 where
  pub space : S
  pub bytes : Bytes
  pub slots : Slots

-- The globals of the process.
pub record Globals (S : Type 0) : Type 0 where
  pub allocator : Allocator S
  pub slots : Slots

-- What the process finds where it runs: its symbols, the trampolines, and for a call the worker at hand
-- and the child that would be forked.
pub record Surroundings (S K : Type 0) : Type 0 where
  pub setup : Setup S
  pub dlsym : String → ℕ
  pub trampoline : ℕ → ℕ
  pub library : Library (Shared S) K
  pub headers : Headers
  pub kernel : Kernel K
  pub mode : Mode
  pub worker : Job → Option (Link × K)
  pub fallback : Job → Fallback K

module _ {S K : Type 0} (around : Surroundings S K) where
  open around use {setup, dlsym, trampoline, library, headers, kernel, mode, worker, fallback}

  abbrev pub host : Host
  host = setup.host

  -- `handle_invoke` on the globals: a call changes no more than the shared memory.
  unfoldable pub serve_invoke : Job → Globals S → ℕ × Globals S
  unfolding handle_invoke
  serve_invoke job g =
      let a = g.allocator in
      let shared : Shared S = record { space = a.space; bytes = a.bytes; slots = g.slots } in
      let (result, shared') =
        handle_invoke host library headers kernel mode a.shm_base (worker job) (fallback job) job
          shared in
      (
        result,
        record {
          allocator = record a { space = shared'.space; bytes = shared'.bytes };
          slots = shared'.slots;
        },
      )

  -- One turn of the `switch`. `none` is a call of dlmalloc outside its contract.
  unfoldable pub serve : Request → Globals S → Option (ℕ × Globals S)
  unfolding serve_invoke handle_allocate handle_release handle_register_callback
      handle_unregister_callback
  serve (lookup_symbol name) g = some (dlsym name, g)
  serve (allocate size) g =
      map_option (λ (p, a). (p, record g { allocator = a }))
        (handle_allocate setup (size % 2 ^ pointer_bits host) g.allocator)
  serve (release abs_addr) g = some (
    0,
    record g { allocator = handle_release setup (abs_addr % 2 ^ pointer_bits host) g.allocator },
  )
  serve (invoke job) g =
      some (serve_invoke (record job { func_addr = job.func_addr % 2 ^ pointer_bits host }) g)
  serve (register_callback host_key) g =
      let (address, slots') =
        handle_register_callback trampoline (host_key % 2 ^ pointer_bits host) g.slots in
      some (address, record g { slots = slots' })
  serve (unregister_callback host_key) g = some (
    0,
    record g { slots = handle_unregister_callback (host_key % 2 ^ pointer_bits host) g.slots },
  )
  serve other g = some (0, g)

  -- The loop, over the requests that arrive and whether each response can be written: the responses that
  -- the host gets. The end of the requests is the end of the connection.
  unfoldable pub request_loop : List (Request × Bool) → Globals S → Option (List ℕ × Globals S)
  unfolding serve
  request_loop [] g = some ([], g)
  request_loop ((req, writable) ∷ reqs) g = elim (serve req g) [
    | none ↦ none
    | some (result, g') ↦
        let rest = request_loop reqs g' in
        if writable then map_option (λ (results, h). (result ∷ results, h)) rest else some ([], g')
  ]
