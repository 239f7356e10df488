-- ===== src/Lib.antt =====
-- A model of the sandbox backends of this repository, with the theorems about them.
--
-- The program runs a library in two sandboxes at once and decides per call which of them serves it.
-- `rlbox_meta_sandbox` (include/rlbox_meta_sandbox.hpp) owns a process backend and a wasm2c backend:
-- it routes each allocation and call by a policy and by the owners of the pointers, keeps a registry of
-- owners, translates arguments for wasm, and records latencies that the adaptive policy reads. The
-- process backend (include/rlbox_process_sandbox.hpp) talks to a child in which
-- src/rlbox_process_sandbox_shim.cpp is preloaded: that shim serves the allocations out of a shared
-- memory, keeps the callback slots and runs each call in a worker, whose system calls
-- src/rlbox_seccomp_filter.hpp restricts.
--
-- The files. `Common` and its children are shared helpers: Boolean tests, lists, maps, bits.
-- `Meta` is the meta-sandbox: `Meta/Tag` the ownership bit (`tag_owner`, `tag_strip`, `tag_wasm`),
-- `Meta/Latency` the `latency_ring`, `Meta/Policy` the function that `make_adaptive_policy` returns,
-- `Meta/State` the record of the sandbox, `Meta/Symbols` the symbol cache and its statistics
-- (`impl_lookup_symbol`, `snapshot_median_sums`, `latency_for`), `Meta/Alloc` the registry
-- (`impl_malloc_in_sandbox`, `impl_free_in_sandbox`, `owner_of`, `register_struct_type`),
-- `Meta/Pointers` the pointer conversions, `Meta/Callbacks` and `Meta/Lifecycle` the callbacks, create
-- and destroy, `Meta/Invoke` one call (`impl_invoke_with_func_ptr`), `Meta/Casts` the casts of integers
-- that calls and struct copies make, and `Meta/Testbed` a small sandbox for tests. `Seccomp` is the filter of src/rlbox_seccomp_filter.hpp. `Shim` is
-- src/rlbox_process_sandbox_shim.cpp: `Shim/Memory` the allocator, `Shim/Slots` the callback slots,
-- `Shim/Pipe` `read_full` and `write_full`, `Shim/Wire` the bytes of a job, `Shim/Worker` a call in a
-- worker or in a child of its own (`handle_invoke`, `dispatch_to_worker`, `worker_main`), `Shim/Pool`
-- the pool of workers (`refill_loop`, `try_acquire_worker`, `spawn_worker`), `Shim/Requests` the request
-- loop, and `Shim/Testbed` small surroundings for tests.
-- `Process` is the host's side, include/rlbox_process_sandbox.hpp: `impl_create_sandbox` and
-- `impl_destroy_sandbox` over the objects that are alive and the registry they share (`Process/Registry`,
-- `Process/Register`, `Process/Entries`, `Process/Stale`) and over the kernel's descriptors
-- (`Process/Descriptors`, `Process/Balance`, `Process/Teardown`), `Process/Callbacks` the calls from
-- the library into the host, and `Process/Requests` the requests of the host, with what they come to
-- when the loop of `Shim/Requests` answers them. `Meta/Translators` is what the struct-translator macros expand to.
-- `Abi` is a call across the boundary: the tags of include/rlbox_process_abi.hpp, `pack_slot` and the
-- slots of the process backend, and `do_ffi_call` of the shim; libffi is a parameter (`Ffi`).
-- `Mem` is `os_mmap_aligned` of include/rlbox_process_mem.hpp.
-- Theorems stand in the child modules, named for what they prove; `Tests` modules hold runs at
-- concrete values.
--
-- State is passed explicitly: an operation takes the record of its component and returns the new one.
-- `std::abort` is `aborts` with its reason. Numbers are natural numbers with the wrap-around of
-- `size_t`, `uint32_t` and pointers written out, for i386 and x86_64 hosts; a null pointer is 0. A
-- `double` is a type with the operations that the code applies, and theorems that need an order of the
-- samples ask for it. All loops are structural recursion, so no fuel occurs: a loop that waits (the
-- request loop, the callback loop, `read_full`) runs over the list of what arrives, and the refill
-- thread's turns are steps of a relation.
--
-- Parameters. The wasm2c backend, dlmalloc, `dlsym`, the random engine, the kernel and its headers are
-- not part of the repository: they are fields of `Backend`, `Env`, `Dlmalloc`, `Headers`, `Kernel`,
-- `Os`, `PipeOs` and `Ffi`, and Cap'n Proto is the function `exchange`. The sandboxed library is the
-- field `call` of `Library`: what it does in a child may depend on the child's filter, and the child may
-- die in it. What the code relies on is a named hypothesis (`HasUntaggedOffsets`, `HasLinearMemory`,
-- `RunsBpf`, `FiltersThread`, `MapsMemory`, `IsFaithful`, `TracksDescriptors`, `TracksPipes`, `Connects`,
-- `ReadsBack`).
--
-- Not modelled: locks (each operation is one step), the clock (its readings are arguments), callbacks
-- that re-enter a sandbox during a call, the rpclib transport, which carries the same requests, with its
-- ports, and what a child reads from its environment.
pub mod Common
pub mod Meta
pub mod Seccomp
pub mod Shim
pub mod Abi
pub mod Mem
pub mod Process
