-- ===== src/Process.antt =====
-- The host's side of the process backend: `rlbox_process_sandbox` of
-- include/rlbox_process_sandbox.hpp, with the Cap'n Proto transport.
--
-- Sandboxes are objects of the host: an object has an address, and the registry, which all sandboxes
-- share, holds addresses of objects. The calls into the kernel are fields of `Os`, over the kernel's
-- state `K`; a result that reports a failure is `none`. A descriptor of -1 is `none`. The thread-local
-- variables are those of the thread that calls.
pub mod Descriptors
pub mod Balance
pub mod Teardown
pub mod Registry
pub mod Register
pub mod Entries
pub mod Stale
pub mod Callbacks
pub mod Requests
mod Tests
use rlbox_dynamic_sandbox.Common.{
  ℕ, ◌+◌, ◌*◌, ◌%◌, ◌^◌, Bool, true, false, ◌&&◌, not, List, [], ◌∷◌, Option, none, some, Map,
  no_entries, insert, erase, ltb, leb, ◌==◌, if◌then◌else◌,
}
use rlbox_dynamic_sandbox.Meta.Types.{Host, i386, x86_64, pointer_bits}
use rlbox_dynamic_sandbox.Abi.{CppType}
use rlbox_dynamic_sandbox.Mem.{os_mmap_aligned}
use rlbox_dynamic_sandbox.Mem

-- What the host asks of the kernel. `reserve` is the private mapping of `os_mmap_aligned`, `reserve_at`
-- the one with a hint, `map_shared` the one of the shared memory's descriptor, `fork` the parent's view.
pub record Os (K : Type 0) : Type 0 where
  pub memory : Mem.Os K
  pub memfd_create : K → Option ℕ × K
  pub ftruncate : ℕ → ℕ → K → K
  pub reserve_at : ℕ → ℕ → K → Option ℕ × K
  pub map_shared : ℕ → ℕ → ℕ → K → Option ℕ × K
  pub socketpair : K → Option (ℕ × ℕ) × K
  pub fork : K → Option ℕ × K
  pub shutdown : ℕ → K → K
  pub close : ℕ → K → K
  pub terminate : ℕ → K → K
  pub reap : ℕ → K → K

-- What `impl_register_callback` puts into the map: the interceptor's address and its types.
pub record Callback : Type 0 where
  pub function : ℕ
  pub ret : CppType
  pub params : List CppType

-- `rlbox_process_sandbox`; `callback_thread` says whether there is a thread to join.
pub record Sandbox : Type 0 where
  pub shared_memory_local_base : ℕ
  pub shared_memory_size : ℕ
  pub child_process_handle : ℕ
  pub request_fd : Option ℕ
  pub callback_fd : Option ℕ
  pub callback_thread : Bool
  pub callback_thread_stop : Bool
  pub callback_map : Map Callback

abbrev pub fresh_sandbox : Sandbox
fresh_sandbox = record {
  shared_memory_local_base = 0;
  shared_memory_size = 0;
  child_process_handle = 0;
  request_fd = none;
  callback_fd = none;
  callback_thread = false;
  callback_thread_stop = false;
  callback_map = no_entries;
}

-- `global_registry` in the order of its keys, the objects that are alive, the variables of
-- include/rlbox_process_tls.hpp, and the kernel.
pub record World (K : Type 0) : Type 0 where
  pub global_registry : List (ℕ × ℕ)
  pub objects : Map Sandbox
  pub thread_local_sandbox : ℕ
  pub thread_local_callback_key : ℕ
  pub kernel : K

-- `global_registry[base] = this`
unfoldable pub register : ℕ → ℕ → List (ℕ × ℕ) → List (ℕ × ℕ)
register base this [] = (base, this) ∷ []
register base this ((b, o) ∷ rest) =
    let later = register base this rest in
    if base == b
    then (b, this) ∷ rest
    else if ltb base b
    then (base, this) ∷ (b, o) ∷ rest
    else (b, o) ∷ later

-- `global_registry.erase(base)`
unfoldable pub unregister : ℕ → List (ℕ × ℕ) → List (ℕ × ℕ)
unregister base [] = []
unregister base ((b, o) ∷ rest) =
    let later = unregister base rest in if b == base then rest else (b, o) ∷ later

-- 64 MB
abbrev pub memory_size : ℕ
memory_size = 1024 * 1024 * 64

-- `k_hint_addrs`
abbrev pub k_hint_addrs : List ℕ
k_hint_addrs = 1073741824 ∷ 1342177280 ∷ 1610612736 ∷ 1879048192 ∷ []

-- The two ends of the request channel and of the callback channel: the parent's and the child's.
pub record Channels : Type 0 where
  pub req_pair : ℕ × ℕ
  pub cb_pair : ℕ × ℕ

module _ {K : Type 0} (h : Host) (os : Os K) where
  -- The loop over the hints; a mapping that is not where it was asked for is given back.
  unfoldable pub reserve_at_hints : List ℕ → K → ℕ × K
  reserve_at_hints [] k = (0, k)
  reserve_at_hints (hint ∷ hints) k =
      let (res, k1) = os.reserve_at hint memory_size k in
      let failed = reserve_at_hints hints k1 in
      elim res [
        | none ↦ failed
        | some addr ↦
            let elsewhere = reserve_at_hints hints (os.memory.munmap addr memory_size k1) in
            if addr == hint then (addr, k1) else elsewhere
      ]

  unfoldable pub reserve_memory : K → ℕ × K
  unfolding reserve_at_hints os_mmap_aligned
  reserve_memory k =
      let aligned = os_mmap_aligned h os.memory memory_size (2 ^ 32) k in
      let hinted = reserve_at_hints k_hint_addrs k in elim h [ i386 ↦ hinted | x86_64 ↦ aligned ]

  -- Steps 1 and 2 of `impl_create_sandbox`: the descriptor and where it is mapped.
  unfoldable pub create_memory : K → Option (ℕ × ℕ) × K
  unfolding reserve_memory
  create_memory k =
      let (memfd, k1) = os.memfd_create k in
      elim memfd [
        | none ↦ (none, k1)
        | some shm_fd ↦
            let (aligned_addr, k2) = reserve_memory (os.ftruncate shm_fd memory_size k1) in
            let (mapped, k3) = os.map_shared aligned_addr memory_size shm_fd k2 in
            if aligned_addr == 0 then (none, os.close shm_fd k2) else elim mapped [
              | none ↦ (none, os.close shm_fd (os.memory.munmap aligned_addr memory_size k3))
              | some base ↦ (some (shm_fd, base), k3)
            ]
      ]

  -- The two socket pairs.
  unfoldable pub create_channels : ℕ → K → Option Channels × K
  create_channels shm_fd k =
      let (req, k1) = os.socketpair k in
      let (cb, k2) = os.socketpair k1 in
      elim req [
        | none ↦ (none, os.close shm_fd k1)
        | some (req0, req1) ↦ elim cb [
          | none ↦ (none, os.close shm_fd (os.close req1 (os.close req0 k2)))
          | some cb_ends ↦ (some (record { req_pair = (req0, req1); cb_pair = cb_ends }), k2)
        ]
      ]

  -- The parent's side from `fork` on: the child, and what stays open.
  unfoldable pub create_child : ℕ → Channels → K → Option ℕ × K
  create_child shm_fd channels k =
      let (forked, k1) = os.fork k in
      elim forked [
        | none ↦ (none, os.close shm_fd k1)
        | some pid ↦ (
          some pid,
          os.close channels.cb_pair.1 (os.close channels.req_pair.1 (os.close shm_fd k1)),
        )
      ]

  unfoldable pub put_object : ℕ → Sandbox → World K → World K
  put_object this s w = record w { objects = insert this s w.objects }

  -- What `impl_create_sandbox` does once the memory is mapped.
  unfoldable pub connect : ℕ → Sandbox → ℕ → ℕ → World K → Bool × World K
  unfolding create_channels create_child register put_object
  connect this s shm_fd base w =
      let s1 = record s { shared_memory_size = memory_size; shared_memory_local_base = base } in
      let w1 = record w {
        thread_local_sandbox = this;
        global_registry = register base this w.global_registry;
      } in
      let (paired, k1) = create_channels shm_fd w.kernel in
      elim paired [
        | none ↦ (false, put_object this s1 (record w1 { kernel = k1 }))
        | some channels ↦
            let (started, k2) = create_child shm_fd channels k1 in
            elim started [
              | none ↦ (false, put_object this s1 (record w1 { kernel = k2 }))
              | some pid ↦ (
                true,
                put_object this
                    (record s1 {
                      child_process_handle = pid;
                      request_fd = some channels.req_pair.0;
                      callback_fd = some channels.cb_pair.0;
                      callback_thread = true;
                    })
                    (record w1 { kernel = k2 }),
              )
            ]
      ]

  -- `impl_create_sandbox` on the object at the address.
  unfoldable pub create_sandbox : ℕ → Sandbox → World K → Bool × World K
  unfolding create_memory connect put_object
  create_sandbox this s w =
      let (mapped, k1) = create_memory w.kernel in
      elim mapped [
        | none ↦ (
          false,
          put_object this (record s { shared_memory_size = memory_size })
              (record w { kernel = k1 }),
        )
        | some (shm_fd, base) ↦ connect this s shm_fd base (record w { kernel = k1 })
      ]

  unfoldable pub close_channel : Option ℕ → K → K
  close_channel none k = k
  close_channel (some fd) k = os.close fd (os.shutdown fd k)

  unfoldable pub stop_child : ℕ → K → K
  stop_child pid k = if pid == 0 then k else os.reap pid (os.terminate pid k)

  unfoldable pub destroy_sandbox : ℕ → Sandbox → World K → World K
  unfolding close_channel stop_child unregister put_object
  destroy_sandbox this s w =
      let closed = close_channel s.callback_fd (close_channel s.request_fd w.kernel) in
      put_object this
        (record s {
          callback_thread_stop = true;
          request_fd = none;
          callback_fd = none;
          callback_thread = false;
          child_process_handle = 0;
        })
        (record w {
          thread_local_sandbox =
              if w.thread_local_sandbox == this then 0 else w.thread_local_sandbox;
          global_registry = unregister s.shared_memory_local_base w.global_registry;
          kernel = stop_child s.child_process_handle closed;
        })

  -- The object goes away; the class has no destructor of its own.
  unfoldable pub delete_object : ℕ → World K → World K
  delete_object this w = record w { objects = erase this w.objects }

  -- `sandbox_of`: the object whose memory holds the address, or 0. A read of an object that is gone is
  -- `none`.
  unfoldable pub sandbox_of : List (ℕ × ℕ) → Map Sandbox → ℕ → Option ℕ
  sandbox_of [] objects a = some 0
  sandbox_of ((base, o) ∷ rest) objects a =
      let later = sandbox_of rest objects a in
      elim (objects o) [
        | none ↦ none
        | some s ↦
            if leb base a && ltb a ((base + s.shared_memory_size) % 2 ^ pointer_bits h)
            then some o
            else later
      ]

  -- `impl_is_in_same_sandbox`
  unfoldable pub is_in_same_sandbox : ℕ → ℕ → World K → Option Bool
  unfolding sandbox_of
  is_in_same_sandbox p1 p2 w = elim (sandbox_of w.global_registry w.objects p1) [
    | none ↦ none
    | some o1 ↦ elim (sandbox_of w.global_registry w.objects p2) [
      | none ↦ none
      | some o2 ↦ some (o1 == o2)
    ]
  ]

  unfoldable pub is_pointer_in_sandbox_memory : ℕ → Sandbox → Bool
  is_pointer_in_sandbox_memory p s =
      not (s.shared_memory_local_base == 0)
      && (leb s.shared_memory_local_base p
          && ltb p ((s.shared_memory_local_base + s.shared_memory_size) % 2 ^ pointer_bits h))

  unfoldable pub is_pointer_in_app_memory : ℕ → Sandbox → Bool
  unfolding is_pointer_in_sandbox_memory
  is_pointer_in_app_memory p s = not (is_pointer_in_sandbox_memory p s)
