-- ===== src/Process/Requests/Remote.antt =====
-- The host's requests, answered by the loop of the sandboxed process (include/rlbox_process_sandbox.hpp,
-- src/rlbox_process_sandbox_shim.cpp).
use rlbox_dynamic_sandbox.Common.{
  ℕ, ◌+◌, ◌-◌, ◌%◌, ◌^◌, ◌<◌, ◌≤◌, ◌≡◌, ◌≢◌, ◌∙◌, refl, ap, arith, true, Option, some, Option-cases,
  inl, inr,
}
use rlbox_dynamic_sandbox.Meta.Types.{pointer_bits}
use rlbox_dynamic_sandbox.Shim.Memory.{Allocator, handle_allocate, malloc, mspace_malloc}
use rlbox_dynamic_sandbox.Shim.Memory.Region.{handle_allocate_inside, wrap_small}
use rlbox_dynamic_sandbox.Shim.Requests.{Request, allocate, Globals, Surroundings, serve, host}
use rlbox_dynamic_sandbox.Process.{Sandbox, is_pointer_in_sandbox_memory, Os}
use rlbox_dynamic_sandbox.Process.Requests.{capnp_call, pointer_call, impl_malloc_in_sandbox}

-- A connection that hands each request to the loop and its response back.
pub record Connects {S K C : Type 0} (around : Surroundings S K)
    (exchange : ℕ → Request → C → Option ℕ × C) (globals : C → Globals S) : Type 0 where
  pub answers :
      (fd : ℕ) (req : Request) (c : C) (result : ℕ) (g : Globals S)
      → serve around req (globals c) ≡ some (result, g)
      → ((exchange fd req c).0 ≡ some result) × (globals (exchange fd req c).1 ≡ g)

module _ {S K C : Type 0} (around : Surroundings S K) {exchange : ℕ → Request → C → Option ℕ × C}
    {globals : C → Globals S} (connects : Connects around exchange globals) where
  pub capnp_call_served :
      (s : Sandbox) (fd : ℕ) (req : Request) (c : C) (result : ℕ) (g : Globals S)
      → s.request_fd ≡ some fd
      → serve around req (globals c) ≡ some (result, g)
      → ((capnp_call (host around) exchange s req c).0 ≡ result)
        × (globals (capnp_call (host around) exchange s req c).1 ≡ g)
  unfolding capnp_call
  capnp_call_served s fd req c result g connected served =
      let (answer, state) = connects.answers fd req c result g served in
      rw (capnp_call, connected, answer) (refl, state)

module _ {S K C K' : Type 0} (around : Surroundings S K) (os : Os K')
    {exchange : ℕ → Request → C → Option ℕ × C} {globals : C → Globals S}
    (connects : Connects around exchange globals) where
  allocates :
      (size : ℕ) (g : Allocator S)
      → g.mspace ≡ true
      → (p : ℕ) × (g' : Allocator S) × (handle_allocate around.setup size g ≡ some (p, g'))
        × (p ≢ 0 → 0 < size)
  unfolding handle_allocate malloc mspace_malloc
  allocates size g up = elim (Option-cases (handle_allocate around.setup size g)) [
    | inl outside ↦ absurd (ground arith)
    | inr ((p, g'), e) ↦ (p, g', e, (λ nonnull. ground arith))
  ]

  served_allocate :
      (size : ℕ) (c : C) (p : ℕ) (g' : Allocator S)
      → size < 2 ^ pointer_bits (host around)
      → handle_allocate around.setup size (globals c).allocator ≡ some (p, g')
      → serve around (allocate size) (globals c) ≡ some (p, record (globals c) { allocator = g' })
  unfolding serve
  served_allocate size c p g' small e = rw (serve, wrap_small (host around) size small, e) refl

  inside :
      (s : Sandbox) (x : ℕ)
      → s.shared_memory_local_base ≤ x
      → x < s.shared_memory_local_base + s.shared_memory_size
      → s.shared_memory_local_base + s.shared_memory_size < 2 ^ pointer_bits (host around)
      → s.shared_memory_local_base ≢ 0
      → is_pointer_in_sandbox_memory (host around) os x s ≡ true
  unfolding is_pointer_in_sandbox_memory
  inside s x low high region mapped =
      let exact =
        wrap_small (host around) (s.shared_memory_local_base + s.shared_memory_size) region in
      ground arith

  -- What the host gets from `impl_malloc_in_sandbox`, if it is not null, is a block whose first and last
  -- bytes `impl_is_pointer_in_sandbox_memory` finds in the sandbox. This is for a connected sandbox that
  -- has its memory at the base and of the size that the process has it, an mspace that is up, and blocks
  -- and a shared memory within the address space.
  pub malloc_in_sandbox_inside :
      (s : Sandbox) (fd size : ℕ) (c : C)
      → let a = (globals c).allocator in
        s.request_fd ≡ some fd
        → s.shared_memory_local_base ≡ a.shm_base
        → s.shared_memory_size ≡ a.shm_size
        → s.shared_memory_local_base ≢ 0
        → a.mspace ≡ true
        → size < 2 ^ pointer_bits (host around)
        → (around.setup.dlmalloc.mspace_malloc a.space size).0 + size
          < 2 ^ pointer_bits (host around)
        → a.shm_base + a.shm_size < 2 ^ pointer_bits (host around)
        → (impl_malloc_in_sandbox (host around) exchange s size c).0 ≢ 0
        → let p = (impl_malloc_in_sandbox (host around) exchange s size c).0 in
          (is_pointer_in_sandbox_memory (host around) os p s ≡ true)
          × (is_pointer_in_sandbox_memory (host around) os (p + size - 1) s ≡ true)
  unfolding impl_malloc_in_sandbox pointer_call
  malloc_in_sandbox_inside s fd size c connected same_base same_size mapped up small block region
        nonnull =
      let a = (globals c).allocator in
      let (p, g', e, nonempty) = allocates size a up in
      let served = served_allocate size c p g' small e in
      let raw =
        (capnp_call_served around connects s fd (allocate size) c p
          (record (globals c) { allocator = g' }) connected served).0 in
      let some_block : p ≢ 0 = λ null. nonnull (
        ap (λ n. n % 2 ^ pointer_bits (host around)) (raw ∙ null)
        ∙ wrap_small (host around) 0 (ground arith)) in
      let (low, high) =
        handle_allocate_inside around.setup size p a g' up block region e some_block in
      let kept : p % 2 ^ pointer_bits (host around) ≡ p =
        wrap_small (host around) p (ground arith) in
      let got = ap (λ n. n % 2 ^ pointer_bits (host around)) raw ∙ kept in
      let positive = nonempty some_block in
      let in_words : s.shared_memory_local_base + s.shared_memory_size
          < 2 ^ pointer_bits (host around) =
        rw (same_base, same_size) region in
      rw got (
        inside s p (omega (arith, low, same_base))
            (omega (arith, high, same_base, same_size, positive)) in_words mapped,
        inside s (p + size - 1) (omega (arith, low, same_base, positive))
            (omega (arith, high, same_base, same_size, positive)) in_words mapped,
      )
