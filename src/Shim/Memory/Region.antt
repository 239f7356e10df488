-- ===== src/Shim/Memory/Region.antt =====
-- The host gets blocks of the shared memory alone (src/rlbox_process_sandbox_shim.cpp).
use rlbox_dynamic_sandbox.Common.{ℕ, ◌+◌, ◌≤◌, ◌<◌, ◌^◌, ◌≡◌, ◌≢◌, ◌⊎◌, arith, true, false, some}
use rlbox_dynamic_sandbox.Meta.Types.{Host, i386, x86_64, pointer_bits}
use rlbox_dynamic_sandbox.Shim.Memory.{
  Setup, Allocator, wrap, is_bootstrap, mspace_malloc, malloc, free, handle_allocate,
}

pub wrap_small : (host : Host) (n : ℕ) → n < 2 ^ pointer_bits host → wrap host n ≡ n
wrap_small i386 n h = omega arith
wrap_small x86_64 n h = omega arith

module _ {S : Type 0} (setup : Setup S) where
  open setup use {host, dlmalloc}

  -- An address that the host gets for an allocation, not null, is that of a block within the shared
  -- memory. This is for an mspace that is up, with blocks and a shared memory within the address space.
  pub handle_allocate_inside :
      (size p : ℕ) (g g' : Allocator S)
      → g.mspace ≡ true
      → (dlmalloc.mspace_malloc g.space size).0 + size < 2 ^ pointer_bits host
      → g.shm_base + g.shm_size < 2 ^ pointer_bits host
      → handle_allocate setup size g ≡ some (p, g')
      → p ≢ 0
      → (g.shm_base ≤ p) × (p + size ≤ g.shm_base + g.shm_size)
  unfolding handle_allocate malloc mspace_malloc
  handle_allocate_inside size p g g' up block region e nonnull = ground (arith, wrap_small host)

  -- A block that the mspace yields outside the shared memory goes back to it, and the host gets null.
  -- This is under the same conditions, for a block that is not in the bootstrap buffer.
  pub handle_allocate_outside :
      (size q : ℕ) (s : S) (g : Allocator S)
      → size ≢ 0
      → q ≢ 0
      → g.mspace ≡ true
      → is_bootstrap setup q ≡ false
      → dlmalloc.mspace_malloc g.space size ≡ (q, s)
      → q + size < 2 ^ pointer_bits host
      → g.shm_base + g.shm_size < 2 ^ pointer_bits host
      → (q < g.shm_base) ⊎ (g.shm_base + g.shm_size < q + size)
      → (g.shm_base) ≢ 0
      → handle_allocate setup size g ≡ some (0, record g { space = dlmalloc.mspace_free s q })
  unfolding handle_allocate malloc mspace_malloc free
  handle_allocate_outside size q s g nonempty nonnull up apart yields block region out mapped =
      ground (arith, wrap_small host)
