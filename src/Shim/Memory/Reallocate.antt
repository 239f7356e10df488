-- ===== src/Shim/Memory/Reallocate.antt =====
-- What `realloc` does with a block of the bootstrap buffer (src/rlbox_process_sandbox_shim.cpp).
use rlbox_dynamic_sandbox.Common.{
  ℕ, ◌+◌, ◌-◌, ◌<◌, ◌≡◌, ◌≢◌, refl, arith, true, false, some, min, ltb, if◌then◌else◌, ◌==◌,
}
use rlbox_dynamic_sandbox.Shim.Words.{memcpy, load_word}
use rlbox_dynamic_sandbox.Shim.Memory.{
  Setup, Allocator, word_bytes, is_bootstrap, mspace_malloc, malloc, realloc,
}

module _ {S : Type 0} (setup : Setup S) where
  open setup use {host, dlmalloc}

  -- Once the shared memory is up, `realloc` moves a block of the bootstrap buffer into the mspace: the
  -- new block starts with the bytes of the old one, as many as both sizes allow, and bytes outside the
  -- new block stay. This is for a block address and a size that are not 0, and an mspace that has room.
  pub realloc_moves :
      (ptr size i a q : ℕ) (s : S) (g : Allocator S)
      → ptr ≢ 0
      → size ≢ 0
      → q ≢ 0
      → g.mspace ≡ true
      → is_bootstrap setup ptr ≡ true
      → dlmalloc.mspace_malloc g.space size ≡ (q, s)
      → i < min (load_word (word_bytes host) (ptr - word_bytes host) g.bytes) size
      → a < q
      → (g' : Allocator S) × (realloc setup ptr size g ≡ some (q, g'))
        × (g'.space ≡ s)
        × (g'.bytes (q + i) ≡ g.bytes (ptr + i))
        × (g'.bytes a ≡ g.bytes a)
  unfolding realloc malloc mspace_malloc memcpy
  realloc_moves ptr size i a q s g p_nonnull nonempty q_nonnull up inside yields bound below =
      let old_size = load_word (word_bytes host) (ptr - word_bytes host) g.bytes in
      let copied = if ltb old_size size then old_size else size in
      let some_ptr : (ptr == 0) ≡ false = ground arith in
      let some_size : (size == 0) ≡ false = ground arith in
      let some_block : (q == 0) ≡ false = ground arith in
      let long : i < copied = ground arith in
      (
        record g { space = s; bytes = memcpy q ptr copied g.bytes },
        rw (some_ptr, some_size, inside, up, yields, some_block) refl,
        refl,
        ground arith,
        ground arith,
      )
