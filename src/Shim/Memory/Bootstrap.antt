-- ===== src/Shim/Memory/Bootstrap.antt =====
-- Allocations out of the bootstrap buffer (src/rlbox_process_sandbox_shim.cpp).
use rlbox_dynamic_sandbox.Common.{
  ℕ, ◌+◌, ◌-◌, ◌*◌, ◌/◌, ◌^◌, ◌≤◌, ◌<◌, ◌≡◌, ◌≢◌, refl, sym, ap, arith, true, false, some, ltb,
  ◌==◌, Bool-cases, inl, inr,
}
use rlbox_dynamic_sandbox.Meta.Types.{Host, i386, x86_64, pointer_bits}
use rlbox_dynamic_sandbox.Shim.Words.{load_word, store_word, load_word-store_word, store_word_ne}
use rlbox_dynamic_sandbox.Shim.Memory.{
  Setup, Allocator, bootstrap_size, word_bytes, wrap, total_needed, bootstrap_malloc, malloc,
}

-- Sizes that leave room for the rounding and the header.
total_needed-bounds :
    (host : Host) (size : ℕ)
    → size + 16 ≤ 2 ^ pointer_bits host
    → let t = wrap host (wrap host (size + 7) / 8 * 8 + word_bytes host) in
      (size + word_bytes host ≤ t) × (t < 2 ^ pointer_bits host)
total_needed-bounds i386 size h = (omega arith, omega arith)
total_needed-bounds x86_64 size h = (omega arith, omega arith)

offset_in_bounds :
    (host : Host) (off size : ℕ)
    → size + 4200 ≤ 2 ^ pointer_bits host
    → off ≤ bootstrap_size
    → let t = wrap host (wrap host (size + 7) / 8 * 8 + word_bytes host) in
      off + t ≤ wrap host (off + t)
offset_in_bounds i386 off size h k = omega arith
offset_in_bounds x86_64 off size h k = omega arith

word_range : (host : Host) (size : ℕ) → size < 2 ^ pointer_bits host → size < 256 ^ word_bytes host
word_range i386 size h = omega arith
word_range x86_64 size h = omega arith

wraps :
    (host : Host) (size : ℕ)
    → 2 ^ pointer_bits host ≤ size + 7
    → size < 2 ^ pointer_bits host
    → (off : ℕ) → off + word_bytes host ≤ bootstrap_size
    → wrap host (off + wrap host (wrap host (size + 7) / 8 * 8 + word_bytes host))
      ≡ off + word_bytes host
wraps i386 size high fits off room = omega arith
wraps x86_64 size high fits off room = omega arith

wraps_nonzero : (host : Host) (size : ℕ) → 2 ^ pointer_bits host ≤ size + 7 → (size == 0) ≡ false
wraps_nonzero i386 size high = ground arith
wraps_nonzero x86_64 size high = ground arith

module _ {S : Type 0} (setup : Setup S) where
  open setup use {host, bootstrap_buf}

  -- A block that the bootstrap buffer yields lies behind what was handed out before and inside the
  -- buffer, up to the new offset; its size is readable in front of it, and what was handed out before
  -- keeps its bytes. This is for requests up to 4200 bytes short of the address space.
  pub bootstrap_malloc_block :
      (size i p : ℕ) (g g' : Allocator S)
      → size + 4200 ≤ 2 ^ pointer_bits host
      → g.bootstrap_offset ≤ bootstrap_size
      → i < bootstrap_buf + g.bootstrap_offset
      → bootstrap_malloc setup size g ≡ (p, g')
      → p ≢ 0
      → (bootstrap_buf + g.bootstrap_offset + word_bytes host ≤ p)
        × (p + size ≤ bootstrap_buf + g'.bootstrap_offset)
        × (g'.bootstrap_offset ≤ bootstrap_size)
        × (load_word (word_bytes host) (p - word_bytes host) g'.bytes ≡ size)
        × (g'.bytes i ≡ g.bytes i)
  unfolding bootstrap_malloc total_needed
  bootstrap_malloc_block size i p g g' small within before e nonnull =
      let t = wrap host (wrap host (size + 7) / 8 * 8 + word_bytes host) in
      let raw = bootstrap_buf + g.bootstrap_offset in
      let bounds = total_needed-bounds host size (omega arith) in
      let kept = offset_in_bounds host g.bootstrap_offset size small within in
      elim (Bool-cases (ltb bootstrap_size (wrap host (g.bootstrap_offset + t)))) [
        | inl full ↦ absurd (ground arith)
        | inr room ↦
            let taken : ◌≡◌ {A = ℕ × Allocator S}
                (
                  raw + word_bytes host,
                  record g {
                    bootstrap_offset = wrap host (g.bootstrap_offset + t);
                    bytes = store_word (word_bytes host) raw size g.bytes;
                  },
                )
                (p, g') =
              rw room at e in
            let at : p ≡ raw + word_bytes host = sym (ap (λ (x : ℕ × Allocator S). x.0) taken) in
            let off : g'.bootstrap_offset ≡ wrap host (g.bootstrap_offset + t) =
              sym (ap (λ (x : ℕ × Allocator S). x.1.bootstrap_offset) taken) in
            let mem : g'.bytes ≡ store_word (word_bytes host) raw size g.bytes =
              sym (ap (λ (x : ℕ × Allocator S). x.1.bytes) taken) in
            let header : p - word_bytes host ≡ raw = omega arith in
            (
              omega arith,
              omega (arith, bounds.0, kept),
              ground arith,
              rw (header, mem)
                  (load_word-store_word (word_bytes host) raw size g.bytes
                    (word_range host size (omega arith))),
              rw mem (store_word_ne (word_bytes host) raw size i g.bytes before),
            )
      ]

  -- A request less than 8 bytes short of the address space wraps round: before the shared memory is
  -- there, `malloc` answers it with a block that has room for the header alone.
  pub malloc_wraps :
      (size : ℕ) (g : Allocator S)
      → 2 ^ pointer_bits host ≤ size + 7
      → size < 2 ^ pointer_bits host
      → g.init_done ≡ true
      → g.in_init ≡ false
      → g.mspace ≡ false
      → g.bootstrap_offset + word_bytes host ≤ bootstrap_size
      → (g' : Allocator S) × (malloc setup size g
          ≡ some (bootstrap_buf + g.bootstrap_offset + word_bytes host, g'))
        × (g'.bootstrap_offset ≡ g.bootstrap_offset + word_bytes host)
  unfolding malloc bootstrap_malloc total_needed
  malloc_wraps size g high fits done outside absent room =
      let t = wraps host size high fits g.bootstrap_offset room in
      let zero : (size == 0) ≡ false = wraps_nonzero host size high in
      let fit : ltb bootstrap_size (
            wrap host
              (g.bootstrap_offset + wrap host (wrap host (size + 7) / 8 * 8 + word_bytes host)))
          ≡ false =
        ground arith in
      (
        record g {
          bootstrap_offset =
              wrap host
                (g.bootstrap_offset + wrap host (wrap host (size + 7) / 8 * 8 + word_bytes host));
          bytes = store_word (word_bytes host) (bootstrap_buf + g.bootstrap_offset) size g.bytes;
        },
        rw (zero, done, outside, absent, fit) refl,
        t,
      )
