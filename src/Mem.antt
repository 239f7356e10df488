-- ===== src/Mem.antt =====
-- The aligned reservation of address space: `os_mmap_aligned` of include/rlbox_process_mem.hpp.
--
-- The kernel's two calls are fields of `Os`; a failed `mmap` is `none`.
pub mod Aligned
mod Tests
use rlbox_dynamic_sandbox.Common.{
  ℕ, ◌+◌, ◌-◌, ◌%◌, ◌^◌, Option, none, some, bit_and, ltb, if◌then◌else◌,
}
use rlbox_dynamic_sandbox.Meta.Types.{Host, pointer_bits}

-- `mmap(NULL, length, PROT_NONE, ...)` and `munmap(address, length)`.
pub record Os (K : Type 0) : Type 0 where
  pub mmap : ℕ → K → Option ℕ × K
  pub munmap : ℕ → ℕ → K → K

module _ {K : Type 0} (h : Host) (os : Os K) where
  -- `(unaligned_addr + (alignment - 1)) & ~(alignment - 1)`
  unfoldable pub align_up : ℕ → ℕ → ℕ
  align_up addr alignment =
      bit_and ((addr + (alignment - 1)) % 2 ^ pointer_bits h)
        (2 ^ pointer_bits h - 1 - (alignment - 1))

  -- What is mapped outside the aligned block is given back, in front and behind.
  unfoldable pub trim : ℕ → ℕ → ℕ → ℕ → K → ℕ × K
  unfolding align_up
  trim requested_length alignment padded_length addr k =
      let aligned_addr = align_up addr alignment in
      let unused_front = aligned_addr - addr in
      let unused_back = padded_length - unused_front - requested_length in
      let k1 = if ltb 0 unused_front then os.munmap addr unused_front k else k in
      let k2 =
        if ltb 0 unused_back
        then os.munmap (aligned_addr + requested_length) unused_back k1
        else k1 in
      (aligned_addr, k2)

  unfoldable pub os_mmap_aligned : ℕ → ℕ → K → ℕ × K
  unfolding trim
  os_mmap_aligned requested_length alignment k =
      let padded_length = (requested_length + alignment) % 2 ^ pointer_bits h in
      let (mapped, k1) = os.mmap padded_length k in
      elim mapped [
        | none ↦ (0, k1)
        | some addr ↦ trim requested_length alignment padded_length addr k1
      ]
