-- ===== src/Meta/Tag.antt =====
-- The ownership tag in the high bit of a pointer (META_TAG_WASM, tag_owner, tag_strip, tag_wasm of
-- include/rlbox_meta_sandbox.hpp).
pub mod Laws
mod Tests
use rlbox_dynamic_sandbox.Common.{ℕ, ◌+◌, ◌-◌, ◌^◌, Bool, not, bit_and, bit_or, ◌==◌, if◌then◌else◌}
use rlbox_dynamic_sandbox.Meta.Types.{Host, pointer_bits, MetaBackend, process, wasm}

-- `META_TAG_WASM`, and `META_TAG_MASK`, which is the same
abbrev pub meta_tag_wasm : Host → ℕ
meta_tag_wasm h = 2 ^ (pointer_bits h - 1)

-- `p & META_TAG_MASK`, as a condition
unfoldable pub has_tag : Host → ℕ → Bool
has_tag h p = not (bit_and p (meta_tag_wasm h) == 0)

unfoldable pub tag_owner : Host → ℕ → MetaBackend
tag_owner h p = if has_tag h p then wasm else process

-- `~META_TAG_MASK` is the word of all ones less the mask.
unfoldable pub tag_strip : Host → ℕ → ℕ
tag_strip h p = bit_and p (2 ^ pointer_bits h - 1 - meta_tag_wasm h)

unfoldable pub tag_wasm : Host → ℕ → ℕ
tag_wasm h p = bit_or p (meta_tag_wasm h)
