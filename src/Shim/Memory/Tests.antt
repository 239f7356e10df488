-- ===== src/Shim/Memory/Tests.antt =====
-- The theorems about the allocator of the sandboxed process at concrete states.
use rlbox_dynamic_sandbox.Common.{if◌then◌else◌, ℕ, ◌+◌, ◌-◌, ◌^◌, ◌≤◌, ◌≡◌, refl, arith, some, ltb}
use rlbox_dynamic_sandbox.Shim.Words.{load_word, store_word}
use rlbox_dynamic_sandbox.Shim.Memory.{Allocator, bootstrap_malloc, malloc, total_needed}
use rlbox_dynamic_sandbox.Shim.Testbed.{setup, early, up}
use rlbox_dynamic_sandbox.Shim.Memory.Bootstrap.{bootstrap_malloc_block, malloc_wraps}

abbrev header_up : Allocator ℕ
header_up = record up { bytes = λ a. if ltb a 4097 then 16 else if ltb a 4104 then 0 else 8 }

-- `early` after an allocation of 20 bytes.
abbrev after_20 : Allocator ℕ
after_20 = record early { bootstrap_offset = 64; bytes = store_word 8 4128 20 early.bytes }

bootstrap_malloc_block_example :
    (4096 + 32 + 8 ≤ 4136)
    × (4136 + 20 ≤ 4096 + 64)
    × (64 ≤ 4096)
    × (load_word 8 (4136 - 8) after_20.bytes ≡ 20)
    × (after_20.bytes 4100 ≡ 8)
unfolding store_word
bootstrap_malloc_block_example =
    bootstrap_malloc_block setup 20 4100 4136 early after_20 (omega arith) (omega arith)
      (omega arith) (unfold bootstrap_malloc total_needed in refl) (omega arith)

malloc_wraps_example :
    (g' : Allocator ℕ) × (malloc setup (2 ^ 64 - 1) early ≡ some (4096 + 32 + 8, g'))
    × (g'.bootstrap_offset ≡ 32 + 8)
malloc_wraps_example =
    malloc_wraps setup (2 ^ 64 - 1) early (omega arith) (omega arith) refl refl refl (omega arith)
