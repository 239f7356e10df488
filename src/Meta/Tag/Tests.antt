-- ===== src/Meta/Tag/Tests.antt =====
-- Runs of the tag operations, and the theorems about them at concrete pointers.
use rlbox_dynamic_sandbox.Common.{◌+◌, ◌^◌, ◌≡◌, ◌≢◌, refl, arith}
use rlbox_dynamic_sandbox.Meta.Types.{i386, x86_64, process, wasm}
use rlbox_dynamic_sandbox.Meta.Tag.{tag_owner, tag_strip, tag_wasm}
use rlbox_dynamic_sandbox.Meta.Tag.Laws.{IsWord, tag_round_trip}

strips : tag_strip x86_64 (2 ^ 63 + 4096) ≡ 4096
unfolding tag_strip
strips = refl

tag_round_trip_example :
    (tag_owner i386 4096 ≡ process)
    × (tag_strip i386 4096 ≡ 4096)
    × IsWord i386 (tag_wasm i386 4096)
    × (tag_wasm i386 4096 ≢ 4096)
    × (tag_owner i386 (tag_wasm i386 4096) ≡ wasm)
    × (tag_strip i386 (tag_wasm i386 4096) ≡ 4096)
tag_round_trip_example = tag_round_trip i386 4096 (omega arith)
