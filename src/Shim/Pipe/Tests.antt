-- ===== src/Shim/Pipe/Tests.antt =====
-- The theorem about partial reads at a concrete pipe.
use rlbox_dynamic_sandbox.Common.{◌≡◌, arith, List, [], ◌∷◌, some}
use rlbox_dynamic_sandbox.Shim.Pipe.{ReadEvent, arrives, interrupted, read_full}
use rlbox_dynamic_sandbox.Shim.Pipe.Gather.{carried, IsSound, read_full_gathers}

abbrev pieces : List ReadEvent
pieces = arrives (1 ∷ 2 ∷ []) ∷ interrupted ∷ arrives (3 ∷ 4 ∷ 5 ∷ []) ∷ []

read_full_gathers_example :
    (pipe' : List ReadEvent) × (read_full 4 pieces ≡ some (1 ∷ 2 ∷ 3 ∷ 4 ∷ [], pipe'))
    × (carried pipe' ≡ 5 ∷ [])
    × IsSound pipe'
read_full_gathers_example =
    read_full_gathers 4 pieces (omega arith, (omega arith, tt)) (omega arith)
