-- ===== src/Shim/Pipe.antt =====
-- `read_full` of src/rlbox_process_sandbox_shim.cpp, over the results that `read` gives: bytes that have
-- arrived, of which a call takes as many as fit, an interruption by a signal, or another error. A pipe
-- without further results is closed at the other end.
pub mod Gather
pub mod Sent
mod Tests
use rlbox_dynamic_sandbox.Common.{
  ℕ, zero, suc, ◌-◌, Bool, true, false, List, [], ◌∷◌, ◌++◌, Option, none, some, length, take, drop,
  ltb, ◌==◌, if◌then◌else◌,
}

pub data ReadEvent : Type 0 where
  arrives : List ℕ → ReadEvent
  interrupted failed : ReadEvent

-- The bytes that the buffer gets in front of those of the rest of the loop.
unfoldable pub after : List ℕ → Option (List ℕ × List ReadEvent) → Option (List ℕ × List ReadEvent)
after bytes none = none
after bytes (some (rest, pipe)) = some (bytes ++ rest, pipe)

-- The bytes read and what is left in the pipe; `none` is the result false.
unfoldable pub read_full : ℕ → List ReadEvent → Option (List ℕ × List ReadEvent)
unfolding after
read_full zero pipe = some ([], pipe)
read_full (suc n) [] = none
read_full (suc n) (failed ∷ pipe) = none
read_full (suc n) (interrupted ∷ pipe) = read_full (suc n) pipe
read_full (suc n) (arrives bytes ∷ pipe) =
    let rest = after bytes (read_full (suc n - length bytes) pipe) in
    if length bytes == 0
    then none
    else if ltb (suc n) (length bytes)
    then some (take (suc n) bytes, arrives (drop (suc n) bytes) ∷ pipe)
    else rest

-- What a `write` does: it takes at most the number of bytes and one more, is interrupted, or fails. A
-- pipe without further results has no reader.
pub data WriteEvent : Type 0 where
  accepts : ℕ → WriteEvent
  refused_by_signal broken : WriteEvent

-- What `write_full` returns, the bytes that went into the pipe, and the results that are left.
pub record Written : Type 0 where
  pub done : Bool
  pub sent : List ℕ
  pub writes : List WriteEvent

unfoldable pub after_sent : List ℕ → Written → Written
after_sent bytes w = record w { sent = bytes ++ w.sent }

unfoldable pub write_full : List ℕ → List WriteEvent → Written
unfolding after_sent
write_full [] ws = record { done = true; sent = []; writes = ws }
write_full (b ∷ bs) [] = record { done = false; sent = []; writes = [] }
write_full (b ∷ bs) (broken ∷ ws) = record { done = false; sent = []; writes = ws }
write_full (b ∷ bs) (refused_by_signal ∷ ws) = write_full (b ∷ bs) ws
write_full (b ∷ bs) (accepts n ∷ ws) = after_sent (b ∷ take n bs) (write_full (drop n bs) ws)
