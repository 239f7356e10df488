-- ===== src/Shim/Pipe/Sent.antt =====
-- What `write_full` puts into a pipe (src/rlbox_process_sandbox_shim.cpp).
use mathlib.Core.List.{append_assoc}
use rlbox_dynamic_sandbox.Common.{
  ℕ, zero, suc, ◌+◌, ◌<◌, ◌≤◌, ◌≡◌, ◌∙◌, refl, ap, arith, true, false, List, [], ◌∷◌, ◌++◌, length,
  length-append, take, drop,
}
use rlbox_dynamic_sandbox.Shim.Pipe.Gather.{length-drop}
use rlbox_dynamic_sandbox.Shim.Pipe.{WriteEvent, accepts, refused_by_signal, broken, write_full}

pub take-append-drop : (n : ℕ) (xs : List ℕ) → take n xs ++ drop n xs ≡ xs
take-append-drop zero xs = refl
take-append-drop (suc n) [] = refl
take-append-drop (suc n) (x ∷ xs) = ap (λ t. x ∷ t) (take-append-drop n xs)

-- How many bytes the writes take, if nothing but signals comes between them.
abbrev pub capacity : List WriteEvent → ℕ
capacity [] = 0
capacity (accepts n ∷ ws) = suc n + capacity ws
capacity (refused_by_signal ∷ ws) = capacity ws
capacity (broken ∷ ws) = 0

-- What went into the pipe is the start of the buffer, and all of it if the result is true.
pub write_full_prefix :
    (buf : List ℕ) (ws : List WriteEvent)
    → (rest : List ℕ) × ((write_full buf ws).sent ++ rest ≡ buf)
      × ((write_full buf ws).done ≡ true → rest ≡ [])
unfolding write_full
write_full_prefix [] ws = ([], refl, λ e. refl)
write_full_prefix (b ∷ bs) [] = (b ∷ bs, refl, λ e. cc)
write_full_prefix (b ∷ bs) (broken ∷ ws) = (b ∷ bs, refl, λ e. cc)
write_full_prefix (b ∷ bs) (refused_by_signal ∷ ws) = write_full_prefix (b ∷ bs) ws
write_full_prefix (b ∷ bs) (accepts n ∷ ws) =
    let (rest, whole, none_left) = write_full_prefix (drop n bs) ws in
    (
      rest,
      ap (λ t. b ∷ t)
          (append_assoc (take n bs) (write_full (drop n bs) ws).sent rest
            ∙ ap (λ t. take n bs ++ t) whole
            ∙ take-append-drop n bs),
      none_left,
    )

-- If the writes take as many bytes, the whole buffer goes into the pipe.
pub write_full_done :
    (buf : List ℕ) (ws : List WriteEvent)
    → length buf ≤ capacity ws
    → ((write_full buf ws).done ≡ true) × ((write_full buf ws).sent ≡ buf)
unfolding write_full
write_full_done [] ws room = (refl, refl)
write_full_done (b ∷ bs) [] room = absurd (omega arith)
write_full_done (b ∷ bs) (broken ∷ ws) room = absurd (omega arith)
write_full_done (b ∷ bs) (refused_by_signal ∷ ws) room = write_full_done (b ∷ bs) ws room
write_full_done (b ∷ bs) (accepts n ∷ ws) room =
    let (done, sent) = write_full_done (drop n bs) ws (omega (arith, length-drop n bs)) in
    (done, ap (λ t. b ∷ take n bs ++ t) sent ∙ ap (λ t. b ∷ t) (take-append-drop n bs))

-- If the result is false, something is missing.
pub write_full_cut :
    (buf : List ℕ) (ws : List WriteEvent)
    → (write_full buf ws).done ≡ false
    → length (write_full buf ws).sent < length buf
unfolding write_full
write_full_cut [] ws e = absurd (ground arith)
write_full_cut (b ∷ bs) [] e = omega arith
write_full_cut (b ∷ bs) (broken ∷ ws) e = omega arith
write_full_cut (b ∷ bs) (refused_by_signal ∷ ws) e = write_full_cut (b ∷ bs) ws e
write_full_cut (b ∷ bs) (accepts n ∷ ws) e =
    let halves = ap length (take-append-drop n bs) in
    let tail = write_full_cut (drop n bs) ws e in
    omega (
      arith,
      halves,
      tail,
      length-append (take n bs) (drop n bs),
      length-append (take n bs) (write_full (drop n bs) ws).sent,
    )
