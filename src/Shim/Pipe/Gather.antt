-- ===== src/Shim/Pipe/Gather.antt =====
-- `read_full` puts partial reads together (src/rlbox_process_sandbox_shim.cpp).
use rlbox_dynamic_sandbox.Common.{
  ℕ, zero, suc, ◌-◌, ◌<◌, ◌≤◌, ◌≡◌, ◌∙◌, refl, sym, ap, arith, List, [], ◌∷◌, ◌++◌, none, some,
  length, length-append, take, drop, Bool-cases, inl, inr, ltb, ◌==◌, false,
}
use rlbox_dynamic_sandbox.Shim.Pipe.{ReadEvent, arrives, interrupted, failed, after, read_full}

-- The bytes that a pipe carries.
abbrev pub carried : List ReadEvent → List ℕ
carried [] = []
carried (arrives bytes ∷ pipe) = bytes ++ carried pipe
carried (interrupted ∷ pipe) = carried pipe
carried (failed ∷ pipe) = carried pipe

-- No read fails, and none that returns is empty.
abbrev pub IsSound : List ReadEvent → Type 0
IsSound [] = Unit
IsSound (arrives bytes ∷ pipe) = (0 < length bytes) × IsSound pipe
IsSound (interrupted ∷ pipe) = IsSound pipe
IsSound (failed ∷ pipe) = ⊥

pub take-append_short : (n : ℕ) (xs ys : List ℕ) → n ≤ length xs → take n (xs ++ ys) ≡ take n xs
take-append_short zero xs ys h = refl
take-append_short (suc n) [] ys h = absurd (omega arith)
take-append_short (suc n) (x ∷ xs) ys h = ap (λ t. x ∷ t) (take-append_short n xs ys (omega arith))

pub drop-append_short :
    (n : ℕ) (xs ys : List ℕ) → n ≤ length xs → drop n (xs ++ ys) ≡ drop n xs ++ ys
drop-append_short zero xs ys h = refl
drop-append_short (suc n) [] ys h = absurd (omega arith)
drop-append_short (suc n) (x ∷ xs) ys h = drop-append_short n xs ys (omega arith)

take-append_long :
    (n : ℕ) (xs ys : List ℕ) → length xs ≤ n → take n (xs ++ ys) ≡ xs ++ take (n - length xs) ys
take-append_long n [] ys h = ap (λ m. take m ys) (omega arith)
take-append_long zero (x ∷ xs) ys h = absurd (omega arith)
take-append_long (suc n) (x ∷ xs) ys h =
    ap (λ t. x ∷ t)
      (take-append_long n xs ys (omega arith) ∙ ap (λ m. xs ++ take m ys) (omega arith))

drop-append_long :
    (n : ℕ) (xs ys : List ℕ) → length xs ≤ n → drop n (xs ++ ys) ≡ drop (n - length xs) ys
drop-append_long n [] ys h = ap (λ m. drop m ys) (omega arith)
drop-append_long zero (x ∷ xs) ys h = absurd (omega arith)
drop-append_long (suc n) (x ∷ xs) ys h =
    drop-append_long n xs ys (omega arith) ∙ ap (λ m. drop m ys) (omega arith)

pub length-drop : (n : ℕ) (xs : List ℕ) → length (drop n xs) ≡ length xs - n
length-drop zero xs = omega arith
length-drop (suc n) [] = omega arith
length-drop (suc n) (x ∷ xs) = omega (arith, length-drop n xs)

-- If the pipe carries fewer bytes, `read_full` returns false, on such a pipe.
pub read_full_short :
    (n : ℕ) (pipe : List ReadEvent)
    → IsSound pipe
    → length (carried pipe) < n
    → read_full n pipe ≡ none
unfolding read_full after
read_full_short zero pipe sound h = absurd (omega arith)
read_full_short (suc n) [] sound h = refl
read_full_short (suc n) (failed ∷ pipe) sound h = refl
read_full_short (suc n) (interrupted ∷ pipe) sound h = read_full_short (suc n) pipe sound h
read_full_short (suc n) (arrives bytes ∷ pipe) sound h =
    let all = length-append bytes (carried pipe) in
    ground (arith, read_full_short (suc n - length bytes) pipe sound.1 (omega arith))

-- If the pipe carries at least `n` bytes, `read_full` returns true with the first `n` of them, in
-- whatever pieces they arrive and however often a signal interrupts; what is left in the pipe carries
-- the rest, and no read of it fails. This is for a pipe on which no read fails.
pub read_full_gathers :
    (n : ℕ) (pipe : List ReadEvent)
    → IsSound pipe
    → n ≤ length (carried pipe)
    → (pipe' : List ReadEvent) × (read_full n pipe ≡ some (take n (carried pipe), pipe'))
      × (carried pipe' ≡ drop n (carried pipe))
      × IsSound pipe'
unfolding read_full after
read_full_gathers zero pipe sound h = (pipe, refl, refl, sound)
read_full_gathers (suc n) [] sound h = absurd (omega arith)
read_full_gathers (suc n) (failed ∷ pipe) sound h = absurd sound
read_full_gathers (suc n) (interrupted ∷ pipe) sound h = read_full_gathers (suc n) pipe sound h
read_full_gathers (suc n) (arrives bytes ∷ pipe) sound h =
    let some_bytes : (length bytes == 0) ≡ false = ground arith in
    elim (Bool-cases (ltb (suc n) (length bytes))) [
      | inl more ↦ (
        arrives (drop (suc n) bytes) ∷ pipe,
        rw (some_bytes, more)
            (ap (λ t. some (t, arrives (drop (suc n) bytes) ∷ pipe))
              (sym (take-append_short (suc n) bytes (carried pipe) (ground arith)))),
        sym (drop-append_short (suc n) bytes (carried pipe) (ground arith)),
        (ground (arith, length-drop (suc n) bytes), sound.1),
      )
      | inr fits ↦
          let all = length-append bytes (carried pipe) in
          let (pipe', reads, leaves, sound') =
            read_full_gathers (suc n - length bytes) pipe sound.1 (omega arith) in
          let within : length bytes ≤ suc n = ground arith in
          (
            pipe',
            rw (some_bytes, fits, reads)
                (ap (λ t. some (t, pipe'))
                  (sym (take-append_long (suc n) bytes (carried pipe) within))),
            leaves ∙ sym (drop-append_long (suc n) bytes (carried pipe) within),
            sound',
          )
    ]
