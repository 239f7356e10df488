-- ===== src/Meta/Casts/Values.antt =====
-- Casts of integers (include/rlbox_meta_sandbox.hpp) keep the value, if the type is not made narrower.
use native.Mathlib.Nat.{pow-suc, two-pow-succ, pow-le-pow_right, mod-eq_of_lt}
use rlbox_dynamic_sandbox.Common.{
  ℕ, ◌+◌, ◌-◌, ◌*◌, ◌^◌, ◌<◌, ◌≤◌, ◌≡◌, ◌∙◌, refl, sym, ap, arith, zero, suc, true, false, ltb,
  if◌then◌else◌, dec_lt,
}
use rlbox_dynamic_sandbox.Abi.{sign_extend}
use rlbox_dynamic_sandbox.Meta.Casts.{cast}

eight_bits : (k : ℕ) → 2 ^ (k + 8) ≡ 2 ^ k * 256
eight_bits zero = refl
eight_bits (suc k) =
    let e : ◌≡◌ {A = ℕ} (suc k + 8) (suc (k + 8)) = omega arith in
    let whole : 2 ^ (suc k + 8) ≡ 2 ^ (k + 8) * 2 = ap (λ n. 2 ^ n) e ∙ pow-suc 2 (k + 8) in
    omega (arith, whole, pow-suc 2 k, eight_bits k)

next : (n : ℕ) → 8 * suc n ≡ 8 * n + 8
next n = omega arith

-- The number of values of so many bytes, as a power of 2.
bytes_bits : (n : ℕ) → 2 ^ (8 * n) ≡ 256 ^ n
bytes_bits zero = refl
bytes_bits (suc n) =
    omega (arith, ap (λ k. 2 ^ k) (next n), eight_bits (8 * n), bytes_bits n, pow-suc 256 n)

two_halves : (n : ℕ) → 0 < n → 2 ^ (8 * n - 1) + 2 ^ (8 * n - 1) ≡ 256 ^ n
two_halves n some_bytes =
    let next : ◌≡◌ {A = ℕ} (suc (8 * n - 1)) (8 * n) = omega arith in
    sym (two-pow-succ (8 * n - 1)) ∙ ap (λ k. 2 ^ k) next ∙ bytes_bits n

-- An unsigned value stays as it is. A signed one, in two's complement, does so if it is not negative, and
-- is as far below the number of values as it was if it is negative.
pub cast_widens :
    (from to v : ℕ)
    → 0 < from
    → from ≤ to
    → v < 256 ^ from
    → (cast false from to v ≡ v)
      × (cast true from to v
          ≡ (if ltb (v + v) (256 ^ from) then v else v + (256 ^ to - 256 ^ from)))
unfolding cast sign_extend
cast_widens from to v some_bytes wider fits =
    let half = two_halves from some_bytes in
    let narrow = bytes_bits from in
    let wide = bytes_bits to in
    let more : 256 ^ from ≤ 256 ^ to = pow-le-pow_right (omega arith) wider in
    (
      mod-eq_of_lt (omega arith),
      elim (dec_lt (v + v) (256 ^ from)) [
        | yes low ↦
            let below : ltb v (2 ^ (8 * from - 1)) ≡ true = ground arith in
            let small : ltb (v + v) (256 ^ from) ≡ true = ground arith in
            rw (below, small) (mod-eq_of_lt (omega arith))
        | no high ↦
            let above : ltb v (2 ^ (8 * from - 1)) ≡ false = ground arith in
            let large : ltb (v + v) (256 ^ from) ≡ false = ground arith in
            rw (above, large, narrow, wide) (mod-eq_of_lt (omega arith))
      ],
    )
