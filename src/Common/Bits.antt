-- ===== src/Common/Bits.antt =====
-- Laws of `bit_and` and `bit_or` with a power of two, at every width.
use Prim.Native.Nat.{
  ℕ, zero, suc, ◌+◌, ◌-◌, ◌*◌, ◌/◌, ◌%◌, ◌^◌, ◌≤◌, ◌<◌, min, max, bit_and, bit_or, digits,
  bit_and-bitwise, bit_or-bitwise,
}
use mathlib.Core.Path.{◌≡◌, refl, sym, ap, subst, ◌∙◌}
use native.Mathlib.Nat.{le_refl, pow-suc, mul_assoc}
use native.Mathlib.Omega.{arith}

-- Fuel beyond the first operand makes no difference to the digit recursion.
module _ (rest : ℕ → ℕ) (op : ℕ → ℕ → ℕ) where
  more_fuel : (k x y fuel : ℕ) → x ≤ k → x ≤ fuel → digits rest op fuel x y ≡ digits rest op k x y
  more_fuel zero zero y zero hk hf = refl
  more_fuel zero zero y (suc fuel) hk hf = refl
  more_fuel zero (suc x) y fuel hk hf = absurd (omega arith)
  more_fuel (suc k) zero y zero hk hf = refl
  more_fuel (suc k) zero y (suc fuel) hk hf = refl
  more_fuel (suc k) (suc x) y zero hk hf = absurd (omega arith)
  more_fuel (suc k) (suc x) y (suc fuel) hk hf =
      rw (more_fuel k (suc x / 2) (y / 2) fuel (omega arith) (omega arith))

pub pow_pos : (k : ℕ) → 0 < 2 ^ k
pow_pos zero = omega arith
pow_pos (suc k) = omega (arith, pow_pos k, pow-suc 2 k)

-- One more low digit of the second operand.
bit_and_digit :
    (x y d z : ℕ) → d < 2 → z ≡ y * 2 + d → bit_and x z ≡ bit_and (x / 2) y * 2 + min (x % 2) d
bit_and_digit zero y d z h e = simp bit_and-bitwise (omega arith)
bit_and_digit (suc x) y d z h e =
    let below = more_fuel (λ b. zero) min (suc x / 2) (suc x / 2) y x (le_refl _) (omega arith) in
    let half : z / 2 ≡ y = omega arith in
    let low : z % 2 ≡ d = omega arith in simp bit_and-bitwise (rw (half, low, below))

bit_or_double : (x y z : ℕ) → z ≡ y * 2 → bit_or x z ≡ bit_or (x / 2) y * 2 + x % 2
bit_or_double zero y z e = simp bit_or-bitwise (omega arith)
bit_or_double (suc x) y z e =
    let below = more_fuel (λ b. b) max (suc x / 2) (suc x / 2) y x (le_refl _) (omega arith) in
    let half : z / 2 ≡ y = omega arith in
    let low : z % 2 ≡ 0 = omega arith in simp bit_or-bitwise (rw (half, low, below) (omega arith))

bit_and-zero_fuel : (n x : ℕ) → x ≤ n → bit_and x 0 ≡ 0
bit_and-zero_fuel zero zero h = refl
bit_and-zero_fuel zero (suc x) h = absurd (omega arith)
bit_and-zero_fuel (suc n) x h =
    omega
      (arith, bit_and_digit x 0 0 0 (omega arith) refl, bit_and-zero_fuel n (x / 2) (omega arith))

-- The top bit of a word of `k + 1` bits, read by its mask, cleared by the complement, and set.
pub bit_and-top_clear : (k x : ℕ) → x < 2 ^ k → bit_and x (2 ^ k) ≡ 0
bit_and-top_clear zero zero h = bit_and-bitwise 0 1
bit_and-top_clear zero (suc x) h = absurd (omega arith)
bit_and-top_clear (suc k) x h =
    let p : 2 ^ suc k ≡ 2 ^ k * 2 = pow-suc 2 k in
    omega (
      arith,
      bit_and_digit x (2 ^ k) 0 (2 ^ suc k) (omega arith) (omega arith),
      bit_and-top_clear k (x / 2) (omega arith),
    )

pub bit_and-top_set : (k x : ℕ) → 2 ^ k ≤ x → x < 2 ^ suc k → bit_and x (2 ^ k) ≡ 2 ^ k
bit_and-top_set zero zero lo h = absurd (omega arith)
bit_and-top_set zero (suc zero) lo h = refl
bit_and-top_set zero (suc (suc x)) lo h = absurd (omega arith)
bit_and-top_set (suc k) x lo h =
    let p : 2 ^ suc k ≡ 2 ^ k * 2 = pow-suc 2 k in
    let q : 2 ^ suc (suc k) ≡ 2 ^ suc k * 2 = pow-suc 2 (suc k) in
    omega (
      arith,
      bit_and_digit x (2 ^ k) 0 (2 ^ suc k) (omega arith) (omega arith),
      bit_and-top_set k (x / 2) (omega arith) (omega arith),
    )

pub bit_and-low_clear : (k x : ℕ) → x < 2 ^ k → bit_and x (2 ^ k - 1) ≡ x
bit_and-low_clear zero zero h = bit_and-bitwise 0 0
bit_and-low_clear zero (suc x) h = absurd (omega arith)
bit_and-low_clear (suc k) x h =
    let p : 2 ^ suc k ≡ 2 ^ k * 2 = pow-suc 2 k in
    let q : 0 < 2 ^ k = pow_pos k in
    omega (
      arith,
      bit_and_digit x (2 ^ k - 1) 1 (2 ^ suc k - 1) (omega arith) (omega arith),
      bit_and-low_clear k (x / 2) (omega arith),
    )

pub bit_and-low_set : (k x : ℕ) → 2 ^ k ≤ x → x < 2 ^ suc k → bit_and x (2 ^ k - 1) ≡ x - 2 ^ k
bit_and-low_set zero zero lo h = absurd (omega arith)
bit_and-low_set zero (suc zero) lo h = refl
bit_and-low_set zero (suc (suc x)) lo h = absurd (omega arith)
bit_and-low_set (suc k) x lo h =
    let p : 2 ^ suc k ≡ 2 ^ k * 2 = pow-suc 2 k in
    let q : 2 ^ suc (suc k) ≡ 2 ^ suc k * 2 = pow-suc 2 (suc k) in
    let r : 0 < 2 ^ k = pow_pos k in
    omega (
      arith,
      bit_and_digit x (2 ^ k - 1) 1 (2 ^ suc k - 1) (omega arith) (omega arith),
      bit_and-low_set k (x / 2) (omega arith) (omega arith),
    )

pub bit_or-top_clear : (k x : ℕ) → x < 2 ^ k → bit_or x (2 ^ k) ≡ x + 2 ^ k
bit_or-top_clear zero zero h = refl
bit_or-top_clear zero (suc x) h = absurd (omega arith)
bit_or-top_clear (suc k) x h =
    let p : 2 ^ suc k ≡ 2 ^ k * 2 = pow-suc 2 k in
    omega (arith, bit_or_double x (2 ^ k) (2 ^ suc k) p, bit_or-top_clear k (x / 2) (omega arith))

pub bit_or-top_set : (k x : ℕ) → 2 ^ k ≤ x → x < 2 ^ suc k → bit_or x (2 ^ k) ≡ x
bit_or-top_set zero zero lo h = absurd (omega arith)
bit_or-top_set zero (suc zero) lo h = refl
bit_or-top_set zero (suc (suc x)) lo h = absurd (omega arith)
bit_or-top_set (suc k) x lo h =
    let p : 2 ^ suc k ≡ 2 ^ k * 2 = pow-suc 2 k in
    let q : 2 ^ suc (suc k) ≡ 2 ^ suc k * 2 = pow-suc 2 (suc k) in
    omega (
      arith,
      bit_or_double x (2 ^ k) (2 ^ suc k) p,
      bit_or-top_set k (x / 2) (omega arith) (omega arith),
    )

unary : (k j : ℕ) → suc k + j ≡ suc (k + j)
unary k j = omega arith

-- Masking off the low `k` bits of a word of `k + j` bits leaves the multiple of `2 ^ k` at or below it.
pub bit_and-mask :
    (k j x : ℕ)
    → x < 2 ^ (k + j)
    → (q : ℕ) × (bit_and x (2 ^ (k + j) - 2 ^ k) ≡ q * 2 ^ k)
      × (q * 2 ^ k ≤ x)
      × (x < q * 2 ^ k + 2 ^ k)
bit_and-mask zero j x h =
    let z : 0 + j ≡ j = omega arith in
    (
      x,
      rw z (bit_and-low_clear j x (subst (λ n. x < 2 ^ n) z h) ∙ (omega arith)),
      omega arith,
      omega arith,
    )
bit_and-mask (suc k) j x h =
    let p : 2 ^ suc k ≡ 2 ^ k * 2 = pow-suc 2 k in
    let r : 2 ^ (suc k + j) ≡ 2 ^ (k + j) * 2 = ap (λ n. 2 ^ n) (unary k j) ∙ pow-suc 2 (k + j) in
    let (q, e, lo, hi) = bit_and-mask k j (x / 2) (omega arith) in
    let double : q * 2 ^ suc k ≡ q * 2 ^ k * 2 = ap (λ n. q * n) p ∙ sym (mul_assoc q (2 ^ k) 2) in
    let digit =
      bit_and_digit x (2 ^ (k + j) - 2 ^ k) 0 (2 ^ (suc k + j) - 2 ^ suc k) (omega arith)
        (omega arith) in
    (q, omega (arith, digit), omega arith, omega arith)
