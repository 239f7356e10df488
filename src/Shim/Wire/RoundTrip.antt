-- ===== src/Shim/Wire/RoundTrip.antt =====
-- Words, arrays and headers are read back (src/rlbox_process_sandbox_shim.cpp).
use native.Mathlib.Nat.{pow-suc}
use rlbox_dynamic_sandbox.Common.{
  ℕ, zero, suc, ◌+◌, ◌*◌, ◌/◌, ◌^◌, ◌<◌, ◌≡◌, ◌∙◌, refl, ap, ap₂, arith, List, [], ◌∷◌, ◌++◌, take,
  drop, length, length-append, All,
}
use rlbox_dynamic_sandbox.Shim.Wire.{
  word_bytes, read_word, array_bytes, read_array, WireJobHeader, header_bytes, read_header,
}

pub length-word_bytes : (n v : ℕ) → length (word_bytes n v) ≡ n
unfolding word_bytes
length-word_bytes zero v = refl
length-word_bytes (suc n) v = ap suc (length-word_bytes n (v / 256))

pub read_word-word_bytes : (n v : ℕ) → v < 256 ^ n → read_word (word_bytes n v) ≡ v
unfolding word_bytes read_word
read_word-word_bytes zero v h = omega arith
read_word-word_bytes (suc n) v h =
    let pow : 256 ^ suc n ≡ 256 ^ n * 256 = pow-suc 256 n in
    omega (arith, read_word-word_bytes n (v / 256) (omega arith))

pub take-append : (n : ℕ) (xs ys : List ℕ) → length xs ≡ n → take n (xs ++ ys) ≡ xs
take-append zero [] ys e = refl
take-append (suc n) [] ys e = absurd (omega arith)
take-append zero (x ∷ xs) ys e = absurd (omega arith)
take-append (suc n) (x ∷ xs) ys e = ap (λ t. x ∷ t) (take-append n xs ys (omega arith))

pub drop-append_eq : (n : ℕ) (xs ys : List ℕ) → length xs ≡ n → drop n (xs ++ ys) ≡ ys
drop-append_eq zero [] ys e = refl
drop-append_eq (suc n) [] ys e = absurd (omega arith)
drop-append_eq zero (x ∷ xs) ys e = absurd (omega arith)
drop-append_eq (suc n) (x ∷ xs) ys e = drop-append_eq n xs ys (omega arith)

pub length-array_bytes : (n : ℕ) (vs : List ℕ) → length (array_bytes n vs) ≡ length vs * n
unfolding array_bytes
length-array_bytes n [] = omega arith
length-array_bytes n (v ∷ vs) =
    length-append (word_bytes n v) (array_bytes n vs)
    ∙ ap₂ (λ a b. a + b) (length-word_bytes n v) (length-array_bytes n vs)
    ∙ (grind arith)

pub read_array-array_bytes :
    (n : ℕ) (vs : List ℕ)
    → All (λ v. v < 256 ^ n) vs
    → read_array n (length vs) (array_bytes n vs) ≡ vs
unfolding read_array array_bytes
read_array-array_bytes n [] fit = refl
read_array-array_bytes n (v ∷ vs) fit =
    let len = length-word_bytes n v in
    rw
      (
        take-append n (word_bytes n v) (array_bytes n vs) len,
        drop-append_eq n (word_bytes n v) (array_bytes n vs) len,
      )
      (ap₂ (λ w ws. w ∷ ws) (read_word-word_bytes n v fit.0) (read_array-array_bytes n vs fit.1))

pub length-header_bytes : (hdr : WireJobHeader) → length (header_bytes hdr) ≡ 16
unfolding header_bytes word_bytes
length-header_bytes hdr = refl

pub read_header-header_bytes :
    (hdr : WireJobHeader)
    → hdr.func_addr < 2 ^ 64
    → hdr.ret_tag < 2 ^ 32
    → hdr.nargs < 2 ^ 32
    → read_header (header_bytes hdr) ≡ hdr
unfolding read_header header_bytes word_bytes
read_header-header_bytes hdr f r n = λ i. record {
  func_addr = read_word-word_bytes 8 hdr.func_addr (omega arith) i;
  ret_tag = read_word-word_bytes 4 hdr.ret_tag (omega arith) i;
  nargs = read_word-word_bytes 4 hdr.nargs (omega arith) i;
}
