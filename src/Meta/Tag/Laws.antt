-- ===== src/Meta/Tag/Laws.antt =====
-- The tag operations of include/rlbox_meta_sandbox.hpp in terms of the order of pointers.
use rlbox_dynamic_sandbox.Common.{
  ℕ, ◌+◌, ◌-◌, ◌≤◌, ◌<◌, ◌%◌, ◌^◌, ◌≡◌, ◌≢◌, ◌⊎◌, inl, inr, refl, arith, true, false, dec_lt,
  bit_and-top_clear, bit_and-top_set, bit_and-low_clear, bit_and-low_set, bit_or-top_clear,
  bit_or-top_set,
}
use rlbox_dynamic_sandbox.Meta.Types.{Host, i386, x86_64, pointer_bits, process, wasm}
use rlbox_dynamic_sandbox.Meta.Tag.{meta_tag_wasm, has_tag, tag_owner, tag_strip, tag_wasm}

-- `p` is a machine word of the host.
abbrev pub IsWord : Host → ℕ → Type 0
IsWord h p = p < 2 ^ pointer_bits h

pub has_tag_clear : (h : Host) (p : ℕ) → p < meta_tag_wasm h → has_tag h p ≡ false
unfolding has_tag
has_tag_clear i386 p lt = ground (arith, bit_and-top_clear 31 p lt)
has_tag_clear x86_64 p lt = ground (arith, bit_and-top_clear 63 p lt)

pub has_tag_set : (h : Host) (p : ℕ) → meta_tag_wasm h ≤ p → IsWord h p → has_tag h p ≡ true
unfolding has_tag
has_tag_set i386 p le w = ground (arith, bit_and-top_set 31 p le w)
has_tag_set x86_64 p le w = ground (arith, bit_and-top_set 63 p le w)

pub tag_strip_clear : (h : Host) (p : ℕ) → p < meta_tag_wasm h → tag_strip h p ≡ p
unfolding tag_strip
tag_strip_clear i386 p lt = bit_and-low_clear 31 p lt
tag_strip_clear x86_64 p lt = bit_and-low_clear 63 p lt

pub tag_strip_set :
    (h : Host) (p : ℕ) → meta_tag_wasm h ≤ p → IsWord h p → tag_strip h p ≡ p - meta_tag_wasm h
unfolding tag_strip
tag_strip_set i386 p le w = bit_and-low_set 31 p le w
tag_strip_set x86_64 p le w = bit_and-low_set 63 p le w

pub tag_wasm_clear : (h : Host) (p : ℕ) → p < meta_tag_wasm h → tag_wasm h p ≡ p + meta_tag_wasm h
unfolding tag_wasm
tag_wasm_clear i386 p lt = bit_or-top_clear 31 p lt
tag_wasm_clear x86_64 p lt = bit_or-top_clear 63 p lt

pub tag_wasm_set : (h : Host) (p : ℕ) → meta_tag_wasm h ≤ p → IsWord h p → tag_wasm h p ≡ p
unfolding tag_wasm
tag_wasm_set i386 p le w = bit_or-top_set 31 p le w
tag_wasm_set x86_64 p le w = bit_or-top_set 63 p le w

pub two_tags : (h : Host) → meta_tag_wasm h + meta_tag_wasm h ≡ 2 ^ pointer_bits h
two_tags i386 = refl
two_tags x86_64 = refl

pub tag_wasm-IsWord : (h : Host) (p : ℕ) → p < meta_tag_wasm h → IsWord h (tag_wasm h p)
tag_wasm-IsWord h p lt = omega (arith, tag_wasm_clear h p lt, two_tags h)

-- Stripping leaves the part of a word below the tag bit, and tagging sets the bit above that part.
pub tag_strip_mod : (h : Host) (p : ℕ) → IsWord h p → tag_strip h p ≡ p % meta_tag_wasm h
tag_strip_mod i386 p w = elim (dec_lt p (meta_tag_wasm i386)) [
  | yes lt ↦ omega (arith, tag_strip_clear i386 p lt)
  | no ge ↦ omega (arith, tag_strip_set i386 p (omega arith) w)
]
tag_strip_mod x86_64 p w = elim (dec_lt p (meta_tag_wasm x86_64)) [
  | yes lt ↦ omega (arith, tag_strip_clear x86_64 p lt)
  | no ge ↦ omega (arith, tag_strip_set x86_64 p (omega arith) w)
]

pub tag_wasm_mod :
    (h : Host) (p : ℕ) → tag_wasm h (p % 2 ^ pointer_bits h) ≡ p % meta_tag_wasm h + meta_tag_wasm h
tag_wasm_mod i386 p =
    let q = p % 2 ^ 32 in
    elim (dec_lt q (meta_tag_wasm i386)) [
      | yes lt ↦ omega (arith, tag_wasm_clear i386 q lt)
      | no ge ↦ omega (arith, tag_wasm_set i386 q (omega arith) (omega arith))
    ]
tag_wasm_mod x86_64 p =
    let q = p % 2 ^ 64 in
    elim (dec_lt q (meta_tag_wasm x86_64)) [
      | yes lt ↦ omega (arith, tag_wasm_clear x86_64 q lt)
      | no ge ↦ omega (arith, tag_wasm_set x86_64 q (omega arith) (omega arith))
    ]

-- What tagging makes of any word is a word that reads as wasm's.
pub tag_owner-tag_wasm :
    (h : Host) (p : ℕ)
    → (tag_owner h (tag_wasm h (p % 2 ^ pointer_bits h)) ≡ wasm)
      × (tag_wasm h (p % 2 ^ pointer_bits h) ≢ 0)
unfolding tag_owner
tag_owner-tag_wasm i386 p =
    let v = tag_wasm i386 (p % 2 ^ 32) in
    let e = tag_wasm_mod i386 p in
    (rw (has_tag_set i386 v (omega arith) (omega arith)), λ z. absurd (omega arith))
tag_owner-tag_wasm x86_64 p =
    let v = tag_wasm x86_64 (p % 2 ^ 64) in
    let e = tag_wasm_mod x86_64 p in
    (rw (has_tag_set x86_64 v (omega arith) (omega arith)), λ z. absurd (omega arith))

-- An untagged address and its tagged form: the untagged one reads as the process backend's and
-- is its own stripped form; the tagged one is another word, reads as wasm's, and strips back.
pub tag_round_trip :
    (h : Host) (p : ℕ)
    → p < meta_tag_wasm h
    → (tag_owner h p ≡ process)
      × (tag_strip h p ≡ p)
      × IsWord h (tag_wasm h p)
      × (tag_wasm h p ≢ p)
      × (tag_owner h (tag_wasm h p) ≡ wasm)
      × (tag_strip h (tag_wasm h p) ≡ p)
unfolding tag_owner
tag_round_trip h p lt =
    let w = tag_wasm-IsWord h p lt in
    let e = tag_wasm_clear h p lt in
    let t = two_tags h in
    let above : meta_tag_wasm h ≤ tag_wasm h p = omega arith in
    (
      rw (has_tag_clear h p lt),
      tag_strip_clear h p lt,
      w,
      λ same. absurd (positive h (omega arith)),
      rw (has_tag_set h (tag_wasm h p) above w),
      omega (arith, tag_strip_set h (tag_wasm h p) above w),
    )
  where
    positive : (g : Host) → ¬ (meta_tag_wasm g ≡ 0)
    positive i386 = λ z. omega arith
    positive x86_64 = λ z. omega arith

-- Every word is one of the two forms: it reads as the process backend's exactly when it is below
-- the tag bit, and a word that reads as wasm's is the tagged form of what stripping leaves.
pub tag_owner_cases :
    (h : Host) (p : ℕ)
    → IsWord h p
    → ((tag_owner h p ≡ process) × (p < meta_tag_wasm h) × (tag_strip h p ≡ p))
      ⊎ ((tag_owner h p ≡ wasm)
          × (tag_strip h p < meta_tag_wasm h)
          × (tag_wasm h (tag_strip h p) ≡ p))
unfolding tag_owner
tag_owner_cases h p w = elim (dec_lt p (meta_tag_wasm h)) [
  | yes lt ↦ inl (rw (has_tag_clear h p lt), lt, tag_strip_clear h p lt)
  | no ge ↦
      let above : meta_tag_wasm h ≤ p = omega arith in
      let e = tag_strip_set h p above w in
      let t = two_tags h in
      let lt : tag_strip h p < meta_tag_wasm h = omega arith in
      inr (rw (has_tag_set h p above w), lt, omega (arith, tag_wasm_clear h (tag_strip h p) lt))
]
