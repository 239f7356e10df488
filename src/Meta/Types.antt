-- ===== src/Meta/Types.antt =====
-- The small types of include/rlbox_meta_sandbox.hpp, and the hosts that it is built for.
use rlbox_dynamic_sandbox.Common.{
  ℕ, ◌≡◌, ◌⊎◌, inl, inr, refl, ◌+◌, ◌%◌, ◌^◌, Bool, Option, String, none, false,
}

-- `meta_backend`
pub data MetaBackend : Type 0 where
  process wasm : MetaBackend

pub MetaBackend-cases : (b : MetaBackend) → (b ≡ process) ⊎ (b ≡ wasm)
MetaBackend-cases process = inl refl
MetaBackend-cases wasm = inr refl

-- The hosts that the headers name. They differ in the width of a pointer and of `size_t`.
pub data Host : Type 0 where
  i386 x86_64 : Host

-- `sizeof(T_PointerType) * CHAR_BIT`
abbrev pub pointer_bits : Host → ℕ
pointer_bits i386 = 32
pointer_bits x86_64 = 64

-- `++n` on a `size_t`
unfoldable pub size_inc : Host → ℕ → ℕ
size_inc h n = (n + 1) % 2 ^ pointer_bits h

-- `double`: a type with the operations that the code applies to latencies.
pub record Float (D : Type 0) : Type 0 where
  pub zero_ms : D
  pub add : D → D → D
  pub sub : D → D → D
  pub lt : D → D → Bool
  pub eq : D → D → Bool

-- `meta_policy_context`: a null `func_name` is `none`.
pub record PolicyContext (D : Type 0) : Type 0 where
  pub func_name : Option String
  pub has_wasm : Bool
  pub proc_samples : ℕ
  pub wasm_samples : ℕ
  pub proc_median_ms : D
  pub wasm_median_ms : D
  pub alloc_size : ℕ
  pub proc_median_sum : D
  pub wasm_median_sum : D

-- `meta_policy_context ctx{}`
unfoldable pub empty_context : {D : Type 0} → Float D → PolicyContext D
empty_context f = record {
  func_name = none;
  has_wasm = false;
  proc_samples = 0;
  wasm_samples = 0;
  proc_median_ms = f.zero_ms;
  wasm_median_ms = f.zero_ms;
  alloc_size = 0;
  proc_median_sum = f.zero_ms;
  wasm_median_sum = f.zero_ms;
}

-- The places where the meta-sandbox calls `std::abort`, and the uses of a symbol handle that no
-- lookup returned.
pub data Abort : Type 0 where
  spans_both_backends no_wasm_binding tag_collision ambiguous_struct no_scratch : Abort
  no_active_callback unknown_handle : Abort

pub data Outcome {ℓ} (A : Type ℓ) : Type ℓ where
  ok : A → Outcome A
  aborts : Abort → Outcome A

infixl 5 ◌>>=◌
abbrev pub ◌>>=◌ {ℓ κ} : {A : Type ℓ} {B : Type κ} → Outcome A → (A → Outcome B) → Outcome B
ok a >>= f = f a
aborts e >>= f = aborts e

pub ok-injective {ℓ} : {A : Type ℓ} {a b : A} → ok a ≡ ok b → a ≡ b
ok-injective e = cc
