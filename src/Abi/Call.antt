-- ===== src/Abi/Call.antt =====
-- A call from the host reaches the function with its arguments (include/rlbox_process_sandbox.hpp,
-- src/rlbox_process_sandbox_shim.cpp).
use rlbox_dynamic_sandbox.Common.{
  ℕ, suc, ◌⊎◌, Bool-cases, ◌<◌, ◌≤◌, ◌≡◌, ◌≢◌, refl, ap, arith, false, List, [], ◌∷◌, some, length,
  map, All, ltb, ◌==◌, if◌then◌else◌, inl, inr,
}
use rlbox_dynamic_sandbox.Meta.Types.{Host, i386, x86_64}
use rlbox_dynamic_sandbox.Abi.{
  ArgType, arg_void, arg_sint32, arg_uint32, arg_sint64, arg_uint64, arg_pointer, CppType,
  void_type, bool_type, char_type, signed_char, unsigned_char, short, unsigned_short, int,
  unsigned_int, long_long, unsigned_long_long, pointer_type, long, unsigned_long, wire_tag, tag_of,
  pack_slot, unpack_slot, storage, prepare, convert_return, ffi_type_for_tag, Ffi, k_max_args,
  run_call, do_ffi_call, invoke_with_func_ptr,
}

-- What libffi gets for an argument.
abbrev pub passed : Host → CppType × ℕ → ArgType × ℕ
passed h (c, x) = (tag_of h c, storage h (tag_of h c) (pack_slot h c x))

-- No argument is `void`.
abbrev pub IsProper : CppType × ℕ → Type 0
IsProper (c, x) = c ≢ void_type

known_tag : (t : ArgType) → ffi_type_for_tag (wire_tag t) ≡ some t
unfolding ffi_type_for_tag
known_tag arg_void = refl
known_tag arg_sint32 = refl
known_tag arg_uint32 = refl
known_tag arg_sint64 = refl
known_tag arg_uint64 = refl
known_tag arg_pointer = refl

proper_tag : (h : Host) (c : CppType) → c ≢ void_type → (wire_tag (tag_of h c) == 0) ≡ false
unfolding tag_of
proper_tag h void_type proper = absurd (proper refl)
proper_tag h bool_type proper = refl
proper_tag h char_type proper = refl
proper_tag h signed_char proper = refl
proper_tag h unsigned_char proper = refl
proper_tag h short proper = refl
proper_tag h unsigned_short proper = refl
proper_tag h int proper = refl
proper_tag h unsigned_int proper = refl
proper_tag h long_long proper = refl
proper_tag h unsigned_long_long proper = refl
proper_tag h pointer_type proper = refl
proper_tag i386 long proper = refl
proper_tag x86_64 long proper = refl
proper_tag i386 unsigned_long proper = refl
proper_tag x86_64 unsigned_long proper = refl

prepare-map :
    (h : Host) (args : List (CppType × ℕ))
    → All IsProper args
    → prepare h
        (map (λ (a : CppType × ℕ). wire_tag (tag_of h a.0)) args)
        (map (λ (a : CppType × ℕ). pack_slot h a.0 a.1) args)
      ≡ some (map (passed h) args)
unfolding prepare
prepare-map h [] proper = refl
prepare-map h ((c, x) ∷ args) proper =
    rw (known_tag (tag_of h c), proper_tag h c proper.0, prepare-map h args proper.1, prepare) refl

pub length-map : {A B : Type 0} (f : A → B) (xs : List A) → length (map f xs) ≡ length xs
length-map f [] = refl
length-map f (x ∷ xs) = ap suc (length-map f xs)

module _ {M : Type 0} (h : Host) (ffi : Ffi M) where
  -- A call from the host, of a function that is not null, with at most 32 arguments none of which is
  -- `void`, calls that function once if libffi accepts the types: with each argument's packed value
  -- under the tag of its type; the caller gets the value that libffi returns, converted by the return
  -- type's tag and unpacked. If libffi refuses, nothing is called. The shared memory is mapped.
  pub invoke_reaches_function :
      (shm_base func_ptr : ℕ) (ret : CppType) (args : List (CppType × ℕ)) (m : M)
      → shm_base ≢ 0
      → func_ptr ≢ 0
      → length args ≤ k_max_args
      → All IsProper args
      → let types = map (λ (a : ArgType × ℕ). a.0) (map (passed h) args) in
        let (buf, m') = ffi.call func_ptr (tag_of h ret) (map (passed h) args) m in
        invoke_with_func_ptr h ffi shm_base func_ptr ret args m ≡ (
          if ffi.prep_cif (tag_of h ret) types
          then (unpack_slot h ret (convert_return h (tag_of h ret) buf), m')
          else (unpack_slot h ret 0, m))
  unfolding invoke_with_func_ptr do_ffi_call run_call
  invoke_reaches_function shm_base func_ptr ret args m mapped nonnull few proper =
      let tags = map (λ (a : CppType × ℕ). wire_tag (tag_of h a.0)) args in
      let base : (shm_base == 0) ≡ false = ground arith in
      let func : (func_ptr == 0) ≡ false = ground arith in
      let count : ltb k_max_args (length tags) ≡ false =
        ground (arith, length-map (λ (a : CppType × ℕ). wire_tag (tag_of h a.0)) args) in
      let types = map (λ (a : ArgType × ℕ). a.0) (map (passed h) args) in
      elim (Bool-cases (ffi.prep_cif (tag_of h ret) types)) [
        | inl accepted ↦
            rw (base, func, count, prepare-map h args proper, known_tag (tag_of h ret), accepted)
              refl
        | inr refused ↦
            rw (base, func, count, prepare-map h args proper, known_tag (tag_of h ret), refused)
              refl
      ]

  -- A call of a null function, with more than 32 arguments, or before the shared memory is mapped calls
  -- nothing, and the caller gets the unpacked 0.
  pub invoke_refused :
      (shm_base func_ptr : ℕ) (ret : CppType) (args : List (CppType × ℕ)) (m : M)
      → (shm_base ≡ 0) ⊎ ((func_ptr ≡ 0) ⊎ (k_max_args < length args))
      → invoke_with_func_ptr h ffi shm_base func_ptr ret args m ≡ (unpack_slot h ret 0, m)
  unfolding invoke_with_func_ptr do_ffi_call
  invoke_refused shm_base func_ptr ret args m refused =
      let tags = map (λ (a : CppType × ℕ). wire_tag (tag_of h a.0)) args in
      ground (arith, length-map (λ (a : CppType × ℕ). wire_tag (tag_of h a.0)) args)
