-- ===== src/Abi.antt =====
-- How a call crosses from the host to the sandboxed process: the tags of include/rlbox_process_abi.hpp,
-- the slots of include/rlbox_process_sandbox.hpp, and the call itself in
-- src/rlbox_process_sandbox_shim.cpp.
--
-- A value is the bit pattern of its type's width. libffi is another project's: its two calls are fields
-- of `Ffi`, which gets each argument with its type, as the word that the argument's storage holds.
pub mod Values
pub mod Call
mod Tests
use rlbox_dynamic_sandbox.Common.{
  ℕ, ◌+◌, ◌-◌, ◌%◌, ◌^◌, Bool, true, false, ◌||◌, List, [], ◌∷◌, Option, none, some, length, map,
  ltb, ◌==◌, if◌then◌else◌,
}
use rlbox_dynamic_sandbox.Meta.Types.{Host, i386, x86_64, pointer_bits}

-- `arg_type`
pub data ArgType : Type 0 where
  arg_void arg_sint32 arg_uint32 arg_sint64 arg_uint64 arg_pointer : ArgType

-- The enumerators' values.
abbrev pub wire_tag : ArgType → ℕ
wire_tag arg_void = 0
wire_tag arg_sint32 = 1
wire_tag arg_uint32 = 2
wire_tag arg_sint64 = 3
wire_tag arg_uint64 = 4
wire_tag arg_pointer = 5

-- The C++ types that `tag_of` is specialised for.
pub data CppType : Type 0 where
  void_type bool_type char_type signed_char unsigned_char short unsigned_short int : CppType
  unsigned_int long unsigned_long long_long unsigned_long_long pointer_type : CppType

-- `tag_of<T>::value`
unfoldable pub tag_of : Host → CppType → ArgType
tag_of h void_type = arg_void
tag_of h bool_type = arg_sint32
tag_of h char_type = arg_sint32
tag_of h signed_char = arg_sint32
tag_of h unsigned_char = arg_uint32
tag_of h short = arg_sint32
tag_of h unsigned_short = arg_uint32
tag_of h int = arg_sint32
tag_of h unsigned_int = arg_uint32
tag_of x86_64 long = arg_sint64
tag_of i386 long = arg_sint32
tag_of x86_64 unsigned_long = arg_uint64
tag_of i386 unsigned_long = arg_uint32
tag_of h long_long = arg_sint64
tag_of h unsigned_long_long = arg_uint64
tag_of h pointer_type = arg_pointer

-- The width of a type in bits; `void` has no values.
abbrev pub width : Host → CppType → ℕ
width h void_type = 0
width h bool_type = 8
width h char_type = 8
width h signed_char = 8
width h unsigned_char = 8
width h short = 16
width h unsigned_short = 16
width h int = 32
width h unsigned_int = 32
width h long = pointer_bits h
width h unsigned_long = pointer_bits h
width h long_long = 64
width h unsigned_long_long = 64
width h pointer_type = pointer_bits h

abbrev pub is_signed : CppType → Bool
is_signed char_type = true
is_signed signed_char = true
is_signed short = true
is_signed int = true
is_signed long = true
is_signed long_long = true
is_signed _ = false

-- A two's complement pattern of `w` bits at the width `v`.
unfoldable pub sign_extend : ℕ → ℕ → ℕ → ℕ
sign_extend w v x = if ltb x (2 ^ (w - 1)) then x else x + (2 ^ v - 2 ^ w)

-- `static_cast<int64_t>` of a value of the type.
unfoldable pub pack_slot : Host → CppType → ℕ → ℕ
unfolding sign_extend
pack_slot h c x = if is_signed c then sign_extend (width h c) 64 x else x

-- `static_cast` of a slot to the type.
unfoldable pub unpack_slot : Host → CppType → ℕ → ℕ
unpack_slot h bool_type raw = if raw == 0 then 0 else 1
unpack_slot h void_type raw = 0
unpack_slot h c raw = raw % 2 ^ width h c

-- `k_max_args`
abbrev pub k_max_args : ℕ
k_max_args = 32

-- libffi, over what the called functions change.
pub record Ffi (M : Type 0) : Type 0 where
  pub prep_cif : ArgType → List ArgType → Bool
  pub call : ℕ → ArgType → List (ArgType × ℕ) → M → ℕ × M

unfoldable pub ffi_type_for_tag : ℕ → Option ArgType
ffi_type_for_tag tag =
    if tag == 0
    then some arg_void
    else if tag == 1
    then some arg_sint32
    else if tag == 2
    then some arg_uint32
    else if tag == 3
    then some arg_sint64
    else if tag == 4
    then some arg_uint64
    else if tag == 5
    then some arg_pointer
    else none

-- The storage of an argument: a pointer has a word of its own.
unfoldable pub storage : Host → ArgType → ℕ → ℕ
storage h arg_pointer v = v % 2 ^ pointer_bits h
storage h _ v = v

-- The loop over the arguments; an argument that is `void` or has an unknown tag ends the call.
unfoldable pub prepare : Host → List ℕ → List ℕ → Option (List (ArgType × ℕ))
unfolding ffi_type_for_tag storage
prepare h [] vs = some []
prepare h (tag ∷ tags) [] = none
prepare h (tag ∷ tags) (v ∷ vs) =
    let rest = prepare h tags vs in
    elim (ffi_type_for_tag tag) [
      | none ↦ none
      | some t ↦
          if tag == 0
          then none
          else elim rest [ none ↦ none | some args ↦ some ((t, storage h t v) ∷ args) ]
    ]

-- The `switch` on the return tag. `ffi_arg` is unsigned, of the width of a pointer.
unfoldable pub convert_return : Host → ArgType → ℕ → ℕ
unfolding sign_extend
convert_return h arg_void buf = 0
convert_return h arg_sint32 buf = sign_extend 32 64 (buf % 2 ^ 32)
convert_return h arg_uint32 buf = buf % 2 ^ 32
convert_return h arg_sint64 buf = buf % 2 ^ pointer_bits h
convert_return h arg_uint64 buf = buf % 2 ^ pointer_bits h
convert_return h arg_pointer buf = buf % 2 ^ pointer_bits h

module _ {M : Type 0} (h : Host) (ffi : Ffi M) where
  unfoldable pub run_call : ℕ → ArgType → List (ArgType × ℕ) → M → ℕ × M
  unfolding convert_return
  run_call func_addr ret args m =
      let (buf, m') = ffi.call func_addr ret args m in
      if ffi.prep_cif ret (map (λ (a : ArgType × ℕ). a.0) args)
      then (convert_return h ret buf, m')
      else (0, m)

  unfoldable pub do_ffi_call : ℕ → ℕ → ℕ → List ℕ → List ℕ → M → ℕ × M
  unfolding run_call prepare ffi_type_for_tag
  do_ffi_call shm_base func_addr ret_tag arg_tags arg_values m =
      if (shm_base == 0 || func_addr == 0) || ltb k_max_args (length arg_tags)
      then (0, m)
      else elim (prepare h arg_tags arg_values) [
        | none ↦ (0, m)
        | some args ↦ elim (ffi_type_for_tag ret_tag) [
          | none ↦ (0, m)
          | some ret ↦ run_call func_addr ret args m
        ]
      ]

  -- The host's side: the tags come from the types, the slots from the values.
  unfoldable pub invoke_with_func_ptr : ℕ → ℕ → CppType → List (CppType × ℕ) → M → ℕ × M
  unfolding do_ffi_call pack_slot unpack_slot tag_of
  invoke_with_func_ptr shm_base func_ptr ret args m =
      let (raw, m') =
        do_ffi_call shm_base func_ptr (wire_tag (tag_of h ret))
          (map (λ (a : CppType × ℕ). wire_tag (tag_of h a.0)) args)
          (map (λ (a : CppType × ℕ). pack_slot h a.0 a.1) args) m in
      (unpack_slot h ret raw, m')
