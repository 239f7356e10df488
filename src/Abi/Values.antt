-- ===== src/Abi/Values.antt =====
-- Values keep their meaning in a slot (include/rlbox_process_abi.hpp,
-- include/rlbox_process_sandbox.hpp, src/rlbox_process_sandbox_shim.cpp).
use rlbox_dynamic_sandbox.Common.{ℕ, ◌%◌, ◌^◌, ◌<◌, ◌≤◌, ◌≡◌, ◌≢◌, refl, arith, if◌then◌else◌}
use native.Mathlib.Nat.{zero-mod}
use rlbox_dynamic_sandbox.Meta.Types.{Host, i386, x86_64, pointer_bits}
use rlbox_dynamic_sandbox.Abi.{
  ArgType, arg_void, arg_sint32, arg_uint32, arg_sint64, arg_uint64, arg_pointer, CppType,
  void_type, bool_type, char_type, signed_char, unsigned_char, short, unsigned_short, int,
  unsigned_int, long, unsigned_long, long_long, unsigned_long_long, pointer_type, tag_of, width,
  is_signed, sign_extend, pack_slot, unpack_slot, storage, convert_return,
}

-- How many bits of its storage libffi reads for an argument of the type, and how many of the return
-- register it keeps.
abbrev pub type_bits : Host → ArgType → ℕ
type_bits h arg_void = 0
type_bits h arg_sint32 = 32
type_bits h arg_uint32 = 32
type_bits h arg_sint64 = 64
type_bits h arg_uint64 = 64
type_bits h arg_pointer = pointer_bits h

-- What libffi passes for an argument of any type but `void` is the argument's value, widened by its
-- sign to the width of its tag.
pub pack_slot_carries :
    (h : Host) (c : CppType) (x : ℕ)
    → c ≢ void_type
    → x < 2 ^ width h c
    → let bits = type_bits h (tag_of h c) in
      storage h (tag_of h c) (pack_slot h c x) % 2 ^ bits
      ≡ (if is_signed c then sign_extend (width h c) bits x else x)
unfolding tag_of pack_slot storage sign_extend
pack_slot_carries h void_type x proper fits = absurd (proper refl)
pack_slot_carries i386 bool_type x proper fits = ground arith
pack_slot_carries x86_64 bool_type x proper fits = ground arith
pack_slot_carries i386 char_type x proper fits = ground arith
pack_slot_carries x86_64 char_type x proper fits = ground arith
pack_slot_carries i386 signed_char x proper fits = ground arith
pack_slot_carries x86_64 signed_char x proper fits = ground arith
pack_slot_carries i386 unsigned_char x proper fits = ground arith
pack_slot_carries x86_64 unsigned_char x proper fits = ground arith
pack_slot_carries i386 short x proper fits = ground arith
pack_slot_carries x86_64 short x proper fits = ground arith
pack_slot_carries i386 unsigned_short x proper fits = ground arith
pack_slot_carries x86_64 unsigned_short x proper fits = ground arith
pack_slot_carries i386 int x proper fits = ground arith
pack_slot_carries x86_64 int x proper fits = ground arith
pack_slot_carries i386 unsigned_int x proper fits = ground arith
pack_slot_carries x86_64 unsigned_int x proper fits = ground arith
pack_slot_carries i386 long x proper fits = ground arith
pack_slot_carries x86_64 long x proper fits = ground arith
pack_slot_carries i386 unsigned_long x proper fits = ground arith
pack_slot_carries x86_64 unsigned_long x proper fits = ground arith
pack_slot_carries i386 long_long x proper fits = ground arith
pack_slot_carries x86_64 long_long x proper fits = ground arith
pack_slot_carries i386 unsigned_long_long x proper fits = ground arith
pack_slot_carries x86_64 unsigned_long_long x proper fits = ground arith
pack_slot_carries i386 pointer_type x proper fits = ground arith
pack_slot_carries x86_64 pointer_type x proper fits = ground arith

-- The value that the function left in the low bits of its return register comes back to the caller, if
-- libffi keeps the register's bits up to the width of the return tag. This is for every type on
-- x86_64, and for types of at most 32 bits on i386, without `void` and `bool`.
pub unpack_slot-convert_return :
    (h : Host) (c : CppType) (register buf x : ℕ)
    → c ≢ void_type
    → c ≢ bool_type
    → width h c ≤ pointer_bits h
    → register % 2 ^ width h c ≡ x
    → buf % 2 ^ type_bits h (tag_of h c) ≡ register % 2 ^ type_bits h (tag_of h c)
    → unpack_slot h c (convert_return h (tag_of h c) buf) ≡ x
unfolding tag_of unpack_slot convert_return sign_extend
unpack_slot-convert_return h void_type register buf x proper not_bool fits left kept =
    absurd (proper refl)
unpack_slot-convert_return h bool_type register buf x proper not_bool fits left kept =
    absurd (not_bool refl)
unpack_slot-convert_return i386 char_type register buf x proper not_bool fits left kept =
    ground arith
unpack_slot-convert_return x86_64 char_type register buf x proper not_bool fits left kept =
    ground arith
unpack_slot-convert_return i386 signed_char register buf x proper not_bool fits left kept =
    ground arith
unpack_slot-convert_return x86_64 signed_char register buf x proper not_bool fits left kept =
    ground arith
unpack_slot-convert_return i386 unsigned_char register buf x proper not_bool fits left kept =
    ground arith
unpack_slot-convert_return x86_64 unsigned_char register buf x proper not_bool fits left kept =
    ground arith
unpack_slot-convert_return i386 short register buf x proper not_bool fits left kept = ground arith
unpack_slot-convert_return x86_64 short register buf x proper not_bool fits left kept = ground arith
unpack_slot-convert_return i386 unsigned_short register buf x proper not_bool fits left kept =
    ground arith
unpack_slot-convert_return x86_64 unsigned_short register buf x proper not_bool fits left kept =
    ground arith
unpack_slot-convert_return i386 int register buf x proper not_bool fits left kept = ground arith
unpack_slot-convert_return x86_64 int register buf x proper not_bool fits left kept = ground arith
unpack_slot-convert_return i386 unsigned_int register buf x proper not_bool fits left kept =
    ground arith
unpack_slot-convert_return x86_64 unsigned_int register buf x proper not_bool fits left kept =
    ground arith
unpack_slot-convert_return i386 long register buf x proper not_bool fits left kept = ground arith
unpack_slot-convert_return x86_64 long register buf x proper not_bool fits left kept = ground arith
unpack_slot-convert_return i386 unsigned_long register buf x proper not_bool fits left kept =
    ground arith
unpack_slot-convert_return x86_64 unsigned_long register buf x proper not_bool fits left kept =
    ground arith
unpack_slot-convert_return i386 long_long register buf x proper not_bool fits left kept =
    ground arith
unpack_slot-convert_return x86_64 long_long register buf x proper not_bool fits left kept =
    ground arith
unpack_slot-convert_return i386 unsigned_long_long register buf x proper not_bool fits left kept =
    ground arith
unpack_slot-convert_return x86_64 unsigned_long_long register buf x proper not_bool fits left kept =
    ground arith
unpack_slot-convert_return i386 pointer_type register buf x proper not_bool fits left kept =
    ground arith
unpack_slot-convert_return x86_64 pointer_type register buf x proper not_bool fits left kept =
    ground arith

-- A slot of 0 is 0 at every type.
pub unpack_slot-zero : (h : Host) (c : CppType) → unpack_slot h c 0 ≡ 0
unfolding unpack_slot
unpack_slot-zero h void_type = refl
unpack_slot-zero h bool_type = refl
unpack_slot-zero h char_type = zero-mod (2 ^ width h char_type)
unpack_slot-zero h signed_char = zero-mod (2 ^ width h signed_char)
unpack_slot-zero h unsigned_char = zero-mod (2 ^ width h unsigned_char)
unpack_slot-zero h short = zero-mod (2 ^ width h short)
unpack_slot-zero h unsigned_short = zero-mod (2 ^ width h unsigned_short)
unpack_slot-zero h int = zero-mod (2 ^ width h int)
unpack_slot-zero h unsigned_int = zero-mod (2 ^ width h unsigned_int)
unpack_slot-zero h long = zero-mod (2 ^ width h long)
unpack_slot-zero h unsigned_long = zero-mod (2 ^ width h unsigned_long)
unpack_slot-zero h long_long = zero-mod (2 ^ width h long_long)
unpack_slot-zero h unsigned_long_long = zero-mod (2 ^ width h unsigned_long_long)
unpack_slot-zero h pointer_type = zero-mod (2 ^ width h pointer_type)
