-- ===== src/Process/Requests/Message.antt =====
-- The message of a call (include/rlbox_process_sandbox.hpp) is within the bounds of the wire.
use rlbox_dynamic_sandbox.Common.{
  ℕ, ◌^◌, ◌<◌, ◌≤◌, ◌∙◌, sym, arith, List, [], ◌∷◌, length, All, map,
}
use rlbox_dynamic_sandbox.Meta.Types.{Host, i386, x86_64, pointer_bits}
use rlbox_dynamic_sandbox.Abi.{
  ArgType, arg_void, arg_sint32, arg_uint32, arg_sint64, arg_uint64, arg_pointer, CppType,
  void_type, bool_type, char_type, signed_char, unsigned_char, short, unsigned_short, int,
  unsigned_int, long, unsigned_long, long_long, unsigned_long_long, pointer_type, width,
  sign_extend, wire_tag, tag_of, pack_slot, k_max_args,
}
use rlbox_dynamic_sandbox.Abi.Call.{length-map}
use rlbox_dynamic_sandbox.Shim.Worker.Protocol.{IsWire}
use rlbox_dynamic_sandbox.Process.Requests.{invoke_message}

-- The words of a call fit the wire.
wire_tag_small : (t : ArgType) → wire_tag t < 2 ^ 32
wire_tag_small arg_void = omega arith
wire_tag_small arg_sint32 = omega arith
wire_tag_small arg_uint32 = omega arith
wire_tag_small arg_sint64 = omega arith
wire_tag_small arg_uint64 = omega arith
wire_tag_small arg_pointer = omega arith

pack_slot_small : (h : Host) (c : CppType) (x : ℕ) → x < 2 ^ width h c → pack_slot h c x < 256 ^ 8
unfolding pack_slot sign_extend
pack_slot_small h void_type x small = ground arith
pack_slot_small h bool_type x small = ground arith
pack_slot_small h char_type x small = ground arith
pack_slot_small h signed_char x small = ground arith
pack_slot_small h unsigned_char x small = ground arith
pack_slot_small h short x small = ground arith
pack_slot_small h unsigned_short x small = ground arith
pack_slot_small h int x small = ground arith
pack_slot_small h unsigned_int x small = ground arith
pack_slot_small h long_long x small = ground arith
pack_slot_small h unsigned_long_long x small = ground arith
pack_slot_small i386 long x small = ground arith
pack_slot_small x86_64 long x small = ground arith
pack_slot_small i386 unsigned_long x small = ground arith
pack_slot_small x86_64 unsigned_long x small = ground arith
pack_slot_small i386 pointer_type x small = ground arith
pack_slot_small x86_64 pointer_type x small = ground arith

-- The arguments are within their types.
abbrev pub InWidth : Host → CppType × ℕ → Type 0
InWidth h (c, x) = x < 2 ^ width h c

narrow_tags :
    (h : Host) (args : List (CppType × ℕ))
    → All (λ t. t < 256 ^ 4) (map (λ (a : CppType × ℕ). wire_tag (tag_of h a.0)) args)
narrow_tags h [] = tt
narrow_tags h (a ∷ args) = (wire_tag_small (tag_of h a.0), narrow_tags h args)

narrow_values :
    (h : Host) (args : List (CppType × ℕ))
    → All (InWidth h) args
    → All (λ v. v < 256 ^ 8) (map (λ (a : CppType × ℕ). pack_slot h a.0 a.1) args)
narrow_values h [] fits = tt
narrow_values h ((c, x) ∷ args) (small, fits) =
    (pack_slot_small h c x small, narrow_values h args fits)

pub invoke_message-IsWire :
    (h : Host) (func_ptr : ℕ) (ret : CppType) (args : List (CppType × ℕ))
    → func_ptr < 2 ^ pointer_bits h
    → length args ≤ k_max_args
    → All (InWidth h) args
    → IsWire (invoke_message h func_ptr ret args)
unfolding invoke_message
invoke_message-IsWire h func_ptr ret args address few fits = record {
  narrow_addr = word h address;
  narrow_ret = wire_tag_small (tag_of h ret);
  narrow_tags = narrow_tags h args;
  narrow_values = narrow_values h args fits;
  paired =
      length-map (λ (a : CppType × ℕ). pack_slot h a.0 a.1) args
      ∙ sym (length-map (λ (a : CppType × ℕ). wire_tag (tag_of h a.0)) args);
  few = omega (arith, few, length-map (λ (a : CppType × ℕ). wire_tag (tag_of h a.0)) args);
}
  where
    word : (h' : Host) → func_ptr < 2 ^ pointer_bits h' → func_ptr < 2 ^ 64
    word i386 small = omega (arith, small)
    word x86_64 small = small
