-- ===== src/Abi/Tests.antt =====
-- The theorems about calls across the boundary at concrete values. The library adds its arguments up
-- and counts its calls.
use rlbox_dynamic_sandbox.Common.{ℕ, ◌+◌, ◌%◌, ◌^◌, ◌≡◌, refl, arith, true, List, [], ◌∷◌, map}
use rlbox_dynamic_sandbox.Meta.Types.{x86_64}
use rlbox_dynamic_sandbox.Abi.{
  ArgType, CppType, int, long, Ffi, unpack_slot, convert_return, tag_of, prepare, do_ffi_call,
  run_call, invoke_with_func_ptr,
}
use rlbox_dynamic_sandbox.Abi.Call.{passed, invoke_reaches_function}

abbrev adder : List (ArgType × ℕ) → ℕ
adder [] = 0
adder ((t, x) ∷ args) = x + adder args

abbrev ffi : Ffi ℕ
ffi = record { prep_cif = λ ret types. true; call = λ f ret args m. (adder args % 2 ^ 64, m + 1) }

abbrev args : List (CppType × ℕ)
args = (int, 7) ∷ (long, 5) ∷ []

invoke_reaches_function_example : invoke_with_func_ptr x86_64 ffi 4096 64 int args 3 ≡ (
  unpack_slot x86_64 int
      (convert_return x86_64 (tag_of x86_64 int) (adder (map (passed x86_64) args) % 2 ^ 64)),
  4,
)
invoke_reaches_function_example =
    invoke_reaches_function x86_64 ffi 4096 64 int args 3 (omega arith) (omega arith) (omega arith)
      ((λ e. cc), ((λ e. cc), tt))

call_of_7_and_5 : invoke_with_func_ptr x86_64 ffi 4096 64 int args 3 ≡ (12, 4)
unfolding invoke_with_func_ptr do_ffi_call run_call prepare
call_of_7_and_5 = refl
