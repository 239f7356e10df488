-- ===== src/Process/Callbacks/Tests.antt =====
-- The theorems about callbacks at concrete values. The host's function adds its arguments and counts
-- its calls.
use rlbox_dynamic_sandbox.Common.{ℕ, ◌+◌, ◌*◌, ◌≡◌, refl, arith, true, List, [], ◌∷◌, some}
use rlbox_dynamic_sandbox.Meta.Types.{x86_64}
use rlbox_dynamic_sandbox.Abi.{int, short, pointer_type}
use rlbox_dynamic_sandbox.Shim.Slots.{handle_register_callback, take_slot}
use rlbox_dynamic_sandbox.Process.{Callback, fresh_sandbox}
use rlbox_dynamic_sandbox.Process.Callbacks.{
  Words, trampoline_impl, pack_result, add_callback, dispatch_callback,
}
use rlbox_dynamic_sandbox.Process.Callbacks.Fired.{unpacked, word_list, callback_fires}

abbrev adder : List ℕ → ℕ
adder [] = 0
adder (x ∷ args) = x + adder args

abbrev call_host : ℕ → List ℕ → ℕ × ℕ → ℕ → ℕ × ℕ
call_host function args thread_locals m = (adder args, m + 1)

abbrev trampoline : ℕ → ℕ
trampoline i = 1000 + 16 * i

abbrev keys : List ℕ
keys = 7 ∷ 9 ∷ 0 ∷ 5 ∷ []

abbrev callback : Callback
callback = record { function = 64; ret = int; params = int ∷ short ∷ [] }

callback_fires_example :
    (i : ℕ) × (1032 ≡ trampoline i)
    × ((words : Words)
        → let (r, m') =
            call_host 64 (unpacked x86_64 (int ∷ short ∷ []) (word_list words)) (9, 4) 3 in
          (trampoline_impl (some (7 ∷ 9 ∷ 4 ∷ 5 ∷ [])) true i words ≡ some (4, word_list words))
          × (dispatch_callback x86_64 call_host 9
                (add_callback 4 callback fresh_sandbox)
                4
                (word_list words)
                (0, 0)
                3
              ≡ some (record {
                result = pack_result x86_64 int r;
                thread_locals = (0, 0);
                host_memory = m';
              })))
callback_fires_example =
    callback_fires x86_64 call_host 9 4 1032 callback fresh_sandbox keys (some (7 ∷ 9 ∷ 4 ∷ 5 ∷ []))
      trampoline (0, 0) 3 (omega arith) (unfold handle_register_callback take_slot in refl)
      (omega arith) (omega arith)

-- A callback of five pointers.
abbrev wide : Callback
wide = record {
  function = 64;
  ret = int;
  params = pointer_type ∷ pointer_type ∷ pointer_type ∷ pointer_type ∷ pointer_type ∷ [];
}
