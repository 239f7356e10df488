-- ===== src/Shim/Slots.antt =====
-- The callback slots of src/rlbox_process_sandbox_shim.cpp: each has a trampoline of its own, which
-- sends the key that its slot holds.
pub mod Keys
use rlbox_dynamic_sandbox.Common.{
  ℕ, zero, suc, ◌+◌, Bool, List, [], ◌∷◌, Option, none, some, get_or, set, replicate, ◌==◌,
  if◌then◌else◌, map,
}
use rlbox_dynamic_sandbox.Shim.Memory.{k_callback_slots}

-- `g_callback_keys`; null is `none`. A slot that is free holds 0.
abbrev pub Slots : Type 0
Slots = Option (List ℕ)

abbrev pub fresh_slots : Slots
fresh_slots = some (replicate k_callback_slots 0)

-- The loop of `handle_register_callback`: the slot that the first successful exchange takes, counted
-- from the first one looked at, and the slots after it.
unfoldable pub take_slot : ℕ → List ℕ → Option (ℕ × List ℕ)
take_slot host_key [] = none
take_slot host_key (key ∷ keys) =
    let later = take_slot host_key keys in
    if key == 0
    then some (0, host_key ∷ keys)
    else elim later [ none ↦ none | some (i, keys') ↦ some (suc i, key ∷ keys') ]

-- The loop of `handle_unregister_callback`.
unfoldable pub release_slot : ℕ → List ℕ → List ℕ
release_slot host_key [] = []
release_slot host_key (key ∷ keys) =
    if key == host_key then 0 ∷ keys else key ∷ release_slot host_key keys

-- `trampoline` is `g_trampoline_table`.
module _ (trampoline : ℕ → ℕ) where
  unfoldable pub handle_register_callback : ℕ → Slots → ℕ × Slots
  unfolding take_slot
  handle_register_callback host_key none = (0, none)
  handle_register_callback host_key (some keys) = elim (take_slot host_key keys) [
    | none ↦ (0, some keys)
    | some (i, keys') ↦ (trampoline i, some keys')
  ]

unfoldable pub handle_unregister_callback : ℕ → Slots → Slots
unfolding release_slot
handle_unregister_callback host_key none = none
handle_unregister_callback host_key (some keys) = some (release_slot host_key keys)

-- The key that the trampoline of the slot sends when the library calls it.
unfoldable pub fired_key : ℕ → Slots → ℕ
fired_key i none = 0
fired_key i (some keys) = get_or keys i 0
