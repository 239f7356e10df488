-- ===== src/Shim/Slots/Keys.antt =====
-- Which key a slot holds (src/rlbox_process_sandbox_shim.cpp).
use rlbox_dynamic_sandbox.Common.{
  ℕ, ◌<◌, ◌≡◌, ◌≢◌, ◌↔◌, refl, arith, List, [], ◌∷◌, All, none, some, get_or, set, length, inl, inr,
  Option-cases,
}
use rlbox_dynamic_sandbox.Shim.Slots.{
  Slots, take_slot, release_slot, handle_register_callback, handle_unregister_callback,
}

take_slot_writes :
    (host_key i : ℕ) (keys keys' : List ℕ)
    → take_slot host_key keys ≡ some (i, keys')
    → (i < length keys) × (get_or keys i 0 ≡ 0) × (keys' ≡ set keys i host_key)
unfolding take_slot
take_slot_writes host_key i [] keys' e = absurd (ground arith)
take_slot_writes host_key i (key ∷ keys) keys' e = elim (Option-cases (take_slot host_key keys)) [
  | inl full ↦ ground arith
  | inr ((j, later), found) ↦ ground (arith, take_slot_writes host_key j keys later found)
]

take_slot_full :
    (host_key : ℕ) (keys : List ℕ) → (take_slot host_key keys ≡ none) ↔ All (λ k. k ≢ 0) keys
unfolding take_slot
take_slot_full host_key [] = ((λ h. tt), (λ h. refl))
take_slot_full host_key (key ∷ keys) = elim (Option-cases (take_slot host_key keys)) [
  | inl full ↦ ((λ h. (ground arith, (take_slot_full host_key keys).0 full)), λ h. ground arith)
  | inr (later, found) ↦
      ((λ h. ground arith), λ h. absurd (ground (arith, (take_slot_full host_key keys).1 h.1)))
]

release_slot_fresh :
    (host_key : ℕ) (keys : List ℕ)
    → All (λ k. k ≢ host_key) keys
    → release_slot host_key keys ≡ keys
unfolding release_slot
release_slot_fresh host_key [] fresh = refl
release_slot_fresh host_key (key ∷ keys) fresh =
    ground (arith, release_slot_fresh host_key keys fresh.1)

release-take :
    (host_key i : ℕ) (keys keys' : List ℕ)
    → host_key ≢ 0
    → All (λ k. k ≢ host_key) keys
    → take_slot host_key keys ≡ some (i, keys')
    → release_slot host_key keys' ≡ keys
unfolding take_slot release_slot
release-take host_key i [] keys' nonnull fresh e = absurd (ground arith)
release-take host_key i (key ∷ keys) keys' nonnull fresh e =
    elim (Option-cases (take_slot host_key keys)) [
      | inl full ↦ ground arith
      | inr ((j, later), found) ↦
          ground (arith, release-take host_key j keys later nonnull fresh.1 found)
    ]

module _ (trampoline : ℕ → ℕ) where
  -- A registration that does not return null returns the trampoline of one slot, which was free and now
  -- holds the key; the other slots are as they were.
  pub register_takes_slot :
      (host_key a : ℕ) (keys : List ℕ) (slots : Slots)
      → handle_register_callback trampoline host_key (some keys) ≡ (a, slots)
      → a ≢ 0
      → (i : ℕ) × (i < length keys)
        × (a ≡ trampoline i)
        × (get_or keys i 0 ≡ 0)
        × (slots ≡ some (set keys i host_key))
  unfolding handle_register_callback
  register_takes_slot host_key a keys slots e nonnull =
      elim (Option-cases (take_slot host_key keys)) [
        | inl full ↦ absurd (ground arith)
        | inr ((i, keys'), found) ↦
            let w = take_slot_writes host_key i keys keys' found in
            (i, w.0, ground arith, w.1, ground arith)
      ]

  -- A registration returns null exactly when no slot is free. This is for trampolines that are not null.
  pub register_fails_iff :
      (host_key : ℕ) (keys : List ℕ)
      → ((i : ℕ) → trampoline i ≢ 0)
      → ((handle_register_callback trampoline host_key (some keys)).0 ≡ 0) ↔ All (λ k. k ≢ 0) keys
  unfolding handle_register_callback
  register_fails_iff host_key keys nonnull = elim (Option-cases (take_slot host_key keys)) [
    | inl full ↦ ((λ h. (take_slot_full host_key keys).0 full), λ h. ground arith)
    | inr ((i, later), found) ↦ (
      (λ h. absurd (ground (arith, nonnull i))),
      λ h. absurd (ground (arith, (take_slot_full host_key keys).1 h)),
    )
  ]

  -- An unregistration undoes the registration of a key that is not 0 and that no slot holds.
  pub unregister_callback-register :
      (host_key : ℕ) (keys : List ℕ)
      → host_key ≢ 0
      → All (λ k. k ≢ host_key) keys
      → handle_unregister_callback host_key
          (handle_register_callback trampoline host_key (some keys)).1
        ≡ some keys
  unfolding handle_register_callback handle_unregister_callback
  unregister_callback-register host_key keys nonnull fresh =
      elim (Option-cases (take_slot host_key keys)) [
        | inl full ↦ ground (arith, release_slot_fresh host_key keys fresh)
        | inr ((i, later), found) ↦
            ground (arith, release-take host_key i keys later nonnull fresh found)
      ]
