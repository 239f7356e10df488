-- ===== src/Process/Stale.antt =====
-- The registry after a creation that fails late (include/rlbox_process_sandbox.hpp).
use rlbox_dynamic_sandbox.Common.{
  ℕ, ◌+◌, ◌%◌, ◌^◌, ◌<◌, ◌≤◌, ◌≡◌, ◌≢◌, ◌∙◌, refl, arith, false, List, [], ◌∷◌, none, some, All,
  Map, insert, erase, Option-cases, Bool-cases, inl, inr, ltb, leb, ◌==◌, ◌&&◌,
}
use rlbox_dynamic_sandbox.Meta.Types.{Host, pointer_bits}
use rlbox_dynamic_sandbox.Process.{
  Os, Sandbox, World, memory_size, register, create_memory, create_channels, create_child, connect,
  create_sandbox, delete_object, put_object, sandbox_of, is_in_same_sandbox,
}
use rlbox_dynamic_sandbox.Process.Registry.{LiesIn, IsRegistry, inside_iff}
use rlbox_dynamic_sandbox.Process.Entries.{IsFreshMemory}

module _ {K : Type 0} (h : Host) (os : Os K) where
  -- The walk passes the entries that do not have the address, and stops at the one that is gone.
  sandbox_of_gone :
      (base this a : ℕ) (objects objects' : Map Sandbox) (registry : List (ℕ × ℕ))
      → IsRegistry h objects registry
      → All
          (λ (e : ℕ × ℕ). (objects' e.1 ≡ objects e.1) × (e.0 ≢ base) × (¬ (LiesIn objects a e)))
          registry
      → objects' this ≡ none
      → sandbox_of h os (register base this registry) objects' a ≡ none
  unfolding sandbox_of register
  sandbox_of_gone base this a objects objects' [] ok all gone = rw (register, sandbox_of, gone) refl
  sandbox_of_gone base this a objects objects' ((b, o) ∷ registry) ok all gone =
      let (nonnull, alive, small, apart, ok') = ok in
      let ((same, ne, outside), all') = all in
      let later = sandbox_of_gone base this a objects objects' registry ok' all' gone in
      let other : (base == b) ≡ false = ground arith in
      elim (Bool-cases (ltb base b)) [
        | inl before ↦ rw (register, other, before, sandbox_of, gone) refl
        | inr behind ↦ elim (Option-cases (objects o)) [
          | inl dead ↦ absurd (alive dead)
          | inr (s, there) ↦
              elim (Bool-cases
                (leb b a && ltb a ((b + s.shared_memory_size) % 2 ^ pointer_bits h))) [
                  | inl inside ↦
                      absurd (outside ((inside_iff h os objects a b o s there small).0 inside))
                  | inr passed ↦
                      rw (register, other, behind, sandbox_of, same ∙ there, passed) later
                ]
        ]
      ]

  -- Once the memory is mapped, the object is registered, whatever comes after.
  create_sandbox_registers :
      (this : ℕ) (s : Sandbox) (w : World K) (fd base : ℕ)
      → (create_memory h os w.kernel).0 ≡ some (fd, base)
      → ((create_sandbox h os this s w).1.global_registry ≡ register base this w.global_registry)
        × ((o : ℕ) → o ≢ this → (create_sandbox h os this s w).1.objects o ≡ w.objects o)
  unfolding create_sandbox connect put_object
  create_sandbox_registers this s w fd base mapped =
      let k1 = (create_memory h os w.kernel).1 in
      elim (Option-cases (create_channels h os fd k1).0) [
        | inl unpaired ↦ rw (create_sandbox, mapped, connect, unpaired) (refl, λ o ne. other _ o ne)
        | inr (channels, paired) ↦
            elim (Option-cases (create_child h os fd channels (create_channels h os fd k1).1).0) [
              | inl childless ↦
                  rw (create_sandbox, mapped, connect, paired, childless)
                    (refl, λ o ne. other _ o ne)
              | inr (pid, started) ↦
                  rw (create_sandbox, mapped, connect, paired, started) (refl, λ o ne. other _ o ne)
            ]
      ]
    where
      other : (t : Sandbox) (o : ℕ) → o ≢ this → insert this t w.objects o ≡ w.objects o
      other t o ne = ground arith

  deleted_same :
      (this : ℕ) (s : Sandbox) (w : World K) (fd base : ℕ) (registry : List (ℕ × ℕ))
      → (create_memory h os w.kernel).0 ≡ some (fd, base)
      → All (λ (e : ℕ × ℕ). e.1 ≢ this) registry
      → All
          (λ (e : ℕ × ℕ).
            (e.0 ≢ base) × ((a : ℕ) → base ≤ a → a < base + memory_size → ¬ (LiesIn w.objects a e)))
          registry
      → All
          (λ (e : ℕ × ℕ).
            (erase this (create_sandbox h os this s w).1.objects e.1 ≡ w.objects e.1)
            × (e.0 ≢ base)
            × (¬ (LiesIn w.objects base e)))
          registry
  deleted_same this s w fd base [] mapped absent fresh = tt
  deleted_same this s w fd base (e ∷ registry) mapped (ne, absent) ((nb, outside), fresh) =
      let other : (this == e.1) ≡ false = ground arith in
      (
        (
          rw (erase, other) ((create_sandbox_registers this s w fd base mapped).1 e.1 ne),
          nb,
          outside base (omega arith) (omega arith),
        ),
        deleted_same this s w fd base registry mapped absent fresh,
      )

  -- If `impl_create_sandbox` has mapped the memory and the object goes away without a destruction, as
  -- it does when the creation fails at a socket pair or at `fork`, then `impl_is_in_same_sandbox` on
  -- the base of that memory and any other address reads the object that is gone. This is for an object
  -- that was not registered before, a kernel that maps the memory where it meets no registered memory,
  -- and a registry that was in order.
  pub is_in_same_sandbox_stale :
      (this : ℕ) (s : Sandbox) (w : World K) (fd base p : ℕ)
      → (create_memory h os w.kernel).0 ≡ some (fd, base)
      → All (λ (e : ℕ × ℕ). e.1 ≢ this) w.global_registry
      → IsFreshMemory h w.objects base w.global_registry
      → IsRegistry h w.objects w.global_registry
      → is_in_same_sandbox h os base p (delete_object h os this (create_sandbox h os this s w).1)
        ≡ none
  unfolding is_in_same_sandbox delete_object
  is_in_same_sandbox_stale this s w fd base p mapped absent (small, fresh) ok =
      let objects' = erase this (create_sandbox h os this s w).1.objects in
      let gone : objects' this ≡ none = ground arith in
      let walk =
        sandbox_of_gone base this base w.objects objects' w.global_registry ok
          (deleted_same this s w fd base w.global_registry mapped absent fresh) gone in
      rw (is_in_same_sandbox, (create_sandbox_registers this s w fd base mapped).0, walk) refl
