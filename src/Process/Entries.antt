-- ===== src/Process/Entries.antt =====
-- The registry over a creation (include/rlbox_process_sandbox.hpp).
use rlbox_dynamic_sandbox.Common.{
  ℕ, ◌+◌, ◌^◌, ◌<◌, ◌≤◌, ◌≡◌, ◌≢◌, ◌∙◌, refl, sym, ap, subst, arith, false, List, [], ◌∷◌, Option,
  none, some, All, Map, insert, Option-cases, inl, inr, ◌==◌,
}
use rlbox_dynamic_sandbox.Meta.Types.{Host, pointer_bits}
use rlbox_dynamic_sandbox.Process.{
  Os, Sandbox, World, memory_size, register, create_memory, create_channels, create_child, connect,
  create_sandbox, put_object,
}
use rlbox_dynamic_sandbox.Process.Registry.{extent, LiesIn, IsRegistry}
use rlbox_dynamic_sandbox.Process.Register.{
  IsFresh, register-IsRegistry, LiesIn-same, Keeps, IsRegistry-same,
}

insert-Keeps :
    (objects : Map Sandbox) (this : ℕ) (s : Sandbox) (registry : List (ℕ × ℕ))
    → All (λ (e : ℕ × ℕ). e.1 ≢ this) registry
    → Keeps objects (insert this s objects) registry
insert-Keeps objects this s [] absent = tt
insert-Keeps objects this s (e ∷ registry) (ne, absent) =
    (rw (insert, other) refl, insert-Keeps objects this s registry absent)
  where
    other : (this == e.1) ≡ false
    other = ground arith

-- The memory at the base is apart from that of every entry, and ends below the last address.
abbrev pub IsFreshMemory : Host → Map Sandbox → ℕ → List (ℕ × ℕ) → Type 0
IsFreshMemory h objects base registry =
    (base + memory_size < 2 ^ pointer_bits h)
    × All
        (λ (e : ℕ × ℕ).
          (e.0 ≢ base) × ((a : ℕ) → base ≤ a → a < base + memory_size → ¬ (LiesIn objects a e)))
        registry

pub insert_self :
    (this : ℕ) (s : Sandbox) (objects : Map Sandbox) → insert this s objects this ≡ some s
insert_self this s objects = ground arith

extent_self :
    (this : ℕ) (s : Sandbox) (objects : Map Sandbox)
    → extent (insert this s objects) this ≡ s.shared_memory_size
extent_self this s objects =
    ap (λ (r : Option Sandbox). elim r [ none ↦ 0 | some t ↦ t.shared_memory_size ])
      (insert_self this s objects)

IsFresh-insert :
    (h : Host) (objects : Map Sandbox) (base this : ℕ) (s : Sandbox) (registry : List (ℕ × ℕ))
    → s.shared_memory_size ≡ memory_size
    → All (λ (e : ℕ × ℕ). e.1 ≢ this) registry
    → All
        (λ (e : ℕ × ℕ).
          (e.0 ≢ base) × ((a : ℕ) → base ≤ a → a < base + memory_size → ¬ (LiesIn objects a e)))
        registry
    → IsFresh (insert this s objects) base this registry
IsFresh-insert h objects base this s [] size absent fresh = tt
IsFresh-insert h objects base this s (e ∷ registry) size (ne, absent) ((nb, outside), fresh) =
    let objects' = insert this s objects in
    let other : (this == e.1) ≡ false = ground arith in
    let same : objects' e.1 ≡ objects e.1 = rw (insert, other) refl in
    let here : extent objects' this ≡ memory_size = extent_self this s objects ∙ size in
    let disjoint : (a : ℕ) → LiesIn objects' a (base, this) → ¬ (LiesIn objects' a e) =
      λ a (l, u) l'.
        outside a l (subst (λ n. a < base + n) here u) (LiesIn-same objects objects' a e same l') in
    (
      (nb, ((λ t. ne (sym t)), disjoint), (ne, (λ a l l'. disjoint a l' l))),
      IsFresh-insert h objects base this s registry size absent fresh,
    )

-- An object with memory of the usual size is registered.
registered-IsRegistry :
    (h : Host) (objects : Map Sandbox) (base this : ℕ) (s : Sandbox) (registry : List (ℕ × ℕ))
    → this ≢ 0
    → s.shared_memory_size ≡ memory_size
    → All (λ (e : ℕ × ℕ). e.1 ≢ this) registry
    → IsFreshMemory h objects base registry
    → IsRegistry h objects registry
    → IsRegistry h (insert this s objects) (register base this registry)
registered-IsRegistry h objects base this s registry nonnull size absent (small, fresh) ok =
    register-IsRegistry h (insert this s objects) base this registry nonnull
      (λ gone. absurd (cc (sym (insert_self this s objects) ∙ gone)))
      (subst (λ n. base + n < 2 ^ pointer_bits h) (sym (extent_self this s objects ∙ size)) small)
      (IsFresh-insert h objects base this s registry size absent fresh)
      (IsRegistry-same h objects (insert this s objects) registry
        (insert-Keeps objects this s registry absent) ok)

module _ {K : Type 0} (h : Host) (os : Os K) where
  -- Whether `impl_create_sandbox` returns true or false, a registry that is in order stays so. This is
  -- for an object that is not registered, at an address that is not 0, and for a kernel that maps the
  -- memory at a base where it meets no registered memory.
  pub create_sandbox-IsRegistry :
      (this : ℕ) (s : Sandbox) (w : World K)
      → this ≢ 0
      → All (λ (e : ℕ × ℕ). e.1 ≢ this) w.global_registry
      → ((fd base : ℕ)
          → (create_memory h os w.kernel).0 ≡ some (fd, base)
          → IsFreshMemory h w.objects base w.global_registry)
      → IsRegistry h w.objects w.global_registry
      → IsRegistry h
          (create_sandbox h os this s w).1.objects
          (create_sandbox h os this s w).1.global_registry
  unfolding create_sandbox connect put_object
  create_sandbox-IsRegistry this s w nonnull absent fresh ok =
      let k1 = (create_memory h os w.kernel).1 in
      elim (Option-cases (create_memory h os w.kernel).0) [
        | inl unmapped ↦
            rw (create_sandbox, unmapped)
              (IsRegistry-same h w.objects
                (insert this (record s { shared_memory_size = memory_size }) w.objects)
                w.global_registry
                (insert-Keeps w.objects this (record s { shared_memory_size = memory_size })
                  w.global_registry absent)
                ok)
        | inr ((fd, base), mapped) ↦
            let k2 = (create_channels h os fd k1).1 in
            let registers = λ (t : Sandbox) (size : t.shared_memory_size ≡ memory_size).
              registered-IsRegistry h w.objects base this t w.global_registry nonnull size absent
                (fresh fd base mapped) ok in
            elim (Option-cases (create_channels h os fd k1).0) [
              | inl unpaired ↦ rw (create_sandbox, mapped, connect, unpaired) (registers _ refl)
              | inr (channels, paired) ↦ elim (Option-cases (create_child h os fd channels k2).0) [
                | inl childless ↦
                    rw (create_sandbox, mapped, connect, paired, childless) (registers _ refl)
                | inr (pid, started) ↦
                    rw (create_sandbox, mapped, connect, paired, started) (registers _ refl)
              ]
            ]
      ]
