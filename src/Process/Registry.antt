-- ===== src/Process/Registry.antt =====
-- `impl_is_in_same_sandbox` of include/rlbox_process_sandbox.hpp against the regions of the sandboxes
-- that are registered, and what keeps the registry in order.
use rlbox_dynamic_sandbox.Common.{
  ℕ, ◌+◌, ◌%◌, ◌^◌, ◌<◌, ◌≤◌, ◌≡◌, ◌≢◌, ◌↔◌, ◌⊎◌, ◌∙◌, refl, sym, ap, subst, arith, Bool, true,
  List, [], ◌∷◌, none, some, All, Map, Option-cases, Bool-cases, inl, inr, ltb, leb, ◌==◌, ==_iff,
  ◌&&◌,
}
use rlbox_dynamic_sandbox.Meta.Types.{Host, i386, x86_64, pointer_bits}
use rlbox_dynamic_sandbox.Process.{Os, Sandbox, World, sandbox_of, is_in_same_sandbox}

-- The size of an object's memory.
abbrev pub extent : Map Sandbox → ℕ → ℕ
extent objects o = elim (objects o) [ none ↦ 0 | some s ↦ s.shared_memory_size ]

-- The address lies in the memory of the entry.
abbrev pub LiesIn : Map Sandbox → ℕ → ℕ × ℕ → Type 0
LiesIn objects a (base, o) = (base ≤ a) × (a < base + extent objects o)

-- The memories of two entries share no address.
abbrev pub AreApart : Map Sandbox → ℕ × ℕ → ℕ × ℕ → Type 0
AreApart objects e f = (e.1 ≢ f.1) × ((a : ℕ) → LiesIn objects a e → ¬ (LiesIn objects a f))

-- Every entry is an object that is alive, whose memory ends below the last address and which is apart
-- from those of the entries behind it.
abbrev pub IsRegistry : Host → Map Sandbox → List (ℕ × ℕ) → Type 0
IsRegistry h objects [] = Unit
IsRegistry h objects ((base, o) ∷ rest) =
    (o ≢ 0)
    × (objects o ≢ none)
    × (base + extent objects o < 2 ^ pointer_bits h)
    × All (AreApart objects (base, o)) rest
    × IsRegistry h objects rest

exact_word : (h : Host) (n : ℕ) → n < 2 ^ pointer_bits h → n % 2 ^ pointer_bits h ≡ n
exact_word i386 n small = omega (arith, small)
exact_word x86_64 n small = omega (arith, small)

module _ {K : Type 0} (h : Host) (os : Os K) where
  extent_at :
      (objects : Map Sandbox) (o : ℕ) (s : Sandbox)
      → objects o ≡ some s
      → extent objects o ≡ s.shared_memory_size
  extent_at objects o s there = rw (extent, there) refl

  pub inside_iff :
      (objects : Map Sandbox) (a base o : ℕ) (s : Sandbox)
      → objects o ≡ some s
      → base + extent objects o < 2 ^ pointer_bits h
      → ((leb base a && ltb a ((base + s.shared_memory_size) % 2 ^ pointer_bits h)) ≡ true)
        ↔ LiesIn objects a (base, o)
  inside_iff objects a base o s there small =
      let size = extent_at objects o s there in
      let exact : (base + s.shared_memory_size) % 2 ^ pointer_bits h ≡ base + s.shared_memory_size =
        exact_word h (base + s.shared_memory_size)
          (subst (λ n. base + n < 2 ^ pointer_bits h) size small) in
      ((λ e. ground arith), (λ (l, u). ground arith))

  -- An address in one memory is in none that is apart from it.
  apart_out :
      (objects : Map Sandbox) (a base o : ℕ) (rest : List (ℕ × ℕ))
      → LiesIn objects a (base, o)
      → All (AreApart objects (base, o)) rest
      → All (λ e. LiesIn objects a e ↔ (e.1 ≡ o)) rest
  apart_out objects a base o [] lies apart = tt
  apart_out objects a base o (e ∷ rest) lies ((differs, disjoint), apart) = (
    ((λ l. absurd (disjoint a lies l)), (λ same. absurd (differs (sym same)))),
    apart_out objects a base o rest lies apart,
  )

  apart_differs :
      (objects : Map Sandbox) (e : ℕ × ℕ) (o : ℕ) (rest : List (ℕ × ℕ))
      → All (AreApart objects e) rest
      → e.1 ≡ o
      → All (λ (f : ℕ × ℕ). f.1 ≢ o) rest
  apart_differs objects e o [] apart same = tt
  apart_differs objects e o (f ∷ rest) ((differs, disjoint), apart) same =
      ((λ same'. differs (same ∙ sym same')), apart_differs objects e o rest apart same)

  -- What `sandbox_of` returns: the one object whose entry has the address, or 0.
  sandbox_of_finds :
      (registry : List (ℕ × ℕ)) (objects : Map Sandbox) (a : ℕ)
      → IsRegistry h objects registry
      → (o : ℕ) × (sandbox_of h os registry objects a ≡ some o)
        × All (λ e. LiesIn objects a e ↔ (e.1 ≡ o)) registry
        × ((o ≡ 0) ⊎ (¬ (All (λ (e : ℕ × ℕ). e.1 ≢ o) registry)))
  unfolding sandbox_of
  sandbox_of_finds [] objects a ok = (0, refl, tt, inl refl)
  sandbox_of_finds ((base, o) ∷ rest) objects a (nonnull, alive, small, apart, ok) =
      let (found, later, which, in_rest) = sandbox_of_finds rest objects a ok in
      elim (Option-cases (objects o)) [
        | inl gone ↦ absurd (alive gone)
        | inr (s, there) ↦
            elim (Bool-cases
              (leb base a && ltb a ((base + s.shared_memory_size) % 2 ^ pointer_bits h))) [
                | inl inside ↦
                    let lies = (inside_iff objects a base o s there small).0 inside in
                    (
                      o,
                      rw (sandbox_of, there, inside) refl,
                      (((λ l. refl), (λ r. lies)), apart_out objects a base o rest lies apart),
                      inr (λ all. all.0 refl),
                    )
                | inr outside ↦
                    let lies_not : ¬ (LiesIn objects a (base, o)) = λ l.
                      absurd (cc (sym outside ∙ (inside_iff objects a base o s there small).1 l)) in
                    let fresh : o ≢ found = elim in_rest [
                      | inl null ↦ (λ same. nonnull (same ∙ null))
                      | inr occurs ↦
                          (λ same. occurs (apart_differs objects (base, o) found rest apart same))
                    ] in
                    (
                      found,
                      rw (sandbox_of, there, outside) later,
                      (((λ l. absurd (lies_not l)), (λ same. absurd (fresh same))), which),
                      elim in_rest [ inl null ↦ inl null | inr occurs ↦ inr (λ all. occurs all.1) ],
                    )
              ]
      ]

  -- Two objects that occur at the same entries, and occur if they are not null.
  differ :
      (registry : List (ℕ × ℕ)) (o1 o2 : ℕ)
      → o1 ≢ o2
      → All (λ (e : ℕ × ℕ). (e.1 ≡ o1) ↔ (e.1 ≡ o2)) registry
      → All (λ (e : ℕ × ℕ). e.1 ≢ o1) registry × All (λ (e : ℕ × ℕ). e.1 ≢ o2) registry
  differ [] o1 o2 ne all = (tt, tt)
  differ (e ∷ registry) o1 o2 ne ((to, from), all) =
      let (not1, not2) = differ registry o1 o2 ne all in
      (((λ e1. ne (sym e1 ∙ to e1)), not1), ((λ e2. ne (sym (from e2) ∙ e2)), not2))

  agree :
      (registry : List (ℕ × ℕ)) (o1 o2 : ℕ)
      → ((o1 ≡ 0) ⊎ (¬ (All (λ (e : ℕ × ℕ). e.1 ≢ o1) registry)))
      → ((o2 ≡ 0) ⊎ (¬ (All (λ (e : ℕ × ℕ). e.1 ≢ o2) registry)))
      → All (λ (e : ℕ × ℕ). (e.1 ≡ o1) ↔ (e.1 ≡ o2)) registry
      → o1 ≡ o2
  agree registry o1 o2 occ1 occ2 all = elim (Bool-cases (o1 == o2)) [
    | inl same ↦ (==_iff o1 o2).0 same
    | inr other ↦
        let (not1, not2) = differ registry o1 o2 (λ e. absurd (ground arith)) all in
        elim occ1 [
          | inr occurs ↦ absurd (occurs not1)
          | inl null1 ↦ elim occ2 [
            | inr occurs ↦ absurd (occurs not2)
            | inl null2 ↦ null1 ∙ sym null2
          ]
        ]
  ]

  same_entries :
      (registry : List (ℕ × ℕ)) (objects : Map Sandbox) (p1 p2 o1 o2 : ℕ)
      → All (λ e. LiesIn objects p1 e ↔ (e.1 ≡ o1)) registry
      → All (λ e. LiesIn objects p2 e ↔ (e.1 ≡ o2)) registry
      → (o1 ≡ o2 → All (λ e. LiesIn objects p1 e ↔ LiesIn objects p2 e) registry)
        × (All (λ e. LiesIn objects p1 e ↔ LiesIn objects p2 e) registry
            → All (λ (e : ℕ × ℕ). (e.1 ≡ o1) ↔ (e.1 ≡ o2)) registry)
  same_entries [] objects p1 p2 o1 o2 which1 which2 = ((λ same. tt), (λ all. tt))
  same_entries (e ∷ registry) objects p1 p2 o1 o2 ((to1, from1), which1) ((to2, from2), which2) =
      let (there, back) = same_entries registry objects p1 p2 o1 o2 which1 which2 in
      (
        (λ same. (((λ l. from2 (to1 l ∙ same)), (λ l. from1 (to2 l ∙ sym same))), there same)),
        (λ ((to, from), all).
            (((λ e1. to2 (to (from1 e1))), (λ e2. to1 (from (from2 e2)))), back all)),
      )

  some_injective : {a b : Bool} → some a ≡ some b → a ≡ b
  some_injective e = cc

  -- In a registry that is in order, the answer of `impl_is_in_same_sandbox` is true exactly when each
  -- registered memory has both addresses or neither: both are in one sandbox, or both outside all.
  pub is_in_same_sandbox_regions :
      (p1 p2 : ℕ) (w : World K)
      → IsRegistry h w.objects w.global_registry
      → (is_in_same_sandbox h os p1 p2 w ≡ some true)
        ↔ All (λ e. LiesIn w.objects p1 e ↔ LiesIn w.objects p2 e) w.global_registry
  unfolding is_in_same_sandbox
  is_in_same_sandbox_regions p1 p2 w ok =
      let (o1, e1, which1, occ1) = sandbox_of_finds w.global_registry w.objects p1 ok in
      let (o2, e2, which2, occ2) = sandbox_of_finds w.global_registry w.objects p2 ok in
      let (there, back) = same_entries w.global_registry w.objects p1 p2 o1 o2 which1 which2 in
      (
        (λ e. there ((==_iff o1 o2).0 (some_injective (rw (is_in_same_sandbox, e1, e2) at e)))),
        (λ all.
            rw (is_in_same_sandbox, e1, e2)
              (ap some ((==_iff o1 o2).1 (agree w.global_registry o1 o2 occ1 occ2 (back all))))),
      )
