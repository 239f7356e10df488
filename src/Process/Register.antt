-- ===== src/Process/Register.antt =====
-- What one entry more, or one entry less, does to a registry in order
-- (include/rlbox_process_sandbox.hpp).
use rlbox_dynamic_sandbox.Common.{
  ℕ, ◌+◌, ◌^◌, ◌<◌, ◌≡◌, ◌≢◌, ◌∙◌, refl, sym, subst, arith, List, [], ◌∷◌, none, All, Map,
  Bool-cases, inl, inr, ltb, ◌==◌,
}
use rlbox_dynamic_sandbox.Meta.Types.{Host, pointer_bits}
use rlbox_dynamic_sandbox.Process.{Sandbox, register, unregister}
use rlbox_dynamic_sandbox.Process.Registry.{extent, LiesIn, AreApart, IsRegistry}

-- An erased entry is the one that was set, if there was none.
pub unregister-register :
    (base this : ℕ) (registry : List (ℕ × ℕ))
    → All (λ (e : ℕ × ℕ). e.0 ≢ base) registry
    → unregister base (register base this registry) ≡ registry
unfolding register unregister
unregister-register base this [] fresh = ground arith
unregister-register base this ((b, o) ∷ registry) fresh =
    ground (arith, unregister-register base this registry fresh.1)

All-register :
    (P : ℕ × ℕ → Type 0) (base this : ℕ) (registry : List (ℕ × ℕ))
    → P (base, this)
    → All P registry
    → All P (register base this registry)
unfolding register
All-register P base this [] p all = (p, tt)
All-register P base this ((b, o) ∷ registry) p (q, all) =
    let later = All-register P base this registry p all in
    elim (Bool-cases (base == b)) [
      | inl same ↦ rw (register, same) (subst (λ k. P (k, this)) (ground arith) p, all)
      | inr other ↦ elim (Bool-cases (ltb base b)) [
        | inl before ↦ rw (register, other, before) (p, (q, all))
        | inr behind ↦ rw (register, other, behind) (q, later)
      ]
    ]

-- The region at the base is apart from those of the registry, both ways.
abbrev pub IsFresh : Map Sandbox → ℕ → ℕ → List (ℕ × ℕ) → Type 0
IsFresh objects base this registry =
    All
      (λ (e : ℕ × ℕ).
        (e.0 ≢ base) × AreApart objects (base, this) e × AreApart objects e (base, this))
      registry

pub register-IsRegistry :
    (h : Host) (objects : Map Sandbox) (base this : ℕ) (registry : List (ℕ × ℕ))
    → this ≢ 0
    → objects this ≢ none
    → base + extent objects this < 2 ^ pointer_bits h
    → IsFresh objects base this registry
    → IsRegistry h objects registry
    → IsRegistry h objects (register base this registry)
unfolding register
register-IsRegistry h objects base this [] nonnull alive small fresh ok =
    (nonnull, alive, small, tt, tt)
register-IsRegistry h objects base this ((b, o) ∷ registry) nonnull alive small fresh ok =
    let ((ne, front, back), fresh') = fresh in
    let (nonnull', alive', small', apart, ok') = ok in
    let later = register-IsRegistry h objects base this registry nonnull alive small fresh' ok' in
    elim (Bool-cases (base == b)) [
      | inl same ↦ absurd (ne (ground arith))
      | inr other ↦ elim (Bool-cases (ltb base b)) [
        | inl before ↦
            rw (register, other, before)
              (nonnull, alive, small, (front, fronts registry fresh'), ok)
        | inr behind ↦
            rw (register, other, behind)
              (
                nonnull',
                alive',
                small',
                All-register (AreApart objects (b, o)) base this registry back apart,
                later,
              )
      ]
    ]
  where
    fronts :
        (entries : List (ℕ × ℕ))
        → IsFresh objects base this entries
        → All (AreApart objects (base, this)) entries
    fronts [] f = tt
    fronts (e ∷ entries) ((n, p, q), f) = (p, fronts entries f)

pub extent_same :
    (objects objects' : Map Sandbox) (o : ℕ)
    → objects' o ≡ objects o
    → extent objects' o ≡ extent objects o
extent_same objects objects' o same = rw (extent, same) refl

pub LiesIn-same :
    (objects objects' : Map Sandbox) (a : ℕ) (e : ℕ × ℕ)
    → objects' e.1 ≡ objects e.1
    → LiesIn objects' a e
    → LiesIn objects a e
LiesIn-same objects objects' a (b, o) same (l, u) =
    (l, subst (λ n. a < b + n) (extent_same objects objects' o same) u)

AreApart-same :
    (objects objects' : Map Sandbox) (e f : ℕ × ℕ)
    → objects' e.1 ≡ objects e.1
    → objects' f.1 ≡ objects f.1
    → AreApart objects e f
    → AreApart objects' e f
AreApart-same objects objects' e f same same' (ne, disjoint) = (
  ne,
  (λ a l l'.
      disjoint a (LiesIn-same objects objects' a e same l)
        (LiesIn-same objects objects' a f same' l')),
)

-- The objects of the entries are as they were.
abbrev pub Keeps : Map Sandbox → Map Sandbox → List (ℕ × ℕ) → Type 0
Keeps objects objects' registry = All (λ (e : ℕ × ℕ). objects' e.1 ≡ objects e.1) registry

apart_same :
    (objects objects' : Map Sandbox) (e : ℕ × ℕ) (registry : List (ℕ × ℕ))
    → objects' e.1 ≡ objects e.1
    → Keeps objects objects' registry
    → All (AreApart objects e) registry
    → All (AreApart objects' e) registry
apart_same objects objects' e [] same keeps all = tt
apart_same objects objects' e (f ∷ registry) same (k, keeps) (p, all) = (
  AreApart-same objects objects' e f same k p,
  apart_same objects objects' e registry same keeps all,
)

pub IsRegistry-same :
    (h : Host) (objects objects' : Map Sandbox) (registry : List (ℕ × ℕ))
    → Keeps objects objects' registry
    → IsRegistry h objects registry
    → IsRegistry h objects' registry
IsRegistry-same h objects objects' [] keeps ok = tt
IsRegistry-same h objects objects' ((b, o) ∷ registry) (k, keeps)
      (nonnull, alive, small, apart, ok) =
    (
      nonnull,
      (λ gone. alive (sym k ∙ gone)),
      subst (λ n. b + n < 2 ^ pointer_bits h) (sym (extent_same objects objects' o k)) small,
      apart_same objects objects' (b, o) registry k keeps apart,
      IsRegistry-same h objects objects' registry keeps ok,
    )
