-- ===== src/Common/Maps.antt =====
-- Hash maps: as functions where the program only looks keys up, and as association lists keyed by
-- text where it also walks the entries.
use Prim.Native.Nat.{ℕ}
use Prim.Native.String.{String}
use mathlib.Core.Path.{◌≡◌, refl}
use mathlib.Core.Bool.{false}
use mathlib.Core.Option.{Option, none, some}
use mathlib.Core.List.{List, [], ◌∷◌, ◌++◌}
use native.Mathlib.Omega.{arith}
use text.Mathlib.Text.{◌==◌ as str_eq}
use text.Mathlib.TextEquality.{eq_iff as str_eq_iff}
use rlbox_dynamic_sandbox.Common.Tests.{◌==◌, if◌then◌else◌}

abbrev pub Map : Type 0 → Type 0
Map V = ℕ → Option V

module _ {V : Type 0} where
  abbrev pub no_entries : Map V
  no_entries k = none

  -- `m[k] = v`
  abbrev pub insert : ℕ → V → Map V → Map V
  insert k v m j = if k == j then some v else m j

  -- `m.emplace(k, v)`: an entry that is there stays.
  abbrev pub emplace : ℕ → V → Map V → Map V
  emplace k v m = elim (m k) [ none ↦ insert k v m | some w ↦ m ]

  abbrev pub erase : ℕ → Map V → Map V
  erase k m j = if k == j then none else m j

module _ {V : Type 0} where
  unfoldable pub lookup : String → List (String × V) → Option V
  lookup k [] = none
  lookup k ((j, v) ∷ m) = if str_eq j k then some v else lookup k m

  -- Replaces the entry under the key, and adds none.
  unfoldable pub adjust : String → V → List (String × V) → List (String × V)
  adjust k v [] = []
  adjust k v ((j, w) ∷ m) = if str_eq j k then (j, v) ∷ m else (j, w) ∷ adjust k v m

  pub lookup-adjust_self :
      (k : String) (v w : V) (m : List (String × V))
      → lookup k m ≡ some w
      → lookup k (adjust k v m) ≡ some v
  unfolding lookup adjust
  lookup-adjust_self k v w [] h = absurd (ground arith)
  lookup-adjust_self k v w ((j, x) ∷ m) h =
      ground (arith, str_eq_iff j k, lookup-adjust_self k v w m)

  pub lookup-adjust_ne :
      (k j : String) (v : V) (m : List (String × V))
      → str_eq k j ≡ false
      → lookup j (adjust k v m) ≡ lookup j m
  unfolding lookup adjust
  lookup-adjust_ne k j v [] h = refl
  lookup-adjust_ne k j v ((i, x) ∷ m) h =
      ground (arith, str_eq_iff i k, str_eq_iff i j, str_eq_iff k j, lookup-adjust_ne k j v m h)

  pub lookup-append_some :
      (k : String) (m n : List (String × V)) (v : V)
      → lookup k m ≡ some v
      → lookup k (m ++ n) ≡ some v
  unfolding lookup
  lookup-append_some k [] n v h = absurd (ground arith)
  lookup-append_some k ((j, x) ∷ m) n v h = ground (arith, lookup-append_some k m n v)

  pub lookup-append_none :
      (k : String) (m n : List (String × V)) → lookup k m ≡ none → lookup k (m ++ n) ≡ lookup k n
  unfolding lookup
  lookup-append_none k [] n h = refl
  lookup-append_none k ((j, x) ∷ m) n h = ground (arith, lookup-append_none k m n)

  pub lookup_self : (k : String) (v : V) (m : List (String × V)) → lookup k ((k, v) ∷ m) ≡ some v
  unfolding lookup
  lookup_self k v m = ground (arith, str_eq_iff k k)
