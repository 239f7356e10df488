-- ===== src/Meta/Symbols/Lookup.antt =====
-- What a symbol lookup of include/rlbox_meta_sandbox.hpp leaves in the cache.
use rlbox_dynamic_sandbox.Common.{
  ◌≡◌, some, inl, inr, Option-cases, String, lookup, lookup-append_some, lookup-append_none,
  lookup_self, arith, ◌∷◌, [],
}
use rlbox_dynamic_sandbox.Meta.State.{SymbolRecord, Meta, Env}
use rlbox_dynamic_sandbox.Meta.Symbols.{resolve, lookup_symbol}

module _ {P W D Q : Type 0} (env : Env P W D Q) where
  -- The record that a lookup leaves under the name: the one that was there, or a fresh one.
  pub lookup_symbol-cached :
      (f : String) (m : Meta P W D Q)
      → (rec : SymbolRecord D) × (lookup f (lookup_symbol env f m).1.symbol_cache ≡ some rec)
  unfolding lookup_symbol
  lookup_symbol-cached f m = elim (Option-cases (lookup f m.symbol_cache)) [
    | inl fresh ↦ (
      resolve env m f,
      ground (
        arith,
        fresh,
        lookup-append_none f m.symbol_cache ((f, resolve env m f) ∷ []) fresh,
        lookup_self f (resolve env m f) [],
      ),
    )
    | inr (rec, old) ↦ (rec, ground (arith, old))
  ]

  -- A lookup returns the name as the handle, and a second lookup of it returns the same handle and
  -- changes nothing. A record that was cached, under this name or another, is kept as it was.
  pub lookup_symbol_stable :
      (f g : String) (m : Meta P W D Q) (rec : SymbolRecord D)
      → lookup g m.symbol_cache ≡ some rec
      → let (h, m') = lookup_symbol env f m in
        (h ≡ f) × (lookup_symbol env f m' ≡ (h, m')) × (lookup g m'.symbol_cache ≡ some rec)
  unfolding lookup_symbol
  lookup_symbol_stable f g m rec cached = ground (
    arith,
    lookup_symbol-cached f m,
    lookup-append_some g m.symbol_cache ((f, resolve env m f) ∷ []) rec cached,
    lookup-append_none f m.symbol_cache ((f, resolve env m f) ∷ []),
    lookup_self f (resolve env m f) [],
  )
