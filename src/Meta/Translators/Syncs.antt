-- ===== src/Meta/Translators/Syncs.antt =====
-- What the struct translators and their clean-ups do to the two layouts
-- (include/rlbox_meta_sandbox.hpp).
use rlbox_dynamic_sandbox.Common.{
  ℕ, ◌+◌, ◌≡◌, ◌∙◌, sym, ap, subst, List, [], ◌∷◌, All, some, Bool-cases, inl, inr, String, map,
  ◌==◌,
}
use rlbox_dynamic_sandbox.Meta.Types.{ok, ok-injective}
use rlbox_dynamic_sandbox.Meta.Tag.{tag_wasm}
use rlbox_dynamic_sandbox.Meta.State.{Meta, Env, StructTranslation}
use rlbox_dynamic_sandbox.Meta.Alloc.{get_struct_scratch}
use rlbox_dynamic_sandbox.Meta.Pointers.{get_unsandboxed_pointer}
use rlbox_dynamic_sandbox.Shim.Words.{Bytes, load_word}
use rlbox_dynamic_sandbox.Meta.Casts.{cast}
use rlbox_dynamic_sandbox.Meta.Translators.{
  Field, Move, Space, copy_fields, into_wasm, back_to_host, copy_in, clean_up,
  meta_struct_translator,
}
use rlbox_dynamic_sandbox.Meta.Translators.Copied.{AreMoves, IsCopied, copy_fields_copies}

-- What is written into the host's memory is read back from it.
abbrev pub ReadsBack : {W : Type 0} → Space W → Type 0
ReadsBack {W} space = (mem : Bytes) (w : W) → space.read (space.write mem w) ≡ mem

-- The field in wasm's layout is that of the host's, cast; and the other way round.
abbrev pub InWasm : ℕ → ℕ → Bytes → Bytes → Field → Type 0
InWasm host_view wasm_view mem mem' f =
    load_word f.wasm_size (wasm_view + f.wasm_offset) mem'
    ≡ cast f.signed f.host_size f.wasm_size (load_word f.host_size (host_view + f.host_offset) mem)

abbrev pub InHost : ℕ → ℕ → Bytes → Bytes → Field → Type 0
InHost host_view wasm_view mem mem' f =
    load_word f.host_size (host_view + f.host_offset) mem'
    ≡ cast f.signed f.wasm_size f.host_size (load_word f.wasm_size (wasm_view + f.wasm_offset) mem)

All-InWasm :
    (host_view wasm_view : ℕ) (mem mem' : Bytes) (fields : List Field)
    → All (IsCopied mem mem') (map (into_wasm host_view wasm_view) fields)
    → All (InWasm host_view wasm_view mem mem') fields
unfolding into_wasm
All-InWasm host_view wasm_view mem mem' [] copied = tt
All-InWasm host_view wasm_view mem mem' (f ∷ fields) (c, copied) =
    (c, All-InWasm host_view wasm_view mem mem' fields copied)

All-InHost :
    (host_view wasm_view : ℕ) (mem mem' : Bytes) (fields : List Field)
    → All (IsCopied mem mem') (map (back_to_host host_view wasm_view) fields)
    → All (InHost host_view wasm_view mem mem') fields
unfolding back_to_host
All-InHost host_view wasm_view mem mem' [] copied = tt
All-InHost host_view wasm_view mem mem' (f ∷ fields) (c, copied) =
    (c, All-InHost host_view wasm_view mem mem' fields copied)

module _ {P W D Q : Type 0} (env : Env P W D Q) (space : Space W) where
  open env use {host, wasm_ops}

  copy_in_copies :
      (moves : List Move) (m : Meta P W D Q)
      → ReadsBack space
      → AreMoves moves
      → All
          (IsCopied (space.read m.wasm_sbx) (space.read (copy_in env space moves m).wasm_sbx))
          moves
  unfolding copy_in
  copy_in_copies moves m reads separate =
      let mem = space.read m.wasm_sbx in
      rw (reads (copy_fields moves mem) m.wasm_sbx) (copy_fields_copies moves mem separate)

  abbrev Translated : Type 0
  Translated = StructTranslation (Meta P W D Q) × Meta P W D Q

  clean_up_copies :
      (fields : List Field) (host_view wasm_view scratch : ℕ) (m2 : Meta P W D Q)
      → ReadsBack space
      → AreMoves (map (back_to_host host_view wasm_view) fields)
      → wasm_ops.get_unsandboxed_pointer m2.wasm_sbx scratch ≡ wasm_view
      → All
          (InHost host_view wasm_view
            (space.read m2.wasm_sbx)
            (space.read (clean_up env space fields host_view scratch m2).wasm_sbx))
          fields
  unfolding clean_up
  clean_up_copies fields host_view wasm_view scratch m2 reads separate place = rw place (
      All-InHost host_view wasm_view (space.read m2.wasm_sbx)
        (space.read (copy_in env space (map (back_to_host host_view wasm_view) fields) m2).wasm_sbx)
        fields (copy_in_copies (map (back_to_host host_view wasm_view) fields) m2 reads separate))

  -- A translator, for a pointer with a scratch: the argument is the tagged scratch. Before the call each
  -- field in wasm's layout is the field in the host's, cast; and the clean-up, on whatever state the call
  -- leaves, makes each field in the host's layout the field in wasm's, cast. This is for layouts in
  -- which no field lies on another's place, and a wasm memory that keeps its place.
  pub meta_struct_translator_syncs :
      (fields : List Field) (m m1 m2 : Meta P W D Q) (symbol : String) (p : ℕ)
      (t : StructTranslation (Meta P W D Q)) (c : Meta P W D Q → Meta P W D Q)
      → let host_view = get_unsandboxed_pointer env m p in
        let scratch = get_struct_scratch p m in
        let wasm_view = wasm_ops.get_unsandboxed_pointer m.wasm_sbx scratch in
        ReadsBack space
        → AreMoves (map (into_wasm host_view wasm_view) fields)
        → AreMoves (map (back_to_host host_view wasm_view) fields)
        → meta_struct_translator env space fields m symbol p ≡ ok (t, m1)
        → t.cleanup ≡ some c
        → wasm_ops.get_unsandboxed_pointer m2.wasm_sbx scratch ≡ wasm_view
        → (t.wasm_scratch ≡ tag_wasm host scratch)
          × All (InWasm host_view wasm_view (space.read m.wasm_sbx) (space.read m1.wasm_sbx)) fields
          × All
              (InHost host_view wasm_view (space.read m2.wasm_sbx) (space.read (c m2).wasm_sbx))
              fields
  unfolding meta_struct_translator
  meta_struct_translator_syncs fields m m1 m2 symbol p t c reads forth back e is_c place =
      let host_view = get_unsandboxed_pointer env m p in
      let scratch = get_struct_scratch p m in
      let wasm_view = wasm_ops.get_unsandboxed_pointer m.wasm_sbx scratch in
      let moves = map (into_wasm host_view wasm_view) fields in
      elim (Bool-cases (scratch == 0)) [
        | inl no_scratch ↦ absurd (cc (rw (meta_struct_translator, no_scratch) at e))
        | inr scratched ↦
            let same = ok-injective (rw (meta_struct_translator, scratched) at e) in
            let cleans : clean_up env space fields host_view scratch ≡ c =
              some_injective (ap (λ (r : Translated). r.0.cleanup) same ∙ is_c) in
            (
              ap (λ (r : Translated). r.0.wasm_scratch) (sym same),
              subst
                  (λ (r : Translated).
                    All
                      (InWasm host_view wasm_view (space.read m.wasm_sbx) (space.read r.1.wasm_sbx))
                      fields)
                  same
                  (All-InWasm host_view wasm_view (space.read m.wasm_sbx)
                    (space.read (copy_in env space moves m).wasm_sbx) fields
                    (copy_in_copies moves m reads forth)),
              subst
                  (λ (d : Meta P W D Q → Meta P W D Q).
                    All
                      (InHost host_view wasm_view (space.read m2.wasm_sbx)
                        (space.read (d m2).wasm_sbx))
                      fields)
                  cleans (clean_up_copies fields host_view wasm_view scratch m2 reads back place),
            )
      ]
    where
      some_injective : {a b : Meta P W D Q → Meta P W D Q} → some a ≡ some b → a ≡ b
      some_injective h = cc
