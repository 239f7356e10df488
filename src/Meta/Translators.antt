-- ===== src/Meta/Translators.antt =====
-- What the struct-translator macros of include/rlbox_meta_sandbox.hpp expand to: a translator for each
-- struct of a library, which copies the fields into the scratch in wasm's layout, and a clean-up that
-- copies them back.
--
-- The library's X-macro, another project's, lists the fields; here they are an argument. Both layouts
-- are views of the host's own memory, which is part of wasm's state: `Space` reads and writes it.
pub mod Copied
pub mod Syncs
mod Tests
use rlbox_dynamic_sandbox.Common.{
  ℕ, ◌+◌, ◌*◌, ◌%◌, ◌^◌, Bool, List, [], ◌∷◌, some, String, map, ◌==◌, if◌then◌else◌,
}
use rlbox_dynamic_sandbox.Meta.Types.{Outcome, ok, aborts, no_scratch}
use rlbox_dynamic_sandbox.Meta.Tag.{tag_wasm}
use rlbox_dynamic_sandbox.Meta.State.{Meta, Env, StructTranslation}
use rlbox_dynamic_sandbox.Meta.Alloc.{get_struct_scratch}
use rlbox_dynamic_sandbox.Meta.Pointers.{get_unsandboxed_pointer}
use rlbox_dynamic_sandbox.Meta.Casts.{cast}
use rlbox_dynamic_sandbox.Shim.Words.{Bytes, load_word, store_word}

-- A field: where it is in the two layouts, how many bytes it has there, and whether its type is signed.
pub record Field : Type 0 where
  pub host_offset : ℕ
  pub host_size : ℕ
  pub wasm_offset : ℕ
  pub wasm_size : ℕ
  pub signed : Bool

-- The copy of one field: `dst->NAME = static_cast<decltype(dst->NAME)>(src->NAME)`.
pub record Move : Type 0 where
  pub src : ℕ
  pub src_size : ℕ
  pub dst : ℕ
  pub dst_size : ℕ
  pub signed : Bool

unfoldable pub copy_field : Move → Bytes → Bytes
unfolding cast load_word store_word
copy_field f mem =
    store_word f.dst_size f.dst
      (cast f.signed f.src_size f.dst_size (load_word f.src_size f.src mem)) mem

unfoldable pub copy_fields : List Move → Bytes → Bytes
unfolding copy_field
copy_fields [] mem = mem
copy_fields (f ∷ fs) mem = copy_fields fs (copy_field f mem)

-- The walk over the fields of the structs at two addresses, from the host's layout to wasm's, and back.
unfoldable pub into_wasm : ℕ → ℕ → Field → Move
into_wasm host_view wasm_view f = record {
  src = host_view + f.host_offset;
  src_size = f.host_size;
  dst = wasm_view + f.wasm_offset;
  dst_size = f.wasm_size;
  signed = f.signed;
}

unfoldable pub back_to_host : ℕ → ℕ → Field → Move
back_to_host host_view wasm_view f = record {
  src = wasm_view + f.wasm_offset;
  src_size = f.wasm_size;
  dst = host_view + f.host_offset;
  dst_size = f.host_size;
  signed = f.signed;
}

-- The host's memory as part of wasm's state.
pub record Space (W : Type 0) : Type 0 where
  pub read : W → Bytes
  pub write : Bytes → W → W

module _ {P W D Q : Type 0} (env : Env P W D Q) (space : Space W) where
  open env use {host, wasm_ops}

  unfoldable pub copy_in : List Move → Meta P W D Q → Meta P W D Q
  unfolding copy_fields
  copy_in moves m = record m {
    wasm_sbx = space.write (copy_fields moves (space.read m.wasm_sbx)) m.wasm_sbx;
  }

  -- The clean-up: `host_view` and `wasm_offset` are captured, the wasm view is computed anew.
  unfoldable pub clean_up : List Field → ℕ → ℕ → Meta P W D Q → Meta P W D Q
  unfolding copy_in back_to_host
  clean_up fields host_view wasm_offset m =
      copy_in
        (map (back_to_host host_view (wasm_ops.get_unsandboxed_pointer m.wasm_sbx wasm_offset))
          fields)
        m

  unfoldable pub meta_struct_translator :
      List Field
      → Meta P W D Q
      → String
      → ℕ
      → Outcome (StructTranslation (Meta P W D Q) × Meta P W D Q)
  unfolding copy_in into_wasm clean_up get_unsandboxed_pointer get_struct_scratch tag_wasm
  meta_struct_translator fields m symbol host_ptr_tagged =
      let host_view = get_unsandboxed_pointer env m host_ptr_tagged in
      let wasm_offset = get_struct_scratch host_ptr_tagged m in
      let wasm_view = wasm_ops.get_unsandboxed_pointer m.wasm_sbx wasm_offset in
      if wasm_offset == 0
      then aborts no_scratch
      else ok (
        record {
          wasm_scratch = tag_wasm host wasm_offset;
          cleanup = some (clean_up fields host_view wasm_offset);
        },
        copy_in (map (into_wasm host_view wasm_view) fields) m,
      )
